-- ===== src/Snapshot.antt =====
-- include/aarchvm/snapshot_io.hpp: the stream of a snapshot as a list of bytes. A value that is written
-- is the list of its bytes, lowest first (the host is little-endian); the host's output stream does not
-- fail. A read takes a target's old value, since a read that meets the end of the stream leaves the
-- bytes it got in the target, and gives the new value with what is left of the stream, or `none` for
-- the `false` of the code.
pub mod Laws
use aarchvm.Base.{
  ℕ, zero, suc, ◌+◌, ◌*◌, ◌/◌, ◌%◌, ◌^◌, Bool, true, false, not, ltb, leb, ◌==◌, if◌then◌else◌,
  Option, none, some, List, [], ◌∷◌, ◌++◌, length,
}

abbrev pub Stream : Type 0
Stream = List ℕ

-- `n` bytes of a number.
unfoldable pub write : ℕ → ℕ → Stream
write zero value = []
write (suc n) value = value % 256 ∷ write n (value / 256)

unfoldable pub read : ℕ → ℕ → Stream → ℕ × Option Stream
read zero old in' = (0, some in')
read (suc n) old [] = (old, none)
read (suc n) old (b ∷ in') = let rest = read n (old / 256) in' in (b + 256 * rest.0, rest.1)

abbrev pub write_bool : Bool → Stream
write_bool value = (if value then 1 else 0) ∷ []

unfoldable pub read_bool : Bool → Stream → Bool × Option Stream
read_bool old [] = (old, none)
read_bool old (b ∷ in') = (not (b == 0), some in')

-- A `std::vector<std::uint8_t>`; a size above 2^31 is refused.
unfoldable pub write_vector : List ℕ → Stream
write_vector values = write 8 (length values) ++ values

-- `none` for the vector is a read that failed: its target is a local of every caller.
unfoldable pub take_bytes : ℕ → Stream → Option (List ℕ × Stream)
take_bytes zero in' = some ([], in')
take_bytes (suc n) [] = none
take_bytes (suc n) (b ∷ in') = elim (take_bytes n in') [
  | none ↦ none
  | some (bs, rest) ↦ some (b ∷ bs, rest)
]

unfoldable pub read_vector : Stream → Option (List ℕ × Stream)
read_vector in' =
    let (size, left) = read 8 0 in' in
    elim left [ none ↦ none | some rest ↦ if ltb (2 ^ 31) size then none else take_bytes size rest ]

-- A load of a component changes its state, and goes on with the stream or has failed.
abbrev pub Load : Type 0 → Type 0
Load S = S → Stream → S × Option Stream

abbrev pub go_on : {S : Type 0} → Load S → S × Option Stream → S × Option Stream
go_on b (s, none) = (s, none)
go_on b (s, some rest) = b s rest

infixl 5 ◌&&&◌
-- `a && b` on two loads.
abbrev pub ◌&&&◌ : {S : Type 0} → Load S → Load S → Load S
◌&&&◌ a b s in' = go_on b (a s in')

-- A load of one field.
abbrev pub field_of : {S : Type 0} → ℕ → (S → ℕ) → (S → ℕ → S) → Load S
field_of n get set s in' = let r = read n (get s) in' in (set s r.0, r.1)

abbrev pub bool_of : {S : Type 0} → (S → Bool) → (S → Bool → S) → Load S
bool_of get set s in' = let r = read_bool (get s) in' in (set s r.0, r.1)
