-- ===== src/Snapshot/Laws.antt =====
-- include/aarchvm/snapshot_io.hpp: what is written is read back.
use aarchvm.Base.{
  ℕ, zero, suc, ◌+◌, ◌*◌, ◌/◌, ◌%◌, ◌^◌, ◌<◌, ◌≤◌, ◌≡◌, ◌≢◌, refl, ap, ◌∙◌, Bool, true, false, none,
  some, List, [], ◌∷◌, ◌++◌, length, append_assoc, arith, Option-cases, inl, inr,
}
use aarchvm.Snapshot.{
  Stream, write, read, write_bool, read_bool, write_vector, read_vector, take_bytes, Load, field_of,
  bool_of, ◌&&&◌, go_on,
}

pub low_bytes : ℕ → ℕ → ℕ
low_bytes zero value = 0
low_bytes (suc n) value = value % 256 + 256 * low_bytes n (value / 256)

pub read-write :
    (n old value : ℕ) (rest : Stream)
    → read n old (write n value ++ rest) ≡ (low_bytes n value, some rest)
unfolding read write low_bytes
read-write zero old value rest = refl
read-write (suc n) old value rest = ground (arith, read-write n (old / 256) (value / 256) rest)

pub low_bytes_1 : (v : ℕ) → v < 2 ^ 8 → low_bytes 1 v ≡ v
unfolding low_bytes
low_bytes_1 v h = omega arith

pub low_bytes_4 : (v : ℕ) → v < 2 ^ 32 → low_bytes 4 v ≡ v
unfolding low_bytes
low_bytes_4 v h = omega arith

pub low_bytes_8 : (v : ℕ) → v < 2 ^ 64 → low_bytes 8 v ≡ v
unfolding low_bytes
low_bytes_8 v h = omega arith

pub read-write_1 :
    (old v : ℕ) (rest : Stream) → v < 2 ^ 8 → read 1 old (write 1 v ++ rest) ≡ (v, some rest)
read-write_1 old v rest h = read-write 1 old v rest ∙ ap (λ x. (x, some rest)) (low_bytes_1 v h)

pub read-write_4 :
    (old v : ℕ) (rest : Stream) → v < 2 ^ 32 → read 4 old (write 4 v ++ rest) ≡ (v, some rest)
read-write_4 old v rest h = read-write 4 old v rest ∙ ap (λ x. (x, some rest)) (low_bytes_4 v h)

pub read-write_8 :
    (old v : ℕ) (rest : Stream) → v < 2 ^ 64 → read 8 old (write 8 v ++ rest) ≡ (v, some rest)
read-write_8 old v rest h = read-write 8 old v rest ∙ ap (λ x. (x, some rest)) (low_bytes_8 v h)

pub read_bool-write_bool :
    (old v : Bool) (rest : Stream) → read_bool old (write_bool v ++ rest) ≡ (v, some rest)
unfolding read_bool
read_bool-write_bool old true rest = refl
read_bool-write_bool old false rest = refl

take_bytes-append :
    (bs : List ℕ) (rest : Stream) → take_bytes (length bs) (bs ++ rest) ≡ some (bs, rest)
unfolding take_bytes
take_bytes-append [] rest = refl
take_bytes-append (b ∷ bs) rest = rw (take_bytes-append bs rest) refl

pub read_vector-write_vector :
    (bs : List ℕ) (rest : Stream)
    → length bs ≤ 2 ^ 31
    → read_vector (write_vector bs ++ rest) ≡ some (bs, rest)
unfolding read_vector write_vector
read_vector-write_vector bs rest h =
    rw (append_assoc (write 8 (length bs)) bs rest)
      (ground (arith, read-write_8 0 (length bs) (bs ++ rest), take_bytes-append bs rest))

-- A load that succeeds takes no notice of what follows its part of the stream.
unfoldable pub Extends : {S : Type 0} → Load S → Type 0
Extends {S} load =
    (s s' : S) (p q r : Stream) → load s p ≡ (s', some r) → load s (p ++ q) ≡ (s', some (r ++ q))

read-append :
    (n old value : ℕ) (p q r : Stream)
    → read n old p ≡ (value, some r)
    → read n old (p ++ q) ≡ (value, some (r ++ q))
unfolding read
read-append zero old value p q r h = ground (arith, h)
read-append (suc n) old value [] q r h = absurd (ground (arith, h))
read-append (suc n) old value (b ∷ p) q r h =
    ground (arith, h, read-append n (old / 256) (read n (old / 256) p).0 p q r)

pub field_of-Extends :
    {S : Type 0} (n : ℕ) (get : S → ℕ) (set : S → ℕ → S) → Extends (field_of n get set)
unfolding Extends
field_of-Extends n get set s s' p q r h =
    ground (arith, h, read-append n (get s) (read n (get s) p).0 p q r)

pub bool_of-Extends : {S : Type 0} (get : S → Bool) (set : S → Bool → S) → Extends (bool_of get set)
unfolding Extends read_bool
bool_of-Extends get set s s' [] q r h = absurd (ground (arith, h))
bool_of-Extends get set s s' (b ∷ p) q r h = ground (arith, h)

pub &&&-Extends : {S : Type 0} (a b : Load S) → Extends a → Extends b → Extends (a &&& b)
unfolding Extends
&&&-Extends a b ha hb s s' p q r h = elim (Option-cases (a s p).1) [
  | inl e ↦ absurd (ground (arith, h, e))
  | inr (m, e) ↦
      let first : a s p ≡ ((a s p).0, some m) = ap (λ o. ((a s p).0, o)) e in
      let second : b (a s p).0 m ≡ (s', some r) = ground (arith, h, e) in
      ap (go_on b) (ha s (a s p).0 p q m first) ∙ hb (a s p).0 s' m q r second
]

take_bytes-append_some :
    (n : ℕ) (bs p q r : Stream)
    → take_bytes n p ≡ some (bs, r)
    → take_bytes n (p ++ q) ≡ some (bs, r ++ q)
unfolding take_bytes
take_bytes-append_some zero bs p q r h = ground (arith, h)
take_bytes-append_some (suc n) bs [] q r h = absurd (ground (arith, h))
take_bytes-append_some (suc n) bs (b ∷ p) q r h = elim (Option-cases (take_bytes n p)) [
  | inl e ↦ absurd (ground (arith, h, e))
  | inr ((cs, r'), e) ↦ ground (arith, h, e, take_bytes-append_some n cs p q r' e)
]

pub read_vector-append :
    (bs p q r : Stream) → read_vector p ≡ some (bs, r) → read_vector (p ++ q) ≡ some (bs, r ++ q)
unfolding read_vector
read_vector-append bs p q r h = elim (Option-cases (read 8 0 p).1) [
  | inl e ↦ absurd (ground (arith, h, e))
  | inr (m, e) ↦
      let size = (read 8 0 p).0 in
      ground (arith, h, e, read-append 8 0 size p q m, take_bytes-append_some size bs m q r)
]

length-positive : (r q : Stream) → r ++ q ≡ [] → q ≡ []
length-positive [] q h = h
length-positive (x ∷ r) q h = absurd (ground (arith, h))

-- Where a load reads a whole stream to its end, it fails on every proper prefix.
pub Extends-truncated :
    {S : Type 0} (load : Load S) (s s' : S) (p q : Stream)
    → Extends load
    → load s (p ++ q) ≡ (s', some [])
    → q ≢ []
    → (load s p).1 ≡ none
unfolding Extends
Extends-truncated load s s' p q k h ne = elim (Option-cases (load s p).1) [
  | inl e ↦ e
  | inr (r, e) ↦
      let whole = k s (load s p).0 p q r (ap (λ o. ((load s p).0, o)) e) in
      absurd (ne (length-positive r q (ground (arith, whole, h))))
]
