-- ===== src/Ram.antt =====
-- src/ram.cpp and include/aarchvm/ram.hpp: guest memory. The array is a function on the offset with the
-- number of its bytes beside it; an access beyond the array, which the code does not exclude when
-- `offset + size` wraps, reaches the function's further values here. `memcpy` takes the host to be
-- little-endian. The observer of writes is left out.
pub mod Access
pub mod Copy
pub mod Tests
use aarchvm.Base.{
  ℕ, zero, suc, ◌+◌, ◌*◌, ◌/◌, ◌%◌, ◌^◌, Bool, true, false, ◌&&◌, ◌||◌, not, ltb, leb, ◌==◌,
  if◌then◌else◌, u64_mod, Option, none, some, List, [], ◌∷◌, update,
}

pub record Ram : Type 0 where
  pub bytes : ℕ → ℕ
  pub size_bytes : ℕ

abbrev pub fresh_ram : ℕ → Ram
fresh_ram size_bytes = record { bytes = λ i. 0; size_bytes = size_bytes }

-- `n` bytes from the offset as a number, and a number's low `n` bytes put there.
unfoldable pub get_bytes : (ℕ → ℕ) → ℕ → ℕ → ℕ
get_bytes bytes offset zero = 0
get_bytes bytes offset (suc n) = bytes offset + 256 * get_bytes bytes (suc offset) n

unfoldable pub put_bytes : (ℕ → ℕ) → ℕ → ℕ → ℕ → ℕ → ℕ
put_bytes bytes offset value zero = bytes
put_bytes bytes offset value (suc n) =
    put_bytes (update bytes offset (value % 256)) (suc offset) (value / 256) n

abbrev pub is_access_size : ℕ → Bool
is_access_size size = size == 1 || (size == 2 || (size == 4 || size == 8))

-- The test of the range, with its 64-bit sum.
unfoldable pub fits : Ram → ℕ → ℕ → Bool
fits r offset size = leb ((offset + size) % u64_mod) r.size_bytes

unfoldable pub read_fast : Ram → ℕ → ℕ → Option ℕ
read_fast r offset size =
    if is_access_size size && fits r offset size then some (get_bytes r.bytes offset size) else none

unfoldable pub write_fast : Ram → ℕ → ℕ → ℕ → Option Ram
write_fast r offset value size =
    if is_access_size size && fits r offset size
    then some (record r { bytes = put_bytes r.bytes offset value size })
    else none

unfoldable pub read : Ram → ℕ → ℕ → ℕ
read r offset size = elim (read_fast r offset size) [ none ↦ 0 | some value ↦ value ]

unfoldable pub write : Ram → ℕ → ℕ → ℕ → Ram
write r offset value size = elim (write_fast r offset value size) [ none ↦ r | some r' ↦ r' ]

abbrev pub count {ℓ} : {A : Type ℓ} → List A → ℕ
count [] = 0
count (x ∷ xs) = suc (count xs)

unfoldable pub copy_words : (ℕ → ℕ) → ℕ → List ℕ → ℕ → ℕ
copy_words bytes offset [] = bytes
copy_words bytes offset (w ∷ ws) = copy_words (put_bytes bytes offset w 4) (offset + 4) ws

unfoldable pub load : Ram → ℕ → List ℕ → Option Ram
load r offset words =
    if fits r offset (count words * 4 % u64_mod)
    then some (record r { bytes = copy_words r.bytes offset words })
    else none

unfoldable pub copy_bytes : (ℕ → ℕ) → ℕ → List ℕ → ℕ → ℕ
copy_bytes bytes offset [] = bytes
copy_bytes bytes offset (b ∷ bs) = copy_bytes (update bytes offset b) (suc offset) bs

unfoldable pub load_bytes : Ram → ℕ → List ℕ → Option Ram
load_bytes r offset source =
    if fits r offset (count source)
    then some (record r { bytes = copy_bytes r.bytes offset source })
    else none
