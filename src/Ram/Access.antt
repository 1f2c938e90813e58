-- ===== src/Ram/Access.antt =====
-- src/ram.cpp: what a write leaves to be read, and what it leaves alone.
use aarchvm.Base.{
  ℕ, zero, suc, ◌+◌, ◌*◌, ◌/◌, ◌%◌, ◌^◌, ◌≤◌, ◌<◌, ◌≡◌, refl, ◌∙◌, true, some, update, update_ne,
  update_self, arith, ◌⊎◌, inl,
}
use aarchvm.Ram.{
  Ram, get_bytes, put_bytes, is_access_size, fits, read_fast, write_fast, read, write,
}

-- The low `n` bytes of a number.
unfoldable pub low_bytes : ℕ → ℕ → ℕ
low_bytes zero value = 0
low_bytes (suc n) value = value % 256 + 256 * low_bytes n (value / 256)

pub low_bytes-size : (n value : ℕ) → is_access_size n ≡ true → low_bytes n value ≡ value % 256 ^ n
unfolding low_bytes
low_bytes-size (suc zero) value h = omega arith
low_bytes-size (suc (suc zero)) value h = omega arith
low_bytes-size (suc (suc (suc (suc zero)))) value h = omega arith
low_bytes-size (suc (suc (suc (suc (suc (suc (suc (suc zero)))))))) value h = omega arith
low_bytes-size n value h = absurd (ground (arith, h))

pub put_bytes-outside :
    (bytes : ℕ → ℕ) (offset value n j : ℕ)
    → (j < offset) ⊎ (offset + n ≤ j)
    → put_bytes bytes offset value n j ≡ bytes j
unfolding put_bytes
put_bytes-outside bytes offset value zero j h = refl
put_bytes-outside bytes offset value (suc n) j h =
    put_bytes-outside (update bytes offset (value % 256)) (suc offset) (value / 256) n j
      (ground (arith, h))
    ∙ update_ne bytes offset j (value % 256) (λ e. absurd (ground (arith, h, e)))

pub get_bytes-put_bytes :
    (bytes : ℕ → ℕ) (offset value n : ℕ)
    → get_bytes (put_bytes bytes offset value n) offset n ≡ low_bytes n value
unfolding get_bytes put_bytes low_bytes
get_bytes-put_bytes bytes offset value zero = refl
get_bytes-put_bytes bytes offset value (suc n) =
    let first =
      put_bytes-outside (update bytes offset (value % 256)) (suc offset) (value / 256) n offset
        (inl (omega arith))
      ∙ update_self bytes offset (value % 256) in
    let rest =
      get_bytes-put_bytes (update bytes offset (value % 256)) (suc offset) (value / 256) n in
    rw (first, rest) refl

pub get_bytes-same :
    (bytes bytes' : ℕ → ℕ) (offset n : ℕ)
    → ((j : ℕ) → offset ≤ j → j < offset + n → bytes j ≡ bytes' j)
    → get_bytes bytes offset n ≡ get_bytes bytes' offset n
unfolding get_bytes
get_bytes-same bytes bytes' offset zero h = refl
get_bytes-same bytes bytes' offset (suc n) h = omega (
  arith,
  h offset (omega arith) (omega arith),
  get_bytes-same bytes bytes' (suc offset) n (λ j p q. h j (omega (arith, p)) (omega (arith, q))),
)

-- A read of the place and the size of a write that succeeded gives the low bytes of its value.
pub write_fast-read_fast :
    (r r' : Ram) (offset value size : ℕ)
    → write_fast r offset value size ≡ some r'
    → read_fast r' offset size ≡ some (value % 256 ^ size)
unfolding write_fast read_fast fits
write_fast-read_fast r r' offset value size h =
    ground (arith, h, get_bytes-put_bytes r.bytes offset value size, low_bytes-size size value)

-- A write changes no read of bytes that it does not overlap, whether it succeeds or fails.
pub write-read :
    (r : Ram) (offset value size at n : ℕ)
    → (at + n ≤ offset) ⊎ (offset + size ≤ at)
    → read (write r offset value size) at n ≡ read r at n
unfolding write read write_fast read_fast fits
write-read r offset value size at n h = ground (
  arith,
  get_bytes-same (put_bytes r.bytes offset value size) r.bytes at n
      (λ j p q. put_bytes-outside r.bytes offset value size j (ground (arith, h, p, q))),
)
