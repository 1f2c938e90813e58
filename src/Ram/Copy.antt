-- ===== src/Ram/Copy.antt =====
-- src/ram.cpp: what the copy of a list of words or bytes leaves in the array.
use aarchvm.Base.{
  ℕ, suc, ◌+◌, ◌*◌, ◌%◌, ◌^◌, ◌≤◌, ◌<◌, ◌≡◌, refl, ◌∙◌, some, ap, List, [], ◌∷◌, ◌++◌, update,
  update_ne, update_self, arith, inl,
}
use aarchvm.Ram.{Ram, fits, load, count, get_bytes, put_bytes, copy_words, copy_bytes}
use aarchvm.Ram.Access.{low_bytes-size, put_bytes-outside, get_bytes-put_bytes, get_bytes-same}

copy_words-before :
    (bytes : ℕ → ℕ) (offset : ℕ) (words : List ℕ) (j : ℕ)
    → j < offset
    → copy_words bytes offset words j ≡ bytes j
unfolding copy_words
copy_words-before bytes offset [] j h = refl
copy_words-before bytes offset (w ∷ ws) j h =
    copy_words-before (put_bytes bytes offset w 4) (offset + 4) ws j (omega (arith, h))
    ∙ put_bytes-outside bytes offset w 4 j (inl h)

copy_bytes-before :
    (bytes : ℕ → ℕ) (offset : ℕ) (source : List ℕ) (j : ℕ)
    → j < offset
    → copy_bytes bytes offset source j ≡ bytes j
unfolding copy_bytes
copy_bytes-before bytes offset [] j h = refl
copy_bytes-before bytes offset (b ∷ bs) j h =
    copy_bytes-before (update bytes offset b) (suc offset) bs j (omega (arith, h))
    ∙ update_ne bytes offset j b (λ e. absurd (omega (arith, h, e)))

-- A word, or a byte, that follows `before` in the list.
pub get_bytes-copy_words :
    (bytes : ℕ → ℕ) (offset : ℕ) (before : List ℕ) (w : ℕ) (after : List ℕ) (at : ℕ)
    → at ≡ offset + count before * 4
    → get_bytes (copy_words bytes offset (before ++ w ∷ after)) at 4 ≡ w % 2 ^ 32
unfolding copy_words
get_bytes-copy_words bytes offset [] w after at e =
    let placed = put_bytes bytes offset w 4 in
    ap (λ k. get_bytes (copy_words placed (offset + 4) after) k 4) (omega (arith, e))
    ∙ get_bytes-same (copy_words placed (offset + 4) after) placed offset 4
        (λ j p q. copy_words-before placed (offset + 4) after j q)
    ∙ get_bytes-put_bytes bytes offset w 4
    ∙ low_bytes-size 4 w refl
get_bytes-copy_words bytes offset (x ∷ before) w after at e =
    get_bytes-copy_words (put_bytes bytes offset x 4) (offset + 4) before w after at
      (omega (arith, e))

pub copy_bytes-at :
    (bytes : ℕ → ℕ) (offset : ℕ) (before : List ℕ) (b : ℕ) (after : List ℕ) (at : ℕ)
    → at ≡ offset + count before
    → copy_bytes bytes offset (before ++ b ∷ after) at ≡ b
unfolding copy_bytes
copy_bytes-at bytes offset [] b after at e =
    ap (copy_bytes (update bytes offset b) (suc offset) after) (omega (arith, e))
    ∙ copy_bytes-before (update bytes offset b) (suc offset) after offset (omega arith)
    ∙ update_self bytes offset b
copy_bytes-at bytes offset (x ∷ before) b after at e =
    copy_bytes-at (update bytes offset x) (suc offset) before b after at (omega (arith, e))

count-append {ℓ} :
    {A : Type ℓ} (xs : List A) (x : A) (ys : List A)
    → count (xs ++ x ∷ ys) ≡ count xs + suc (count ys)
count-append [] x ys = omega arith
count-append (y ∷ xs) x ys = omega (arith, count-append xs x ys)

-- A load that succeeds fits, and holds the word.
pub load-word :
    (r r' : Ram) (offset : ℕ) (before : List ℕ) (w : ℕ) (after : List ℕ)
    → count (before ++ w ∷ after) < 2 ^ 61
    → offset < 2 ^ 32
    → load r offset (before ++ w ∷ after) ≡ some r'
    → (offset + count before * 4 + 4 ≤ r.size_bytes)
      × (get_bytes r'.bytes (offset + count before * 4) 4 ≡ w % 2 ^ 32)
unfolding load fits
load-word r r' offset before w after hc ho h = ground (
  arith,
  h,
  hc,
  ho,
  count-append before w after,
  get_bytes-copy_words r.bytes offset before w after (offset + count before * 4) refl,
)
