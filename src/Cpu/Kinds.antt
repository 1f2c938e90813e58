-- ===== src/Cpu/Kinds.antt =====
-- The kinds of decoded instructions, and tests of a word made on both paths at once.
use aarchvm.Base.{ℕ, ◌≡◌, refl, Bool, true, false, ◌||◌, if◌then◌else◌, Option, some, arith}
use aarchvm.Cpu.{Cpu}
use aarchvm.Cpu.Word.{decode_load_store, decode_pre_post}
use aarchvm.Cpu.Decode.{DecodedKind, DecodedInsn, fallback, load_store, load_store_uimm, blank}

-- The kinds that the decoded path runs without memory.
abbrev pub on_registers : DecodedKind → Bool
on_registers fallback = false
on_registers load_store = false
on_registers load_store_uimm = false
on_registers k = true

abbrev pub runs : DecodedInsn → Bool
runs d = on_registers d.kind

-- One test of the decoder and of the other path at once.
pub split_test :
    (f : DecodedInsn → Option Cpu) (rest : Option Cpu → Option Cpu) (g : Bool) (a b : DecodedInsn)
    (x y : Option Cpu)
    → (g ≡ true → runs a ≡ true → f a ≡ rest x)
    → (g ≡ false → runs b ≡ true → f b ≡ rest y)
    → runs (if g then a else b) ≡ true
    → f (if g then a else b) ≡ rest (if g then x else y)
split_test f rest true a b x y p q h = p refl h
split_test f rest false a b x y p q h = q refl h

pub split_case :
    (f : DecodedInsn → Option Cpu) (g : Bool) (a b : DecodedInsn) (x : Option Cpu)
    → (g ≡ true → runs a ≡ true → f a ≡ x)
    → (g ≡ false → runs b ≡ true → f b ≡ x)
    → runs (if g then a else b) ≡ true
    → f (if g then a else b) ≡ x
split_case f true a b x p q h = p refl h
split_case f false a b x p q h = q refl h

pub some_if : (g : Bool) (x y : Cpu) → some (if g then x else y) ≡ (if g then some x else some y)
some_if true x y = refl
some_if false x y = refl

-- Tests taken one by one, and together.
pub three_tests :
    (a b c : Bool) (x y z r : Option Cpu)
    → (if a then x else if b then y else if c then z else r)
      ≡ (if a || (b || c) then (if a then x else if b then y else z) else r)
three_tests true b c x y z r = refl
three_tests false true c x y z r = refl
three_tests false false true x y z r = refl
three_tests false false false x y z r = refl

pub four_tests :
    (a b c d : Bool) (x y r : Option Cpu)
    → (if a || b then x else if c || d then y else r)
      ≡ (if a || (b || (c || d)) then (if a || b then x else y) else r)
four_tests true b c d x y r = refl
four_tests false true c d x y r = refl
four_tests false false true d x y r = refl
four_tests false false false true x y r = refl
four_tests false false false false x y r = refl

-- A decoder that answers with a kind has not refused the word.
pub refused : (bad : Bool) (d : DecodedInsn) → runs (if bad then blank else d) ≡ true → bad ≡ false
refused true d h = absurd (ground (arith, h))
refused false d h = refl

runs_neither :
    (g : Bool) (a b : DecodedInsn)
    → runs a ≡ false
    → runs b ≡ false
    → runs (if g then a else b) ≡ false
runs_neither true a b p q = p
runs_neither false a b p q = q

pre_post_memory : (insn : ℕ) → runs (decode_pre_post insn) ≡ false
unfolding decode_pre_post
pre_post_memory insn = refl

-- What is left is memory's, or nothing.
pub load_store_memory : (insn : ℕ) → runs (decode_load_store insn) ≡ false
unfolding decode_load_store
load_store_memory insn = ground (arith, pre_post_memory insn)
