-- ===== src/Cpu/Compare.antt =====
-- The condition flags of src/cpu.cpp: what a branch sees after a comparison.
use aarchvm.Base.{
  ℕ, zero, suc, ◌+◌, ◌/◌, ◌%◌, ◌^◌, ◌<◌, ◌≡◌, refl, Bool, true, false, not, ◌&&◌, ◌||◌, ltb, leb,
  ◌==◌, if◌then◌else◌, bit, bit_and, same, u64_mod, u32_mod, arith, ==_iff, all_below,
  all_below_sound,
}
use native.Mathlib.Nat.{pow-suc}
use aarchvm.Cpu.{Cpu, low32, sub64, masked, set_flags_sub, set_flags_add, condition_holds}

-- The top bit of a number of `k + 1` bits.
pub bit_top : (k v : ℕ) → v < 2 ^ suc k → bit v k ≡ leb (2 ^ k) v
unfolding bit
bit_top zero v h = ground arith
bit_top (suc k) v h = ground (arith, bit_top k (v / 2), pow-suc 2 k, pow-suc 2 (suc k))

-- `a < b` and `a ≤ b` as signed numbers of a width: each moved up by half the range.
abbrev pub biased : ℕ → Bool → ℕ
biased a is_32bit = if is_32bit then (a + 2 ^ 31) % u32_mod else (a + 2 ^ 63) % u64_mod

-- The outcomes of the condition codes after `lhs` is compared with `rhs`.
unfoldable pub outcome : ℕ → ℕ → ℕ → ℕ → ℕ → Bool
outcome lhs rhs x y cond =
    if cond == 0
    then lhs == rhs
    else if cond == 2
    then leb rhs lhs
    else if cond == 8
    then ltb rhs lhs
    else if cond == 10
    then leb y x
    else if cond == 12
    then ltb y x
    else if cond == 1
    then not (lhs == rhs)
    else if cond == 3
    then ltb lhs rhs
    else if cond == 9
    then leb lhs rhs
    else if cond == 11
    then ltb x y
    else leb x y

abbrev pub is_comparison : ℕ → Bool
is_comparison cond = ltb cond 4 || (leb 8 cond && ltb cond 14)

abbrev pub range : Bool → ℕ
range is_32bit = if is_32bit then u32_mod else u64_mod

abbrev pub compared : Cpu → ℕ → ℕ → Bool → Cpu
compared m lhs rhs is_32bit = set_flags_sub m lhs rhs (masked (sub64 lhs rhs) is_32bit) is_32bit

compared_z :
    (m : Cpu) (a b : ℕ) (w : Bool)
    → a < range w
    → b < range w
    → (compared m a b w).pstate.z ≡ (a == b)
unfolding set_flags_sub
compared_z m a b true p q = ground arith
compared_z m a b false p q = ground arith

compared_c :
    (m : Cpu) (a b : ℕ) (w : Bool)
    → a < range w
    → b < range w
    → (compared m a b w).pstate.c ≡ leb b a
unfolding set_flags_sub
compared_c m a b true p q = ground arith
compared_c m a b false p q = ground arith

compared_signed :
    (m : Cpu) (a b : ℕ) (w : Bool)
    → a < range w
    → b < range w
    → same (compared m a b w).pstate.n (compared m a b w).pstate.v ≡ leb (biased b w) (biased a w)
unfolding set_flags_sub
compared_signed m a b true p q =
    rw
      (
        bit_top 31 (low32 a) (omega arith),
        bit_top 31 (low32 b) (omega arith),
        bit_top 31 (low32 (low32 (sub64 a b))) (omega arith),
      )
      (ground arith)
compared_signed m a b false p q =
    rw (bit_top 63 a p, bit_top 63 b q, bit_top 63 (sub64 a b) (omega arith)) (ground arith)

low_codes : all_below 14 (λ i. bit_and i 0xF == i) ≡ true
unfolding all_below
low_codes = refl

low_code : (cond : ℕ) → cond < 14 → bit_and cond 0xF ≡ cond
low_code cond h = (==_iff _ _).0 (all_below_sound 14 (λ i. bit_and i 0xF == i) cond low_codes h)

-- The three facts decide every comparison.
decided :
    (m : Cpu) (a b x y cond : ℕ)
    → is_comparison cond ≡ true
    → m.pstate.z ≡ (a == b)
    → m.pstate.c ≡ leb b a
    → same m.pstate.n m.pstate.v ≡ leb y x
    → ((x == y) ≡ (a == b))
    → condition_holds m cond ≡ outcome a b x y cond
unfolding condition_holds outcome
decided m a b x y cond h z c s e = rw (low_code cond (ground arith), z, c, s) (ground arith)

biased_same :
    (a b : ℕ) (w : Bool) → a < range w → b < range w → (biased a w == biased b w) ≡ (a == b)
biased_same a b true p q = ground arith
biased_same a b false p q = ground arith

-- After two numbers of a width are compared, the condition codes tell their order: EQ, NE, HS, LO, HI
-- and LS the unsigned one, GE, LT, GT and LE the signed one.
pub set_flags_sub-condition_holds :
    (m : Cpu) (lhs rhs : ℕ) (is_32bit : Bool) (cond : ℕ)
    → lhs < range is_32bit
    → rhs < range is_32bit
    → is_comparison cond ≡ true
    → condition_holds (set_flags_sub m lhs rhs (masked (sub64 lhs rhs) is_32bit) is_32bit) cond
      ≡ outcome lhs rhs (biased lhs is_32bit) (biased rhs is_32bit) cond
set_flags_sub-condition_holds m lhs rhs w cond p q h =
    decided (compared m lhs rhs w) lhs rhs (biased lhs w) (biased rhs w) cond h
      (compared_z m lhs rhs w p q) (compared_c m lhs rhs w p q) (compared_signed m lhs rhs w p q)
      (biased_same lhs rhs w p q)

-- After an addition the carry says that the sum does not fit the width, and the overflow that the
-- signed sum does not: of the biased numbers, the sum is below half the range or from one and a half.
pub set_flags_add_overflow :
    (m : Cpu) (lhs rhs : ℕ) (is_32bit : Bool)
    → lhs < range is_32bit
    → rhs < range is_32bit
    → let p = (set_flags_add m lhs rhs ((lhs + rhs) % range is_32bit) is_32bit).pstate in
      let sum = biased lhs is_32bit + biased rhs is_32bit in
      let half = range is_32bit / 2 in
      (p.c ≡ leb (range is_32bit) (lhs + rhs))
      × (p.v ≡ (ltb sum half || leb (range is_32bit + half) sum))
unfolding set_flags_add
set_flags_add_overflow m a b true p q =
    rw
      (
        bit_top 31 (low32 a) (omega arith),
        bit_top 31 (low32 b) (omega arith),
        bit_top 31 (low32 ((a + b) % u32_mod)) (omega arith),
      )
      (ground arith, ground arith)
set_flags_add_overflow m a b false p q =
    rw (bit_top 63 a p, bit_top 63 b q, bit_top 63 ((a + b) % u64_mod) (omega arith))
      (ground arith, ground arith)
