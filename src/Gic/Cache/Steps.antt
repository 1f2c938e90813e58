-- ===== src/Gic/Cache/Steps.antt =====
-- src/gicv3.cpp: each change of a `GicV3` as a step that moves `state_epoch_` on, or leaves what
-- `highest_pending` reads as it is.
use aarchvm.Base.{
  ℕ, ◌+◌, ◌≤◌, ◌<◌, ◌≡◌, refl, ap, ◌∙◌, Bool, true, false, if◌then◌else◌, arith, inl, inr, ◌⊎◌,
  u64_mod,
}
use aarchvm.Gic.{
  Gic, next_epoch, set_local_pending_bit, set_local_enabled_bit, set_local_active_bit,
  set_spi_pending_bit, set_spi_enabled_bit, set_spi_active_bit,
}
use aarchvm.Gic.Query.{highest_pending}

-- From `g` to `h` the epoch moves by at most `k`; where it stands still every query has the answer
-- that it had, and no cache is filled.
pub record Step (k : ℕ) (g h : Gic) : Type 0 where
  pub grows : g.state_epoch ≤ h.state_epoch
  pub bounded : h.state_epoch ≤ g.state_epoch + k
  pub kept : (slot : ℕ) → (h.cache slot).valid ≡ true → h.cache slot ≡ g.cache slot
  pub unseen :
      (slot pmr : ℕ)
      → h.state_epoch ≡ g.state_epoch
      → highest_pending h slot pmr ≡ highest_pending g slot pmr

pub stay : (k : ℕ) (g : Gic) → Step k g g
stay k g = record {
  grows = omega arith;
  bounded = omega arith;
  kept = λ slot v. refl;
  unseen = λ slot pmr e. refl;
}

pub compose : {j k : ℕ} {f g h : Gic} → Step j f g → Step k g h → Step (j + k) f h
compose {j} {k} {f} {g} {h} a b = record {
  grows = omega (arith, a.grows, b.grows);
  bounded = omega (arith, a.bounded, b.bounded);
  kept = λ slot v. b.kept slot v ∙ a.kept slot (rw (← b.kept slot v) v);
  unseen = λ slot pmr e.
      b.unseen slot pmr (omega (arith, a.grows, b.grows))
      ∙ a.unseen slot pmr (omega (arith, a.grows, b.grows));
}

pub widen : {j k : ℕ} {g h : Gic} → j ≤ k → Step j g h → Step k g h
widen le s = record {
  grows = s.grows;
  bounded = omega (arith, s.bounded);
  kept = s.kept;
  unseen = s.unseen;
}

pub branch :
    {k : ℕ} {g : Gic} (b : Bool) (x y : Gic)
    → Step k g x
    → Step k g y
    → Step k g (if b then x else y)
branch true x y p q = p
branch false x y p q = q

-- What a setter does: nothing, or a change that counts the epoch on.
abbrev pub Moves : Gic → Gic → Type 0
Moves g h = (h ≡ g) ⊎ ((h.cache ≡ g.cache) × (h.state_epoch ≡ next_epoch g.state_epoch))

pub Moves-Step : (g h : Gic) → g.state_epoch + 1 < u64_mod → Moves g h → Step 1 g h
Moves-Step g h room (inl e) = rw e (stay 1 g)
Moves-Step g h room (inr (c, e)) = record {
  grows = omega arith;
  bounded = omega arith;
  kept = λ slot v. ap (λ f. f slot) c;
  unseen = λ slot pmr e'. absurd (omega arith);
}

module _ (g : Gic) (room : g.state_epoch + 1 < u64_mod) where
  pub set_local_pending_bit-Step :
      (cpu intid : ℕ) (value : Bool) → Step 1 g (set_local_pending_bit g cpu intid value)
  unfolding set_local_pending_bit
  set_local_pending_bit-Step cpu intid value = Moves-Step g _ room (ground arith)

  pub set_local_enabled_bit-Step :
      (cpu intid : ℕ) (value : Bool) → Step 1 g (set_local_enabled_bit g cpu intid value)
  unfolding set_local_enabled_bit
  set_local_enabled_bit-Step cpu intid value = Moves-Step g _ room (ground arith)

  pub set_local_active_bit-Step :
      (cpu intid : ℕ) (value : Bool) → Step 1 g (set_local_active_bit g cpu intid value)
  unfolding set_local_active_bit
  set_local_active_bit-Step cpu intid value = Moves-Step g _ room (ground arith)

  pub set_spi_pending_bit-Step :
      (intid : ℕ) (value : Bool) → Step 1 g (set_spi_pending_bit g intid value)
  unfolding set_spi_pending_bit
  set_spi_pending_bit-Step intid value = Moves-Step g _ room (ground arith)

  pub set_spi_enabled_bit-Step :
      (intid : ℕ) (value : Bool) → Step 1 g (set_spi_enabled_bit g intid value)
  unfolding set_spi_enabled_bit
  set_spi_enabled_bit-Step intid value = Moves-Step g _ room (ground arith)

  pub set_spi_active_bit-Step :
      (intid : ℕ) (value : Bool) → Step 1 g (set_spi_active_bit g intid value)
  unfolding set_spi_active_bit
  set_spi_active_bit-Step intid value = Moves-Step g _ room (ground arith)

-- One step after another, where the epoch has room for both.
pub seq :
    (j k : ℕ) (g h h' : Gic)
    → g.state_epoch + (j + k) < u64_mod
    → Step j g h
    → (h.state_epoch + k < u64_mod → Step k h h')
    → Step (j + k) g h'
seq j k g h h' room first second = compose first (second (omega (arith, first.bounded)))
