-- ===== src/Gic/Cache/Calls.antt =====
-- src/gicv3.cpp: any sequence of calls on a `GicV3`, and the cached answers of `has_pending`.
use aarchvm.Base.{
  ℕ, ◌+◌, ◌≤◌, ◌<◌, ◌≡◌, refl, sym, ap, ◌∙◌, Bool, true, ◌==◌, ◌&&◌, if◌then◌else◌, arith,
  Bool-cases, inl, inr, u64_mod, List, [], ◌∷◌, update, ==_iff,
}
use aarchvm.Gic.{Gic, PendingQueryCache, blank, fresh, set_cpu_count, set_cpu_affinity, cpu_slot}
use aarchvm.Gic.Query.{highest_pending, best_pending, has_pending, acknowledge}
use aarchvm.Gic.Lines.{set_pending, set_level, send_sgi, eoi}
use aarchvm.Gic.Mmio.{write}
use aarchvm.Gic.Cache.Steps.{Step}
use aarchvm.Gic.Cache.Quiet.{quiet_perf}
use aarchvm.Gic.Cache.Writes.{
  acknowledge-Step, eoi-Step, set_pending-Step, set_level-Step, send_sgi-Step,
  set_cpu_affinity-Step,
}
use aarchvm.Gic.Cache.Registers.{write-Step}

-- The calls that change a controller. A register read changes nothing.
pub data Call : Type 0 where
  init_cpus : ℕ → Call
  affinity : ℕ → ℕ → Call
  store : ℕ → ℕ → ℕ → Call
  raise : ℕ → ℕ → Call
  level : ℕ → ℕ → Bool → Call
  sgi : ℕ → ℕ → Call
  query : ℕ → ℕ → Call
  ack : ℕ → ℕ → Call
  finish : ℕ → ℕ → Call

unfoldable pub apply : Gic → Call → Gic
apply g (init_cpus n) = set_cpu_count g n
apply g (affinity cpu mpidr) = set_cpu_affinity g cpu mpidr
apply g (store offset value size) = write g offset value size
apply g (raise cpu intid) = set_pending g cpu intid
apply g (level cpu intid on) = set_level g cpu intid on
apply g (sgi source value) = send_sgi g source value
apply g (query cpu pmr) = (has_pending g cpu pmr).1
apply g (ack cpu pmr) = (acknowledge g cpu pmr).2
apply g (finish cpu intid) = eoi g cpu intid

unfoldable pub run : Gic → List Call → Gic
run g [] = g
run g (c ∷ cs) = run (apply g c) cs

-- Room on the epoch for the longest call, at each of the calls: `state_epoch_` does not wrap.
abbrev pub HasRoom : Gic → List Call → Type 0
HasRoom g [] = Unit {0}
HasRoom g (c ∷ cs) = (g.state_epoch + (g.cpu_count + 64) < u64_mod) × HasRoom (apply g c) cs

-- A valid cache entry of the present epoch holds the answer that the search would give.
pub record CacheOk (g : Gic) : Type 0 where
  pub past : (slot : ℕ) → (g.cache slot).valid ≡ true → (g.cache slot).epoch ≤ g.state_epoch
  pub right :
      (slot : ℕ)
      → (g.cache slot).valid ≡ true
      → (g.cache slot).epoch ≡ g.state_epoch
      → (g.cache slot).value ≡ (highest_pending g slot (g.cache slot).pmr).0

Step-CacheOk : {k : ℕ} {g h : Gic} → Step k g h → CacheOk g → CacheOk h
Step-CacheOk {k} {g} {h} s ok = record {
  past = λ slot v.
      let e = s.kept slot v in
      let p = ok.past slot (rw (← e) v) in rw e (omega (arith, p, s.grows));
  right = λ slot v now.
      let e = s.kept slot v in
      let v' : (g.cache slot).valid ≡ true = rw (← e) v in
      let now' : (g.cache slot).epoch ≡ h.state_epoch = rw (← e) now in
      let p = ok.past slot v' in
      rw e (
        ok.right slot v' (omega (arith, p, s.grows))
        ∙ sym (ap (λ a. a.0) (s.unseen slot _ (omega (arith, p, s.grows)))));
}

highest_pending-slot :
    (g : Gic) (cpu pmr : ℕ) → highest_pending g (cpu_slot g cpu) pmr ≡ highest_pending g cpu pmr
unfolding highest_pending
highest_pending-slot g cpu pmr =
    ap (λ s. let b = best_pending g s pmr in (b.found, if b.found then b.intid else 1023))
      (omega arith)

-- While the cache is right, `has_pending` answers what the search of `highest_pending` finds.
pub has_pending-eq-highest_pending :
    (g : Gic) (cpu pmr : ℕ) → CacheOk g → (has_pending g cpu pmr).0 ≡ (highest_pending g cpu pmr).0
unfolding has_pending
has_pending-eq-highest_pending g cpu pmr ok =
    let slot = cpu_slot g cpu in ground (arith, highest_pending-slot g cpu pmr, ok.right slot)

abbrev fill : Gic → ℕ → Bool → ℕ → Gic
fill g slot value pmr =
    let filled : PendingQueryCache = record {
      valid = true;
      value = value;
      pmr = pmr;
      epoch = g.state_epoch;
    } in
    record g { cache = update g.cache slot filled }

fill-seen :
    (g : Gic) (slot : ℕ) (value : Bool) (pmr at p : ℕ)
    → highest_pending (fill g slot value pmr) at p ≡ highest_pending g at p
unfolding highest_pending best_pending
fill-seen g slot value pmr at p = refl

fill-CacheOk :
    (g : Gic) (slot : ℕ) (value : Bool) (pmr : ℕ)
    → value ≡ (highest_pending g slot pmr).0
    → CacheOk g
    → CacheOk (fill g slot value pmr)
fill-CacheOk g slot value pmr e ok = record {
  past = λ at v. ground (arith, ok.past at);
  right = λ at v now. elim (Bool-cases (slot == at)) [
    | inl here ↦
        let same_slot : slot ≡ at = (==_iff slot at).0 here in
        let found = fill-seen g slot value pmr at pmr in
        ground (arith, ap (λ s. (highest_pending g s pmr).0) same_slot)
    | inr elsewhere ↦
        let found = fill-seen g slot value pmr at (g.cache at).pmr in ground (arith, ok.right at)
  ];
}

has_pending-CacheOk : (g : Gic) (cpu pmr : ℕ) → CacheOk g → CacheOk (has_pending g cpu pmr).1
unfolding has_pending
has_pending-CacheOk g cpu pmr ok =
    let c = g.cache (cpu_slot g cpu) in
    let counted = record g {
      perf = record (g.perf) { has_pending_calls = g.perf.has_pending_calls + 1 };
    } in
    let quiet : Step 0 g counted = quiet_perf g _ in
    elim (Bool-cases (c.valid && (c.epoch == g.state_epoch && c.pmr == pmr))) [
      | inl hit ↦ rw hit (Step-CacheOk quiet ok)
      | inr miss ↦ rw miss (
          fill-CacheOk counted (cpu_slot g cpu) _ pmr
            (sym (ap (λ a. a.0) (quiet.unseen (cpu_slot g cpu) pmr refl))) (Step-CacheOk quiet ok))
    ]

no_caches : (g : Gic) (n : ℕ) → CacheOk (set_cpu_count g n)
unfolding set_cpu_count
no_caches g n = record { past = λ slot v. cc; right = λ slot v now. cc }

-- Each call keeps the cache right, if the epoch has room.
apply-CacheOk :
    (g : Gic) (c : Call)
    → g.state_epoch + (g.cpu_count + 64) < u64_mod
    → CacheOk g
    → CacheOk (apply g c)
unfolding apply
apply-CacheOk g (init_cpus n) room ok = no_caches g n
apply-CacheOk g (affinity cpu mpidr) room ok = Step-CacheOk (set_cpu_affinity-Step g cpu mpidr) ok
apply-CacheOk g (store offset value size) room ok =
    Step-CacheOk (write-Step g (omega arith) offset value size) ok
apply-CacheOk g (raise cpu intid) room ok =
    Step-CacheOk (set_pending-Step g (omega arith) cpu intid) ok
apply-CacheOk g (level cpu intid on) room ok =
    Step-CacheOk (set_level-Step g (omega arith) cpu intid on) ok
apply-CacheOk g (sgi source value) room ok =
    Step-CacheOk (send_sgi-Step g source value (omega arith)) ok
apply-CacheOk g (query cpu pmr) room ok = has_pending-CacheOk g cpu pmr ok
apply-CacheOk g (ack cpu pmr) room ok = Step-CacheOk (acknowledge-Step g (omega arith) cpu pmr) ok
apply-CacheOk g (finish cpu intid) room ok = Step-CacheOk (eoi-Step g (omega arith) cpu intid) ok

run-CacheOk : (cs : List Call) (g : Gic) → HasRoom g cs → CacheOk g → CacheOk (run g cs)
unfolding run
run-CacheOk [] g room ok = ok
run-CacheOk (c ∷ cs) g room ok = run-CacheOk cs (apply g c) room.1 (apply-CacheOk g c room.0 ok)

fresh-CacheOk : CacheOk fresh
unfolding fresh
fresh-CacheOk = no_caches blank 1

-- After any sequence of calls on a new controller, register writes, level changes, SGIs and earlier
-- queries among them, the cached `has_pending` answers what a full search of `highest_pending`
-- would. The one condition is that the 64-bit epoch has had room at each call and did not wrap.
pub has_pending_cached :
    (cs : List Call) (cpu pmr : ℕ)
    → HasRoom fresh cs
    → (has_pending (run fresh cs) cpu pmr).0 ≡ (highest_pending (run fresh cs) cpu pmr).0
has_pending_cached cs cpu pmr room =
    has_pending-eq-highest_pending (run fresh cs) cpu pmr (run-CacheOk cs fresh room fresh-CacheOk)
