-- ===== src/Gic/Held.antt =====
-- src/gicv3.cpp: an interrupt whose line is high is not lost between its line, acknowledge and end.
use aarchvm.Base.{
  ℕ, ◌<◌, ◌≡◌, Bool, true, ◌||◌, if◌then◌else◌, arith, Bool-cases, inl, inr, List, [], ◌∷◌, ltb,
  ltb→lt,
}
use aarchvm.Gic.{Gic, num_int_ids, fresh, set_cpu_count}
use aarchvm.Gic.Query.{acknowledge}
use aarchvm.Gic.Lines.{set_level, eoi}
use aarchvm.Gic.Lifecycle.{
  View, view, Event, rise, fall, accept, complete, react, is_same, React, set_level-React,
  eoi-React, acknowledge-React,
}

-- While its line is high an interrupt is pending or active.
abbrev pub IsHeld : View → Type 0
IsHeld v = v.is_high ≡ true → (v.is_pending || v.is_active) ≡ true

react-IsHeld : (v : View) (e : Event) → IsHeld v → IsHeld (react v e)
unfolding react
react-IsHeld v rise h = ground arith
react-IsHeld v fall h = ground arith
react-IsHeld v accept h = ground arith
react-IsHeld v complete h = ground arith

abbrev pub AllHeld : Gic → Type 0
AllHeld g = (on at : ℕ) → at < num_int_ids → IsHeld (view g on at)

React-AllHeld :
    (g h : Gic) (cpu intid : ℕ) (e : Event) → React g h cpu intid e → AllHeld g → AllHeld h
React-AllHeld g h cpu intid e moved held on at below =
    elim (Bool-cases (is_same g cpu intid on at)) [
      | inl here ↦ rw (moved on at below, here) (react-IsHeld (view g on at) e (held on at below))
      | inr elsewhere ↦ rw (moved on at below, elsewhere) (held on at below)
    ]

-- What devices and CPUs do with an interrupt, apart from register writes and SGIs. A CPU ends only
-- an interrupt that exists.
pub data LineCall : Type 0 where
  drive : ℕ → ℕ → Bool → LineCall
  ack : ℕ → ℕ → LineCall
  finish : ℕ → ℕ → LineCall

unfoldable pub line_call : Gic → LineCall → Gic
line_call g (drive cpu intid on) = if ltb intid num_int_ids then set_level g cpu intid on else g
line_call g (ack cpu pmr) = (acknowledge g cpu pmr).2
line_call g (finish cpu intid) = if ltb intid num_int_ids then eoi g cpu intid else g

unfoldable pub line_calls : Gic → List LineCall → Gic
line_calls g [] = g
line_calls g (c ∷ cs) = line_calls (line_call g c) cs

line_call-AllHeld : (g : Gic) (c : LineCall) → AllHeld g → AllHeld (line_call g c)
unfolding line_call
line_call-AllHeld g (drive cpu intid on) held = elim (Bool-cases (ltb intid num_int_ids)) [
  | inl e ↦
      rw e (React-AllHeld g _ cpu intid _ (set_level-React g cpu intid on (ltb→lt _ _ e)) held)
  | inr e ↦ rw e held
]
line_call-AllHeld g (ack cpu pmr) held = elim (acknowledge-React g cpu pmr) [
  | inl (found, least, moved) ↦ React-AllHeld g _ cpu _ accept moved held
  | inr (none_found, number, none_left, kept) ↦ λ on at below. rw (kept on at) (held on at below)
]
line_call-AllHeld g (finish cpu intid) held = elim (Bool-cases (ltb intid num_int_ids)) [
  | inl e ↦ rw e (React-AllHeld g _ cpu intid complete (eoi-React g cpu intid (ltb→lt _ _ e)) held)
  | inr e ↦ rw e held
]

-- Any sequence of level changes, acknowledges and ends that starts where every interrupt with a high
-- line is pending or active ends in such a state: a level is never lost.
pub line_calls-AllHeld : (cs : List LineCall) (g : Gic) → AllHeld g → AllHeld (line_calls g cs)
unfolding line_calls
line_calls-AllHeld [] g held = held
line_calls-AllHeld (c ∷ cs) g held =
    line_calls-AllHeld cs (line_call g c) (line_call-AllHeld g c held)

pub fresh-AllHeld : AllHeld fresh
unfolding fresh set_cpu_count view
fresh-AllHeld on at below = ground arith
