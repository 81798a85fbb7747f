-- ===== src/Machine/Lock/Threads/Release.antt =====
-- The way of the thread that has the lock to its release.
use mathlib.Core.Path.{subst}
use duma.Prelude.{ℕ, zero, suc, ◌-◌, ◌≡◌, refl, arith, none}
use duma.Machine.Lock.Threads.{
  Shared, Place, rest, dropped, cleared, Move, drop, keep, clear, free, System, at, Reach,
}
use duma.Machine.Lock.Threads.Exclusion.{Fits, Reach-AllFit}

-- The steps of `unlock`, those of `lock` are the others.
abbrev pub IsUnlock : {i : ℕ} {m m' : Shared} {p p' : Place} → Move i m p m' p' → Type 0
IsUnlock drop = Unit
IsUnlock (keep e) = Unit
IsUnlock (clear e) = Unit
IsUnlock free = Unit
IsUnlock _ = ⊥

-- Steps of one thread alone, in calls of `unlock`.
pub data Alone (i : ℕ) (s : System) : System → Type 0 where
  here : Alone i s s
  next :
      {t : System} {m : Shared} {p q : Place}
      → Alone i s t
      → t.place i ≡ q
      → (move : Move i t.shared q m p) → IsUnlock move
      → Alone i s (record { shared = m; place = at t.place i p })

at_self : (f : ℕ → Place) (i : ℕ) (p : Place) → at f i p i ≡ p
at_self f i p = ground arith

-- What is left once the thread has given the lock back.
abbrev pub Released : ℕ → System → Type 0
Released i s = (t : System) × Alone i s t × (t.place i ≡ rest 0) × (t.shared.holder ≡ none)

release_from :
    (i n : ℕ) {s : System} (t : System)
    → Alone i s t
    → t.place i ≡ rest (suc n)
    → t.shared.lock_nr ≡ suc n
    → Released i s
release_from i zero t a e count =
    let dropped_once : Shared = record t.shared { lock_nr = t.shared.lock_nr - 1 } in
    let t1 : System = record { shared = dropped_once; place = at t.place i (dropped 0) } in
    let t2 : System = record {
      shared = record dropped_once { mutex_id = 0 };
      place = at t1.place i (cleared 0);
    } in
    let t3 : System = record {
      shared = record t2.shared { holder = none };
      place = at t2.place i (rest 0);
    } in
    let a1 : Alone i _ t1 = next a e drop tt in
    let a2 : Alone i _ t2 =
      next a1 (at_self t.place i (dropped 0)) (clear (omega (arith, count))) tt in
    let a3 : Alone i _ t3 = next a2 (at_self t1.place i (cleared 0)) free tt in
    (t3, a3, at_self t2.place i (rest 0), refl)
release_from i (suc n) t a e count =
    let dropped_once : Shared = record t.shared { lock_nr = t.shared.lock_nr - 1 } in
    let t1 : System = record { shared = dropped_once; place = at t.place i (dropped (suc n)) } in
    let t2 : System = record { shared = dropped_once; place = at t1.place i (rest (suc n)) } in
    let a1 : Alone i _ t1 = next a e drop tt in
    let a2 : Alone i _ t2 =
      next a1 (at_self t.place i (dropped (suc n))) (keep (λ z. omega (arith, z, count))) tt in
    release_from i n t2 a2 (at_self t1.place i (rest (suc n))) (omega (arith, count))

-- Whatever the interleaving was, a thread that has the lock, with any number of its calls open, can
-- give it back by calls of `unlock` alone: no step of another thread is needed, and behind them it has
-- no call open and the mutex is free.
pub unlock-Released : {s : System} (i n : ℕ) → Reach s → s.place i ≡ rest (suc n) → Released i s
unlock-Released {s} i n r e =
    release_from i n s here e (subst (λ p. Fits i p s.shared) e (Reach-AllFit r i)).2
