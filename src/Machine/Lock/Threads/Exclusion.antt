-- ===== src/Machine/Lock/Threads/Exclusion.antt =====
-- Who is between `lock` and `unlock`.
use mathlib.Core.Path.{subst}
use duma.Prelude.{
  Bool, ℕ, zero, suc, ◌≡◌, ◌≢◌, inl, inr, refl, sym, arith, true, false, Option, some, ◌==◌,
  Bool-cases,
}
use duma.Machine.Lock.Threads.{
  Shared, self_of, Place, rest, compare, waiting, won, named, dropped, cleared, Move, try_won,
  try_lost, again, other, wake, name, count, drop, keep, clear, free, System, at, pick, Reach,
  start, later,
}

-- The thread has the lock, with so many calls open.
abbrev pub Has : ℕ → ℕ → Shared → Type 0
Has i n m = (m.holder ≡ some i) × (m.mutex_id ≡ self_of i) × (m.lock_nr ≡ n)

two_holders : {i j : ℕ} {o : Option ℕ} → i ≢ j → o ≡ some i → o ≡ some j → ⊥
two_holders ne e e' = ne (ground (arith, e, e'))

-- What the variables tell where a thread stands.
abbrev pub Fits : ℕ → Place → Shared → Type 0
Fits i (rest zero) m = m.mutex_id ≢ self_of i
Fits i (rest (suc n)) m = Has i (suc n) m
Fits i (compare zero) m = m.mutex_id ≢ self_of i
Fits i (compare (suc n)) m = Has i (suc n) m
Fits i (waiting zero) m = m.mutex_id ≢ self_of i
Fits i (waiting (suc n)) m = ⊥
Fits i (won zero) m = m.holder ≡ some i
Fits i (won (suc n)) m = ⊥
Fits i (named zero) m = (m.holder ≡ some i) × (m.mutex_id ≡ self_of i)
Fits i (named (suc n)) m = ⊥
Fits i (dropped n) m = Has i n m
Fits i (cleared zero) m = (m.holder ≡ some i) × (m.mutex_id ≡ 0)
Fits i (cleared (suc n)) m = ⊥

-- A step keeps what its own thread relies on.
Move-Fits : {i : ℕ} {m m' : Shared} {p p' : Place} → Move i m p m' p' → Fits i p m → Fits i p' m'
Move-Fits (try_won {n = zero} e) h = refl
Move-Fits (try_won {n = suc n} e) h = ground (arith, e, h)
Move-Fits (try_lost {n = zero} e) h = h
Move-Fits (try_lost {n = suc n} e) h = h
Move-Fits (again {n = zero} e) h = absurd (h e)
Move-Fits (again {n = suc n} e) h = (h.0, h.1, omega (arith, h.2))
Move-Fits (other {n = zero} e) h = h
Move-Fits (other {n = suc n} e) h = absurd (e h.1)
Move-Fits (wake {n = zero} e) h = refl
Move-Fits (wake {n = suc n} e) h = h
Move-Fits (name {n = zero}) h = (h, refl)
Move-Fits (name {n = suc n}) h = h
Move-Fits (count {n = zero}) h = (h.0, h.1, refl)
Move-Fits (count {n = suc n}) h = absurd h
Move-Fits (drop {n = n}) h = (h.0, h.1, omega (arith, h.2))
Move-Fits (keep {n = zero} e) h = absurd (e h.2)
Move-Fits (keep {n = suc n} e) h = h
Move-Fits (clear {n = zero} e) h = (h.0, refl)
Move-Fits (clear {n = suc n} e) h = absurd (omega (arith, e, h.2))
Move-Fits (free {n = zero}) h = λ e. omega (arith, e, h.1)
Move-Fits (free {n = suc n}) h = absurd h

-- A step of another thread leaves the variables alone while this one has the mutex, and does not put
-- this one's number into `mutextid`.
record Spares (j : ℕ) (m m' : Shared) : Type 0 where
  held : m.holder ≡ some j → m' ≡ m
  number : m.mutex_id ≢ self_of j → m'.mutex_id ≢ self_of j

Move-Spares :
    {i j : ℕ} {m m' : Shared} {p p' : Place} → i ≢ j → Move i m p m' p' → Fits i p m → Spares j m m'
Move-Spares ne (try_won e) h = record { held = λ g. ground (arith, e, g); number = λ g. g }
Move-Spares ne (try_lost e) h = record { held = λ g. refl; number = λ g. g }
Move-Spares ne (again {n = zero} e) h = absurd (h e)
Move-Spares ne (again {n = suc n} e) h = record {
  held = λ g. absurd (two_holders ne h.0 g);
  number = λ g. g;
}
Move-Spares ne (other e) h = record { held = λ g. refl; number = λ g. g }
Move-Spares ne (wake e) h = record { held = λ g. ground (arith, e, g); number = λ g. g }
Move-Spares ne (name {n = zero}) h = record {
  held = λ g. absurd (two_holders ne h g);
  number = λ g e. ne (omega (arith, e));
}
Move-Spares ne (name {n = suc n}) h = absurd h
Move-Spares ne (count {n = zero}) h = record {
  held = λ g. absurd (two_holders ne h.0 g);
  number = λ g. g;
}
Move-Spares ne (count {n = suc n}) h = absurd h
Move-Spares ne drop h = record { held = λ g. absurd (two_holders ne h.0 g); number = λ g. g }
Move-Spares ne (keep e) h = record { held = λ g. refl; number = λ g. g }
Move-Spares ne (clear e) h = record {
  held = λ g. absurd (two_holders ne h.0 g);
  number = λ g e'. omega (arith, e');
}
Move-Spares ne (free {n = zero}) h = record {
  held = λ g. absurd (two_holders ne h.0 g);
  number = λ g. g;
}
Move-Spares ne (free {n = suc n}) h = absurd h

Fits-same : (j : ℕ) {m m' : Shared} (q : Place) → m' ≡ m → Fits j q m → Fits j q m'
Fits-same j q e h = subst (Fits j q) (sym e) h

Spares-Fits : {j : ℕ} {m m' : Shared} (q : Place) → Spares j m m' → Fits j q m → Fits j q m'
Spares-Fits (rest zero) s h = s.number h
Spares-Fits {j} (rest (suc n)) s h = Fits-same j (rest (suc n)) (s.held h.0) h
Spares-Fits (compare zero) s h = s.number h
Spares-Fits {j} (compare (suc n)) s h = Fits-same j (compare (suc n)) (s.held h.0) h
Spares-Fits (waiting zero) s h = s.number h
Spares-Fits (waiting (suc n)) s h = absurd h
Spares-Fits {j} (won zero) s h = Fits-same j (won zero) (s.held h) h
Spares-Fits (won (suc n)) s h = absurd h
Spares-Fits {j} (named zero) s h = Fits-same j (named zero) (s.held h.0) h
Spares-Fits (named (suc n)) s h = absurd h
Spares-Fits {j} (dropped n) s h = Fits-same j (dropped n) (s.held h.0) h
Spares-Fits {j} (cleared zero) s h = Fits-same j (cleared zero) (s.held h.0) h
Spares-Fits (cleared (suc n)) s h = absurd h

at_self : (f : ℕ → Place) (i : ℕ) (p : Place) → at f i p i ≡ p
at_self f i p = ground arith

at_other : (f : ℕ → Place) (i j : ℕ) (p : Place) → i ≢ j → at f i p j ≡ f j
at_other f i j p ne = ground arith

abbrev pub AllFit : System → Type 0
AllFit s = (j : ℕ) → Fits j (s.place j) s.shared

Move-AllFit :
    (s : System) {i : ℕ} {m : Shared} {p : Place}
    → Move i s.shared (s.place i) m p
    → AllFit s
    → AllFit (record { shared = m; place = at s.place i p })
Move-AllFit s {i} {m} {p} mv h j = elim (Bool-cases (j == i)) [
  | inl e ↦
      let same : j ≡ i = ground (arith, e) in
      rw same (rw (at_self s.place i p) (Move-Fits mv (h i)))
  | inr e ↦
      let ne : i ≢ j = λ e'. ground (arith, e, e') in
      rw (at_other s.place i j p ne) (Spares-Fits (s.place j) (Move-Spares ne mv (h i)) (h j))
]

pub Reach-AllFit : {s : System} → Reach s → AllFit s
Reach-AllFit start = λ j e. omega (arith, e)
Reach-AllFit (later r (pick i mv)) = Move-AllFit _ mv (Reach-AllFit r)

-- The places from the return of `trylock` or `pthread_mutex_lock` to `pthread_mutex_unlock`.
abbrev pub has_lock : Place → Bool
has_lock (rest zero) = false
has_lock (compare zero) = false
has_lock (waiting n) = false
has_lock _ = true

has_lock-holder :
    (i : ℕ) (p : Place) (m : Shared) → has_lock p ≡ true → Fits i p m → m.holder ≡ some i
has_lock-holder i (rest zero) m e h = cc
has_lock-holder i (rest (suc n)) m e h = h.0
has_lock-holder i (compare zero) m e h = cc
has_lock-holder i (compare (suc n)) m e h = h.0
has_lock-holder i (waiting n) m e h = cc
has_lock-holder i (won zero) m e h = h
has_lock-holder i (won (suc n)) m e h = absurd h
has_lock-holder i (named zero) m e h = h.0
has_lock-holder i (named (suc n)) m e h = absurd h
has_lock-holder i (dropped n) m e h = h.0
has_lock-holder i (cleared zero) m e h = h.0
has_lock-holder i (cleared (suc n)) m e h = absurd h

-- However the steps of any number of threads are interleaved, no two threads have the lock at a time,
-- though `mutextid` is read without it, and between its calls the one that has it finds in `locknr` the
-- number of its calls of `lock` that are still open.
pub exclusion :
    {s : System} (i j : ℕ)
    → Reach s
    → has_lock (s.place i) ≡ true
    → ((has_lock (s.place j) ≡ true) → i ≡ j)
      × ((n : ℕ) → s.place i ≡ rest (suc n) → s.shared.lock_nr ≡ suc n)
exclusion {s} i j r e = (
  λ e'.
      let own = has_lock-holder i (s.place i) s.shared e (Reach-AllFit r i) in
      let own' = has_lock-holder j (s.place j) s.shared e' (Reach-AllFit r j) in
      ground (arith, own, own'),
  λ n g. (subst (λ p. Fits i p s.shared) g (Reach-AllFit r i)).2,
)
