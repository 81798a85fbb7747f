-- ===== src/Machine/Monad.antt =====
-- Results of code that may call `DUMA_Abort`, and programs over the state.
use duma.Prelude.{ℕ, Bool, true, false, if◌then◌else◌}
use mathlib.Core.Path.{◌≡◌, refl, subst}
use duma.Slots.Types.{FileSource}
use duma.Machine.State.{State}

-- The calls of `DUMA_Abort` and `DUMA_ASSERT`, with the addresses that their messages show.
pub data Abort : Type 0 where
  zero_size : Abort
  bad_alignment : ℕ → Abort
  no_empty_slot : ℕ → Abort
  assert_failed : Abort
  mmap_failed : ℕ → Abort
  mprotect_failed : Abort
  free_before_malloc : Abort
  size_before_malloc : Abort
  not_from_duma : ℕ → Abort
  corrupted : ℕ → ℕ → FileSource → Abort
  already_freed : ℕ → FileSource → Abort
  free_mismatch : FileSource → Abort
  overwrite_below : ℕ → Abort
  overwrite_above : ℕ → Abort
  not_from_malloc : ℕ → Abort
  memory_overlap : ℕ → ℕ → Abort
  bad_page_size : Abort
  not_bound : Abort
  sem_not_inited : Abort
  sem_not_locked : Abort

-- `blocked` is a thread that waits for the mutex of another; `fault` is a write through a NULL slot
-- pointer; `out_of_fuel` is a loop that has used up its rounds.
pub data Result (S A : Type 0) : Type 0 where
  ok : A → S → Result S A
  abort : Abort → Result S A
  blocked : Result S A
  fault : Result S A
  out_of_fuel : Result S A

abbrev pub M : Type 0 → Type 0 → Type 0
M W A = State W → Result (State W) A

module _ {S A B : Type 0} where
  abbrev pub and_then : Result S A → (A → S → Result S B) → Result S B
  and_then (ok a s) k = k a s
  and_then (abort e) k = abort e
  and_then blocked k = blocked
  and_then fault k = fault
  and_then out_of_fuel k = out_of_fuel

  infixl 5 ◌>>=◌ ◌>>◌
  abbrev pub ◌>>=◌ : (S → Result S A) → (A → S → Result S B) → S → Result S B
  ◌>>=◌ m k s = and_then (m s) k

  abbrev pub ◌>>◌ : (S → Result S A) → (S → Result S B) → S → Result S B
  ◌>>◌ m k s = and_then (m s) (λ _. k)

module _ {S A B : Type 0} where
  -- A step that returns goes on with the next.
  pub run-ok :
      {r : Result S A} {a : A} {s : S} (k : A → S → Result S B) → r ≡ ok a s → and_then r k ≡ k a s
  run-ok k e = rw e refl

module _ {S : Type 0} where
  abbrev pub pure : {A : Type 0} → A → S → Result S A
  pure a s = ok a s

  abbrev pub get : S → Result S S
  get s = ok s s

  abbrev pub modify : (S → S) → S → Result S (Unit {0})
  modify f s = ok tt (f s)

  abbrev pub stop : {A : Type 0} → Abort → S → Result S A
  stop e s = abort e

  -- `if (test) m;`
  abbrev pub when : Bool → (S → Result S (Unit {0})) → S → Result S (Unit {0})
  when true m = m
  when false m = pure tt

-- A property of the value and the state of a run that returns; an abort has no more to say.
pub data Ensures {S A : Type 0} (P : A → S → Type 0) : Result S A → Type 0 where
  returns : {a : A} {s : S} → P a s → Ensures P (ok a s)
  aborts : {e : Abort} → Ensures P (abort e)
  waits : Ensures P blocked
  faults : Ensures P fault
  runs_out : Ensures P out_of_fuel

module _ {S A : Type 0} {P : A → S → Type 0} where
  pub Ensures-bind :
      {B : Type 0} {Q : B → S → Type 0} {r : Result S A} {k : A → S → Result S B}
      → Ensures P r
      → ((a : A) (s : S) → P a s → Ensures Q (k a s))
      → Ensures Q (and_then r k)
  Ensures-bind (returns p) next = next _ _ p
  Ensures-bind aborts next = aborts
  Ensures-bind waits next = waits
  Ensures-bind faults next = faults
  Ensures-bind runs_out next = runs_out

  pub Ensures-weaken :
      {Q : A → S → Type 0} {r : Result S A}
      → Ensures P r
      → ((a : A) (s : S) → P a s → Q a s)
      → Ensures Q r
  Ensures-weaken (returns p) f = returns (f _ _ p)
  Ensures-weaken aborts f = aborts
  Ensures-weaken waits f = waits
  Ensures-weaken faults f = faults
  Ensures-weaken runs_out f = runs_out

  -- A property of every way in which a run may return.
  pub ensures : (r : Result S A) → ((a : A) (s : S) → r ≡ ok a s → P a s) → Ensures P r
  ensures (ok a s) h = returns (h a s refl)
  ensures (abort e) h = aborts
  ensures blocked h = waits
  ensures fault h = faults
  ensures out_of_fuel h = runs_out

  pub Ensures-ok : {r : Result S A} {a : A} {s : S} → Ensures P r → r ≡ ok a s → P a s
  Ensures-ok {a} {s} h e = ok-case (subst (Ensures P) e h)
    where
      ok-case : Ensures P (ok a s) → P a s
      ok-case (returns p) = p

pub Ensures-if :
    {S A : Type 0} {P : A → S → Type 0} {s : S} (m m' : S → Result S A) (b : Bool)
    → Ensures P (m s)
    → Ensures P (m' s)
    → Ensures P ((if b then m else m') s)
Ensures-if m m' true h h' = h
Ensures-if m m' false h h' = h'

pub Ensures-test :
    {S A : Type 0} {P : A → S → Type 0} {r r' : Result S A} (b : Bool)
    → Ensures P r
    → Ensures P r'
    → Ensures P (if b then r else r')
Ensures-test true h h' = h
Ensures-test false h h' = h'

-- The same, where each branch knows the test.
pub Ensures-cases :
    {S A : Type 0} {P : A → S → Type 0} {r r' : Result S A} (b : Bool)
    → (b ≡ true → Ensures P r)
    → (b ≡ false → Ensures P r')
    → Ensures P (if b then r else r')
Ensures-cases true h h' = h refl
Ensures-cases false h h' = h' refl

-- The same for steps.
pub Ensures-branches :
    {S A : Type 0} {P : A → S → Type 0} {s : S} (m m' : S → Result S A) (b : Bool)
    → (b ≡ true → Ensures P (m s))
    → (b ≡ false → Ensures P (m' s))
    → Ensures P ((if b then m else m') s)
Ensures-branches m m' true h h' = h refl
Ensures-branches m m' false h h' = h' refl

-- Two properties of one run.
pub Ensures-both :
    {S A : Type 0} {P Q : A → S → Type 0} {r : Result S A}
    → Ensures P r
    → Ensures Q r
    → Ensures (λ a s. P a s × Q a s) r
Ensures-both (returns p) q = returns (p, Ensures-ok q refl)
Ensures-both aborts q = aborts
Ensures-both waits q = waits
Ensures-both faults q = faults
Ensures-both runs_out q = runs_out
