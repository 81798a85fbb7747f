-- ===== src/Operators/Rounds.antt =====
-- The rounds of the loop of `duma_new_operator` of src/dumapp.cpp.
use duma.Prelude.{
  ℕ, zero, suc, ◌<◌, ◌≤◌, ◌≡◌, ◌≢◌, refl, inl, inr, arith, Bool, true, false, Option, none, some,
  Bool-cases,
}
use duma.Prelude.Int.{ℤ}
use duma.Slots.Types.{Allocator}
use duma.Machine.Env.{Env}
use duma.Machine.State.{State}
use duma.Machine.Monad.{
  M, Result, ok, abort, blocked, fault, out_of_fuel, and_then, Ensures, returns, runs_out, ensures,
  Ensures-bind,
}
use duma.Allocator.Request.{Request}
use duma.Allocator.Grow.{allocate}
use duma.Allocator.Api.{start_up}
use duma.Allocator.Live.Calls.{start_up-started}
use duma.Allocator.Live.Answers.{Answered}
use duma.Allocator.Live.Growth.{allocate-Answered}
use duma.Allocator.Finish.{InTime, InTime-ok}
use duma.Allocator.Finish.Whole.{allocate-ends_in_time}
use duma.Operators.{
  Exception, bad_alloc, another, Answer, returned, thrown, Runtime, give_up, caught, new_request,
  new_loop, after_handler, after_try, new_operator,
}

bind-InTime :
    {S A B : Type 0} (r : Result S A) (k : A → S → Result S B)
    → InTime r
    → ((a : A) (t : S) → r ≡ ok a t → InTime (k a t))
    → InTime (and_then r k)
bind-InTime (ok a t) k h next = next a t refl
bind-InTime (abort e) k h next = λ g. cc
bind-InTime blocked k h next = λ g. cc
bind-InTime fault k h next = λ g. cc
bind-InTime out_of_fuel k h next = λ g. h refl

module _ {W : Type 0} (env : Env W) (runtime : Runtime W) (init : M W (Unit {0})) (filename : ℕ)
    (lineno : ℤ) (allocator : Allocator) (size : ℕ) where
  abbrev asked : State W → Request
  asked = new_request env runtime init filename lineno allocator size

  -- The ways in which the loop may end: with a buffer of the last call of `_duma_allocate`, with NULL
  -- for `std::nothrow`, with `bad_alloc` for the other form, or with what else a handler throws.
  pub data Fair : Bool → Answer → State W → Type 0 where
    claimed :
        {b : Bool} {a : ℕ} {s t : State W}
        → a ≢ 0
        → Answered (asked s) a s t
        → Fair b (returned a) t
    null : {t : State W} → Fair false (returned 0) t
    refused : {t : State W} → Fair true (thrown bad_alloc) t
    passed : {b : Bool} {t : State W} → Fair b (thrown another) t

  give_up-Fair : (b : Bool) (t : State W) → Fair b (give_up b) t
  unfolding give_up
  give_up-Fair true t = refused
  give_up-Fair false t = null

  caught-Fair : (b : Bool) (e : Exception) (t : State W) → Fair b (caught b e) t
  unfolding caught
  caught-Fair b bad_alloc t = give_up-Fair b t
  caught-Fair b another t = passed

  abbrev IsFair : Bool → Result (State W) Answer → Type 0
  IsFair dothrow r = Ensures (Fair dothrow) r

  after_handler-Fair :
      (again : M W Answer) (dothrow : Bool) (e : Option Exception) (t : State W)
      → IsFair dothrow (again t)
      → IsFair dothrow (after_handler env runtime init filename lineno again dothrow e t)
  unfolding after_handler
  after_handler-Fair again dothrow none t h = h
  after_handler-Fair again dothrow (some e) t h =
      returns {a = caught dothrow e} (caught-Fair dothrow e t)

  after_try-Fair :
      (again : M W Answer) (dothrow : Bool) (a : ℕ) (s t : State W)
      → Answered (asked s) a s t
      → ((u : State W) → IsFair dothrow (again u))
      → IsFair dothrow (after_try env runtime init filename lineno again dothrow a t)
  unfolding after_try
  after_try-Fair again dothrow zero s t q h = elim (Bool-cases (runtime.has_handler t)) [
    | inl g ↦
        rw (after_try, g)
          (Ensures-bind {r = runtime.call_handler t}
            {k = after_handler env runtime init filename lineno again dothrow}
            (ensures {P = λ _ _. Unit {0}} _ (λ _ _ _. tt))
            λ e u _. after_handler-Fair again dothrow e u (h u))
    | inr g ↦ rw (after_try, g) (returns {a = give_up dothrow} (give_up-Fair dothrow t))
  ]
  after_try-Fair again dothrow (suc a) s t q h =
      returns {a = returned (suc a)} (claimed (ground arith) q)

  new_loop-Fair :
      (f : ℕ) (dothrow : Bool) (s : State W)
      → Ensures
          (Fair dothrow)
          (new_loop env runtime init filename lineno f allocator size dothrow s)
  unfolding new_loop
  new_loop-Fair zero dothrow s = runs_out
  new_loop-Fair (suc f) dothrow s =
      Ensures-bind
        {k = after_try env runtime init filename lineno
          (new_loop env runtime init filename lineno f allocator size dothrow) dothrow}
        (allocate-Answered env (asked s) s)
        λ a t q. after_try-Fair _ dothrow a s t q (new_loop-Fair f dothrow)

  after_handler-InTime :
      (again : M W Answer) (dothrow : Bool) (e : Option Exception) (t : State W)
      → (e ≡ none → InTime (again t))
      → InTime (after_handler env runtime init filename lineno again dothrow e t)
  unfolding after_handler
  after_handler-InTime again dothrow none t h = h refl
  after_handler-InTime again dothrow (some e) t h = InTime-ok (caught dothrow e) t

  after_try-InTime :
      (again : M W Answer) (dothrow : Bool) (a : ℕ) (t : State W)
      → ((s : State W) → InTime (runtime.call_handler s))
      → ((u : State W) → runtime.call_handler t ≡ ok none u → InTime (again u))
      → InTime (after_try env runtime init filename lineno again dothrow a t)
  unfolding after_try
  after_try-InTime again dothrow zero t ends h = elim (Bool-cases (runtime.has_handler t)) [
    | inl g ↦
        rw (after_try, g)
          (bind-InTime (runtime.call_handler t)
            (after_handler env runtime init filename lineno again dothrow) (ends t)
            λ e u j. after_handler-InTime again dothrow e u (λ n. h u (rw j (rw n refl))))
    | inr g ↦ rw (after_try, g) (InTime-ok (give_up dothrow) t)
  ]
  after_try-InTime again dothrow (suc a) t ends h = InTime-ok (returned (suc a)) t

  new_loop-ends_in_time :
      (tries : State W → ℕ)
      → ((s : State W) → runtime.call_handler s ≢ out_of_fuel)
      → ((s u : State W) → runtime.call_handler s ≡ ok none u → tries u < tries s)
      → ((r : Request) (s t : State W) (a : ℕ) → allocate env r s ≡ ok a t → tries t ≤ tries s)
      → (f : ℕ) (dothrow : Bool) (s : State W) → tries s < f
      → new_loop env runtime init filename lineno f allocator size dothrow s ≢ out_of_fuel
  unfolding new_loop
  new_loop-ends_in_time tries ends falls stays zero dothrow s h = ground arith
  new_loop-ends_in_time tries ends falls stays (suc f) dothrow s h =
      bind-InTime (allocate env (asked s) s)
        (after_try env runtime init filename lineno
          (new_loop env runtime init filename lineno f allocator size dothrow) dothrow)
        (allocate-ends_in_time env (asked s) s)
        λ a t e. after_try-InTime _ dothrow a t ends λ u g.
          new_loop-ends_in_time tries ends falls stays f dothrow u
            (let p = stays (asked s) s t a e in let q = falls t u g in omega arith)

  -- Whatever the handler and `_duma_init` do, `duma_new_operator` returns a buffer that its last call
  -- of `_duma_allocate` answered, returns NULL only where it must not throw, throws `bad_alloc` only
  -- where it may, or passes on another exception of the handler.
  pub new_operator-Fair :
      (f : ℕ) (dothrow : Bool) (s : State W)
      → Ensures
          (Fair dothrow)
          (new_operator env runtime init filename lineno f allocator size dothrow s)
  unfolding new_operator
  new_operator-Fair f dothrow s =
      Ensures-bind {r = start_up env init filename lineno s}
        {k = λ _. new_loop env runtime init filename lineno f allocator size dothrow}
        (ensures {P = λ _ _. Unit {0}} _ (λ _ _ _. tt)) λ _ t _. new_loop-Fair f dothrow t

  -- With the table there: where each call of the handler comes to an end, each return of it lowers a
  -- number that `_duma_allocate` does not raise, and more rounds are allowed than this number, the
  -- loop of `duma_new_operator` ends.
  pub new_operator-ends_in_time :
      (tries : State W → ℕ)
      → ((s : State W) → runtime.call_handler s ≢ out_of_fuel)
      → ((s u : State W) → runtime.call_handler s ≡ ok none u → tries u < tries s)
      → ((r : Request) (s t : State W) (a : ℕ) → allocate env r s ≡ ok a t → tries t ≤ tries s)
      → (f : ℕ) (dothrow : Bool) (s : State W) → 0 < s.alloc_list
      → tries s < f
      → new_operator env runtime init filename lineno f allocator size dothrow s ≢ out_of_fuel
  unfolding new_operator
  new_operator-ends_in_time tries ends falls stays f dothrow s there h =
      rw (start_up-started env init filename lineno s there)
        (new_loop-ends_in_time tries ends falls stays f dothrow s h)
