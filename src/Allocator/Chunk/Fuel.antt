-- ===== src/Allocator/Chunk/Fuel.antt =====
-- The fuel of the loop that gives protected memory back and asks the system again.
use duma.Prelude.{
  ℕ, zero, suc, ◌<◌, ◌≡◌, ◌≢◌, refl, arith, Bool, true, false, inl, inr, Bool-cases, ◌==◌, ◌&&◌,
}
use duma.Machine.Env.{Env}
use duma.Machine.State.{State}
use duma.Machine.Monad.{M, out_of_fuel, pure}
use duma.Machine.Paging.{page_create}
use duma.Allocator.Reduce.Steps.{
  Ends, returned, Ends-bind, Ends-fuel, ends, all_steps, all_steps-length,
  reduce_protected_memory-Ends,
}
use duma.Allocator.Chunk.{retry, retry_fuel}

module _ {W : Type 0} (env : Env W) (size kb : ℕ) where
  page_create-Ends :
      (s : State W) → Ends (λ _ t. t.slots ≡ s.slots) (page_create env size false false s)
  unfolding page_create
  page_create-Ends s =
      ends _ (λ e. ground (arith, e)) (λ e. ground (arith, e)) (λ e. ground (arith, e))
        (λ u t e. ground (arith, e))

  Anything : ℕ → State W → Type 0
  Anything a t = Unit {0}

  -- The end of a round, with what the next round does.
  round_end :
      (f : ℕ) (more : Bool) (a : ℕ) (u : State W)
      → (more ≡ true → Ends Anything (retry env f size kb u))
      → Ends Anything (
          (elim (more && a == 0) as (λ x. M W ℕ) [ true ↦ retry env f size kb | false ↦ pure a ]) u)
  unfolding Anything
  round_end f false a u next = returned tt
  round_end f true a u next = elim (Bool-cases (a == 0)) [
    | inl e ↦ rw e (next refl)
    | inr e ↦ rw e (returned tt)
  ]

  retry-Ends : (f : ℕ) (s : State W) → all_steps s.slots < f → Ends Anything (retry env f size kb s)
  unfolding retry
  retry-Ends zero s lt = absurd (omega arith)
  retry-Ends (suc f) s lt = Ends-bind (reduce_protected_memory-Ends env kb s) λ more t le.
      Ends-bind (page_create-Ends t)
        λ a u same. round_end f more a u (λ e. retry-Ends f u (ground (arith, le, same, e, lt)))

  -- The loop that gives protected memory back and asks the system again does not run out of the rounds
  -- that it is given: two for each slot and one more.
  pub retry-ends_in_time : (s : State W) → retry env (retry_fuel env s) size kb s ≢ out_of_fuel
  retry-ends_in_time s =
      Ends-fuel (retry-Ends (retry_fuel env s) s (omega (arith, all_steps-length s.slots)))
