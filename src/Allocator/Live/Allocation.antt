-- ===== src/Allocator/Live/Allocation.antt =====
-- What `_duma_allocate` does to the user's buffers.
use duma.Prelude.{ℕ, ◌≡◌, ◌⊎◌, inl, inr, refl, arith, Bool, true, false, ◌==◌, Bool-cases}
use duma.Machine.Env.{Env}
use duma.Machine.State.{State}
use duma.Machine.Monad.{
  M, Ensures, returns, aborts, Ensures-bind, Ensures-weaken, Ensures-test, when, stop, Abort, pure,
}
use duma.Allocator.Guard.Same.{Same-trans, enter-Same, leave-Same, check_now_and_then-Same}
use duma.Allocator.Request.{Request, Plan, answer, region, plan, zero_plan, strategy}
use duma.Allocator.Allocate.{fill_user, count_alloc, serve, allocate_with}
use duma.Allocator.Live.{Kept, Kept-refl, Kept-trans, Same-Kept}
use duma.Allocator.Live.Steps.{Calm}
use duma.Allocator.Live.Answers.{Answered, null, no_bytes, Kept-Answered, Answered-Kept}
use duma.Allocator.Live.Regions.{find_region-Chosen, use_region-Answered}

module _ {W : Type 0} (env : Env W) where
  pub when-Calm : (b : Bool) (m : M W (Unit {0})) (s : State W) → Calm s (m s) → Calm s (when b m s)
  when-Calm true m s h = h
  when-Calm false m s h = returns (Kept-refl s)

  -- What is decided before the search.
  abbrev IsPlan : Request → State W → Plan → Type 0
  IsPlan r s (answer a) = (a ≡ 0) ⊎ ((a ≡ s.null_addr) × (r.user_size ≡ 0))
  IsPlan r s (region alignment needed) = Unit

  zero_plan-IsPlan :
      (r : Request) (n alignment : ℕ) (s : State W)
      → r.user_size ≡ 0
      → Ensures (λ p t. (t ≡ s) × IsPlan r s p) (zero_plan env n alignment s)
  unfolding zero_plan
  zero_plan-IsPlan r n alignment s z = Ensures-test (n == 0) aborts (
      Ensures-test (n == 1) (returns {a = answer 0} (refl, inl refl)) (
        Ensures-test (n == 3) (returns {a = region alignment env.page_size} (refl, tt))
          (returns {a = answer s.null_addr} (refl, inr (refl, z)))))

  plan-IsPlan : (r : Request) (s : State W) → Ensures (λ p t. (t ≡ s) × IsPlan r s p) (plan env r s)
  unfolding plan
  plan-IsPlan r s = elim (Bool-cases (r.user_size == 0)) [
    | inl e ↦ rw (plan, e) (zero_plan-IsPlan r (strategy env r s) r.alignment s (ground (arith, e)))
    | inr e ↦ rw (plan, e) (Ensures-test _ (returns {a = region _ _} (refl, tt)) aborts)
  ]

  fill_user-Calm : (r : Request) (a : ℕ) (s : State W) → Calm s (fill_user env r a s)
  unfolding fill_user
  fill_user-Calm r a s = Ensures-test _ (returns (Kept-refl s)) (
      Ensures-test _ (returns (Kept-refl s)) (
        returns (record {
          settings = refl;
          null_addr = refl;
          init_state = refl;
          table = λ h. h;
          buffers = λ i. refl;
        })))

  count_alloc-Calm : (s : State W) → Calm s (count_alloc env s)
  unfolding count_alloc
  count_alloc-Calm s = returns (record {
    settings = refl;
    null_addr = refl;
    init_state = refl;
    table = λ h. h;
    buffers = λ i. refl;
  })

  module _ (grow : M W (Unit {0})) (calm : (s : State W) → Calm s (grow s)) (r : Request) where
    serve-Answered :
        (alignment needed : ℕ) (s : State W)
        → Ensures (λ a t. Answered r a s t) (serve env grow r alignment needed s)
    unfolding serve
    serve-Answered alignment needed s =
        Ensures-bind (enter-Same env r.protect_alloc_list s) λ _ s1 e1.
          Ensures-bind (check_now_and_then-Same env s1) λ _ s2 e2.
            Ensures-bind (when-Calm _ grow s2 (calm s2)) λ _ s3 k3.
              Ensures-bind (find_region-Chosen env r needed s3) λ (i, spare) s4 (k4, idle, idle').
                Ensures-bind (use_region-Answered env r alignment needed i spare s4 idle idle')
                  λ a s5 q. Ensures-bind (leave-Same env r.protect_alloc_list s5) λ _ s6 e6.
                    Ensures-bind (fill_user-Calm r a s6) λ _ s7 k7.
                      let before : Kept s s4 =
                        Kept-trans (Same-Kept (Same-trans e1 e2)) (Kept-trans k3 k4) in
                      let behind : Kept s5 s7 = Kept-trans (Same-Kept e6) k7 in
                      returns (Answered-Kept (Kept-Answered before q) behind)

    go_on :
        (p : Plan) (s : State W)
        → IsPlan r s p
        → Ensures
            (λ a t. Answered r a s t)
            ((elim p as (λ p. M W ℕ) [
              | answer a ↦ pure a
              | region alignment needed ↦ serve env grow r alignment needed
            ])
              s)
    go_on (answer a) s (inl e) = returns (null e (Kept-refl s))
    go_on (answer a) s (inr (e, n)) = returns (no_bytes e n (Kept-refl s))
    go_on (region alignment needed) s ok = serve-Answered alignment needed s

    pub allocate_with-Answered :
        (s : State W) → Ensures (λ a t. Answered r a s t) (allocate_with env grow r s)
    unfolding allocate_with
    allocate_with-Answered s =
        Ensures-bind (when-Calm (s.alloc_list == 0) (stop Abort.assert_failed) s aborts) λ _ s1 k1.
          Ensures-bind (count_alloc-Calm s1) λ _ s2 k2.
            Ensures-bind (plan-IsPlan r s2) λ p s3 (e3, ok).
              let ok' : IsPlan r s3 p = rw e3 ok in
              let before : Kept s s3 = rw e3 (Kept-trans k1 k2) in
              Ensures-weaken (go_on p s3 ok') λ a t q. Kept-Answered before q
