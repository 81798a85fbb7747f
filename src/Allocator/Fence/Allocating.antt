-- ===== src/Allocator/Fence/Allocating.antt =====
-- `_duma_allocate` from its first test on, and the pages of the regions.
use duma.Prelude.{
  ℕ, ◌+◌, ◌^◌, ◌≤◌, ◌<◌, ◌≡◌, ◌⊎◌, inl, inr, arith, Bool, true, false, refl, not, ◌&&◌, ltb, ◌==◌,
  if◌then◌else◌, Bool-cases,
}
use native.Mathlib.Decide.{dec_lt}
use native.Mathlib.Nat.{pow-le-pow_right}
use duma.Words.{IsPower}
use duma.Layout.{choose_alignment, passes_power_test, int32, internal_size}
use duma.Layout.Size.{Fits, internal_size-IsSized}
use duma.Layout.Alignment.{passes_power_test_iff}
use duma.Slots.Types.{internal, alloc_type, same_type}
use duma.Machine.Env.{Env, Access, IsOs}
use duma.Machine.State.{State}
use duma.Machine.Monad.{
  M, Ensures, returns, aborts, Ensures-bind, Ensures-test, Ensures-cases, when, stop, Abort, pure,
}
use duma.Allocator.Request.{Request, Plan, answer, region, strategy, zero_plan, plan}
use duma.Allocator.Allocate.{serve, count_alloc, allocate_with}
use duma.Allocator.Grow.{allocate, allocate_more_slots}
use duma.Allocator.Fence.{Tidy}
use duma.Allocator.Fence.Occupying.{Suits}
use duma.Allocator.Fence.Serving.{Grows, serve-Tidy}

-- The alignment of a request, with the default one.
unfoldable pub alignment_of : ℕ → Request → ℕ
unfolding choose_alignment
alignment_of default r =
    if r.user_size == 0 then r.alignment else choose_alignment default r.alignment r.user_size

-- A request below 2^28 bytes, whose alignment is less as well and, with DUMA_PROTECT_BELOW, a page's at
-- most.
pub record IsModest (page default : ℕ) (r : Request) : Type 0 where
  pub size : r.user_size < 2 ^ 28
  pub page_small : page < 2 ^ 28
  pub positive : 0 < r.user_size → 0 < alignment_of default r
  pub small : alignment_of default r < 2 ^ 28
  pub low : r.protect_below ≡ true → alignment_of default r ≤ page

passed-IsPower : (a : ℕ) → 0 < a → a < 2 ^ 28 → passes_power_test a ≡ true → IsPower a
passed-IsPower a pos lt e = by_bits ((passes_power_test_iff a).0 e)
  where
    by_bits : (int32 a ≡ 0) ⊎ ((k : ℕ) × (int32 a ≡ 2 ^ k)) → IsPower a
    by_bits (inl z) = absurd (omega arith)
    by_bits (inr (k, h)) =
        let is_it : a ≡ 2 ^ k = omega arith in
        record { shift = k; shift_lt = below k is_it; is_power = is_it }
      where
        below : (k : ℕ) → a ≡ 2 ^ k → k < 64
        below k h = elim (dec_lt k 64) [
          | yes small ↦ small
          | no large ↦ absurd (
              omega (
                arith,
                lt,
                h,
                pow-le-pow_right {n = 2} (omega arith) {i = 64} {j = k} (omega arith),
              ))
        ]

module _ {W : Type 0} (env : Env W) (look : W → ℕ → Access) (os : IsOs env look)
    (power : IsPower env.page_size) (r : Request) where
  abbrev Suited : Plan → Type 0
  Suited (answer a) = Unit
  Suited (region alignment needed) = Suits env.page_size r alignment needed

  zero-Suits :
      (default : ℕ)
      → IsModest env.page_size default r
      → r.user_size ≡ 0
      → Suits env.page_size r r.alignment env.page_size
  unfolding alignment_of
  zero-Suits default modest z =
      let no_size : (r.user_size == 0) ≡ true = ground (arith, z) in
      record {
        sized = inl (z, refl);
        small = omega (arith, modest.page_small, rw no_size at modest.small);
        low = λ b. (rw no_size at modest.low b);
      }

  sized-Suits :
      (default : ℕ)
      → IsModest env.page_size default r
      → (r.user_size == 0) ≡ false
      → passes_power_test (choose_alignment default r.alignment r.user_size) ≡ true
      → Suits env.page_size r (choose_alignment default r.alignment r.user_size) (
          internal_size env.page_size
            (choose_alignment default r.alignment r.user_size)
            r.user_size)
  unfolding alignment_of
  sized-Suits default modest some_size passed =
      let positive : 0 < r.user_size = ground (arith, some_size) in
      let small = rw some_size at modest.small in
      let page_power = power in
      let f : Fits env.page_size (choose_alignment default r.alignment r.user_size) r.user_size =
        record {
          page_power = power;
          alignment_power =
              passed-IsPower _ (rw some_size at modest.positive positive) small passed;
          positive = positive;
          no_wrap = omega (arith, small, modest.page_small, modest.size);
        } in
      record {
        sized = inr (f, refl);
        small = bound _ _ small (internal_size-IsSized f).tight;
        low = λ b. (rw some_size at modest.low b);
      }
    where
      bound :
          (a n : ℕ)
          → a < 2 ^ 28
          → (n < r.user_size + env.page_size + env.page_size)
            ⊎ (n < r.user_size + env.page_size + a)
          → n + env.page_size + a < 2 ^ 31
      bound a n lt (inl h) = omega (arith, modest.page_small, modest.size)
      bound a n lt (inr h) = omega (arith, modest.page_small, modest.size)

  plan-Suited :
      (s : State W)
      → IsModest env.page_size s.settings.alignment r
      → Ensures (λ p t. (t ≡ s) × Suited p) (plan env r s)
  unfolding plan zero_plan
  plan-Suited s modest = elim (Bool-cases (r.user_size == 0)) [
    | inl e ↦
        let suits = zero-Suits s.settings.alignment modest (ground (arith, e)) in
        rw (plan, e)
          (Ensures-test (strategy env r s == 0) aborts (
            Ensures-test (strategy env r s == 1) (returns {a = answer 0} (refl, tt)) (
              Ensures-test (strategy env r s == 3)
                (returns {a = region r.alignment env.page_size} (refl, suits))
                (returns {a = answer s.null_addr} (refl, tt)))))
    | inr e ↦
        rw (plan, e)
          (Ensures-cases
            (passes_power_test (choose_alignment s.settings.alignment r.alignment r.user_size))
            (λ passed.
              returns {a = region _ _} (refl, sized-Suits s.settings.alignment modest e passed))
            (λ _. aborts))
  ]

  module _ (grow : M W (Unit {0})) (n : ℕ) (grown : Grows env look os power r grow n) where
    go_on :
        (p : Plan) (s : State W)
        → s.unused_slots ≡ n
        → Suited p
        → Tidy look env.page_size s
        → Ensures
            (λ _ t. Tidy look env.page_size t)
            ((elim p as (λ p. M W ℕ) [
              | answer a ↦ pure a
              | region alignment needed ↦ serve env grow r alignment needed
            ])
              s)
    go_on (answer a) s e suits tidy = returns tidy
    go_on (region alignment needed) s e suits tidy =
        serve-Tidy env look os power r alignment needed suits grow s (rw e grown) tidy

    pub allocate_with-Tidy :
        (s : State W)
        → s.unused_slots ≡ n
        → IsModest env.page_size s.settings.alignment r
        → Tidy look env.page_size s
        → Ensures (λ _ t. Tidy look env.page_size t) (allocate_with env grow r s)
    unfolding allocate_with count_alloc
    allocate_with-Tidy s e modest tidy =
        let s1 : State W = record s { num_allocs = s.num_allocs + 1 } in
        let tidy1 : Tidy look env.page_size s1 = record {
          ordered = tidy.ordered;
          table = tidy.table;
        } in
        Ensures-bind {P = λ _ t. t ≡ s} (not_null (s.alloc_list == 0) s) λ _ s0 e0. rw e0 (
          Ensures-bind (plan-Suited s1 modest)
            λ p s2 (e2, suits). go_on p s2 (rw e2 e) suits (rw e2 tidy1))
      where
        not_null :
            (b : Bool) (s : State W) → Ensures (λ _ t. t ≡ s) (when b (stop Abort.assert_failed) s)
        not_null true s = aborts
        not_null false s = returns refl

  -- On a system that keeps the documented laws of its calls, a request of less than 2^28 bytes, whose
  -- alignment is less as well and with DUMA_PROTECT_BELOW a page's at most, keeps the table tidy whenever
  -- it returns, where seven slots are unused or the allocator is the internal one, so that the table
  -- does not grow: each buffer of the user can be used to its last byte, with the pages of its region
  -- behind it, or those before it, closed, freed memory that is kept is closed altogether, no address
  -- lies in the regions of two slots, and the table lies in a slot of the allocator's own.
  pub allocate-Tidy :
      (s : State W)
      → (7 ≤ s.unused_slots) ⊎ (alloc_type r.allocator ≡ internal)
      → IsModest env.page_size s.settings.alignment r
      → Tidy look env.page_size s
      → Ensures (λ _ t. Tidy look env.page_size t) (allocate env r s)
  unfolding allocate
  allocate-Tidy s enough modest tidy =
      allocate_with-Tidy (allocate_more_slots env) s.unused_slots
        (λ t tidy' e short. absurd (never t e enough short)) s refl modest tidy
    where
      never :
          (t : State W)
          → t.unused_slots ≡ s.unused_slots
          → (7 ≤ s.unused_slots) ⊎ (alloc_type r.allocator ≡ internal)
          → (not (same_type internal (alloc_type r.allocator)) && ltb t.unused_slots 7) ≡ true
          → ⊥
      never t e (inl le) short = ground (arith, e, le, short)
      never t e (inr kind) short = ground (arith, kind, short)
