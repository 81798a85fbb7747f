-- ===== src/Allocator/Request.antt =====
-- What `_duma_allocate` is asked, and what it decides before the search.
use duma.Prelude.{ℕ, Bool, ◌==◌, if◌then◌else◌}
use duma.Prelude.Int.{ℤ}
use duma.Layout.{choose_alignment, passes_power_test, internal_size}
use duma.Slots.Types.{Allocator, std_c, std_cpp, alloc_std}
use duma.Machine.Env.{Env}
use duma.Machine.State.{State}
use duma.Machine.Monad.{ok, abort, Abort, M}

-- The arguments of `_duma_allocate`; `fail_env` is DUMA_FAIL_ENV.
pub record Request : Type 0 where
  pub alignment : ℕ
  pub user_size : ℕ
  pub protect_below : Bool
  pub fill_byte : ℤ
  pub protect_alloc_list : Bool
  pub allocator : Allocator
  pub fail_env : Bool
  pub filename : ℕ
  pub lineno : ℤ

-- What the checks before the search decide: an answer at once, or an alignment and a region's size.
pub data Plan : Type 0 where
  answer : ℕ → Plan
  region : ℕ → ℕ → Plan

module _ {W : Type 0} (env : Env W) where
  abbrev page : ℕ
  page = env.page_size

  unfoldable pub strategy : Request → State W → ℕ
  strategy r s = elim (alloc_std r.allocator) [
    | std_cpp ↦ s.settings.new_0_strategy
    | std_c ↦ s.settings.malloc_0_strategy
  ]

  unfoldable pub zero_plan : ℕ → ℕ → M W Plan
  zero_plan n alignment s =
      if n == 0
      then abort Abort.zero_size
      else (if n == 1
          then ok (answer 0) s
          else (if n == 3 then ok (region alignment page) s else ok (answer s.null_addr) s))

  unfoldable pub plan : Request → M W Plan
  unfolding strategy zero_plan choose_alignment passes_power_test internal_size
  plan r s =
      if r.user_size == 0
      then zero_plan (strategy r s) r.alignment s
      else let a = choose_alignment s.settings.alignment r.alignment r.user_size in
        if passes_power_test a
        then ok (region a (internal_size page a r.user_size)) s
        else abort (Abort.bad_alignment a)
