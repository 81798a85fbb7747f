-- ===== src/Start.antt =====
-- `duma_init` and `_duma_init` of src/duma.c. `_duma_init` calls `malloc`, and this calls `_duma_init`
-- where the table is not there: the fuel bounds how deep they call each other. The build registers no
-- function with `atexit`, since its compiler has the attribute for destructors.
pub mod Table
pub mod Getenv
pub mod Variables
pub mod Once
pub mod Ready
mod Tests
use duma.Prelude.{ℕ, zero, suc, not, ◌&&◌, ◌==◌, if◌then◌else◌}
use duma.Prelude.Int.{pos}
use duma.Machine.Env.{Env}
use duma.Machine.State.{in_constructor, in_init, out_init}
use duma.Machine.Monad.{ok, out_of_fuel, Abort, M, ◌>>=◌, ◌>>◌, get, pure, stop, when}
use duma.Machine.Lock.{get_sem, rel_sem, init_sem}
use duma.Allocator.Api.{malloc, free}
use duma.Start.Table.{
  is_constructed, is_begun, is_initializing, is_initialized, set_init_state, construct,
}
use duma.Start.Variables.{getenvvars}

module _ {W : Type 0} (env : Env W) where
  -- The test of `duma_init` whether `malloc` and `free` are the library's.
  unfoldable pub test_binding : M W (Unit {0}) → M W (Unit {0})
  unfolding malloc free
  test_binding init = do
    a ← malloc env init env.unknown_file (pos 0) 123
    s ← get
    when (s.num_allocs == 0) (stop Abort.not_bound)
    free env init env.unknown_file (pos 0) a
    s ← get
    when (s.num_deallocs == 0) (stop Abort.not_bound)

  -- `duma_init`; `init` stands for `_duma_init`.
  unfoldable pub initialize : M W (Unit {0}) → M W (Unit {0})
  unfolding set_init_state getenvvars init_sem test_binding
  initialize init s =
      if is_initializing s.init_state
      then ok tt s
      else (do
        set_init_state env in_init
        getenvvars env init
        init_sem env
        test_binding init
        set_init_state env out_init)
          s

  -- From `duma_constructor_callinit` on.
  unfoldable pub call_init : M W (Unit {0}) → M W (Unit {0})
  unfolding initialize
  call_init init s = if is_initialized s.init_state then ok tt s else initialize init s

  unfoldable pub construct_once : M W (Unit {0})
  unfolding construct
  construct_once s = if is_constructed s.init_state then ok tt s else construct env s

  -- `_duma_init` up to `duma_constructor_callinit`.
  unfoldable pub begin : M W (Unit {0})
  unfolding get_sem rel_sem set_init_state construct_once
  begin s =
      let in_recursion = is_begun s.init_state in
      (do
        set_init_state env in_constructor
        when (not (env.page_size == env.system_page_size)) (stop Abort.bad_page_size)
        when (not in_recursion) (get_sem env)
        construct_once
        when (not in_recursion) (rel_sem env))
        s

  -- `_duma_init`
  unfoldable pub init_process : ℕ → M W (Unit {0})
  unfolding begin call_init
  init_process zero s = out_of_fuel
  init_process (suc f) s =
      let init = init_process f in
      if is_constructed s.init_state then call_init init s else (do begin; call_init init) s
