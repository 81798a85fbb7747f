-- ===== src/Operators.antt =====
-- The operators of src/dumapp.cpp, as C++11 and later have them: `operator new` has no exception
-- specification, and an exception that leaves a `throw()` function ends the program. The handler of
-- `std::set_new_handler` is the runtime's, a parameter.
pub mod Rounds
mod Tests
use duma.Prelude.{ℕ, zero, suc, Bool, true, false, Option, none, some, ◌==◌, if◌then◌else◌}
use duma.Prelude.Int.{ℤ, pos}
use duma.Slots.Types.{Allocator}
use duma.Machine.Env.{Env}
use duma.Machine.State.{State}
use duma.Machine.Monad.{ok, out_of_fuel, M, ◌>>=◌, ◌>>◌, get, pure}
use duma.Allocator.Request.{Request}
use duma.Allocator.Api.{request, start_up}
use duma.Allocator.Deallocate.{deallocate}
use duma.Allocator.Grow.{allocate}

-- `std::bad_alloc`, or what else a handler throws.
pub data Exception : Type 0 where
  bad_alloc another : Exception

-- How a call ends: with a value, with an exception, or with the end of the program.
pub data Answer : Type 0 where
  returned : ℕ → Answer
  thrown : Exception → Answer
  terminated : Answer

-- The runtime: whether there is a handler, and its call, which may throw. `unknown_cxx_file` is the
-- address of the string of that name.
pub record Runtime (W : Type 0) : Type 0 where
  pub has_handler : State W → Bool
  pub call_handler : M W (Option Exception)
  pub unknown_cxx_file : ℕ

-- DelPtr, DelFile and DelLine of the thread's variables.
pub record DelStack : Type 0 where
  pub del_ptr : ℕ
  pub del_file : ℕ → ℕ
  pub del_line : ℕ → ℤ

-- No memory, and nobody who could find some.
unfoldable pub give_up : Bool → Answer
give_up dothrow = if dothrow then thrown bad_alloc else returned 0

-- What an exception of the handler makes of the call.
unfoldable pub caught : Bool → Exception → Answer
unfolding give_up
caught dothrow bad_alloc = give_up dothrow
caught dothrow another = thrown another

-- `throw()`
unfoldable pub no_throw : Answer → Answer
no_throw (thrown e) = terminated
no_throw x = x

module _ {W : Type 0} (env : Env W) (runtime : Runtime W) (init : M W (Unit {0})) where
  module _ (filename : ℕ) (lineno : ℤ) where
    -- The call of `_duma_allocate`, which may return NULL.
    abbrev pub new_request : Allocator → ℕ → State W → Request
    new_request allocator size s =
        record (request env init filename lineno allocator 0 size s.settings.fill true s) {
          fail_env = false;
        }

    -- What follows the handler's call: another round, or the end by an exception.
    unfoldable pub after_handler : M W Answer → Bool → Option Exception → M W Answer
    unfolding caught
    after_handler again dothrow none = again
    after_handler again dothrow (some e) = pure (caught dothrow e)

    -- What follows the call of `_duma_allocate`.
    unfoldable pub after_try : M W Answer → Bool → ℕ → M W Answer
    unfolding after_handler give_up
    after_try again dothrow zero = λ s. elim (runtime.has_handler s) [
      | true ↦ (do e ← runtime.call_handler; after_handler again dothrow e) s
      | false ↦ ok (give_up dothrow) s
    ]
    after_try again dothrow (suc a) = pure (returned (suc a))

    -- The loop of `duma_new_operator`.
    unfoldable pub new_loop : ℕ → Allocator → ℕ → Bool → M W Answer
    unfolding allocate after_try
    new_loop zero allocator size dothrow = λ _. out_of_fuel
    new_loop (suc f) allocator size dothrow = do
      s ← get
      a ← allocate env (new_request allocator size s)
      after_try (new_loop f allocator size dothrow) dothrow a

    -- `duma_new_operator`
    unfoldable pub new_operator : ℕ → Allocator → ℕ → Bool → M W Answer
    unfolding new_loop start_up
    new_operator f allocator size dothrow = do
      start_up env init filename lineno
      new_loop f allocator size dothrow

    -- `operator new`, `operator new[]` and their forms for `std::nothrow`, with a file and a line.
    unfoldable pub new_elem : ℕ → ℕ → M W Answer
    unfolding new_operator
    new_elem f size = new_operator f Allocator.new_elem size true

    unfoldable pub new_elem_nothrow : ℕ → ℕ → M W Answer
    unfolding new_operator no_throw
    new_elem_nothrow f size = do x ← new_operator f Allocator.new_elem size false; pure (no_throw x)

    unfoldable pub new_array : ℕ → ℕ → M W Answer
    unfolding new_operator
    new_array f size = new_operator f Allocator.new_array size true

    unfoldable pub new_array_nothrow : ℕ → ℕ → M W Answer
    unfolding new_operator no_throw
    new_array_nothrow f size = do
      x ← new_operator f Allocator.new_array size false
      pure (no_throw x)

    -- `operator delete` and `operator delete[]` with a file and a line.
    unfoldable pub delete_elem : ℕ → M W (Unit {0})
    unfolding deallocate
    delete_elem a = deallocate env a true Allocator.del_elem filename lineno

    unfoldable pub delete_array : ℕ → M W (Unit {0})
    unfolding deallocate
    delete_array a = deallocate env a true Allocator.del_array filename lineno

  -- The operators without a file.
  unfoldable pub global_new_elem : ℕ → ℕ → M W Answer
  unfolding new_elem
  global_new_elem = new_elem runtime.unknown_cxx_file (pos 0)

  unfoldable pub global_new_elem_nothrow : ℕ → ℕ → M W Answer
  unfolding new_elem_nothrow
  global_new_elem_nothrow = new_elem_nothrow runtime.unknown_cxx_file (pos 0)

  unfoldable pub global_new_array : ℕ → ℕ → M W Answer
  unfolding new_array
  global_new_array = new_array runtime.unknown_cxx_file (pos 0)

  unfoldable pub global_new_array_nothrow : ℕ → ℕ → M W Answer
  unfolding new_array_nothrow
  global_new_array_nothrow = new_array_nothrow runtime.unknown_cxx_file (pos 0)

  unfoldable pub global_delete_elem : DelStack → ℕ → M W (Unit {0})
  unfolding delete_elem
  global_delete_elem d = delete_elem (d.del_file d.del_ptr) (d.del_line d.del_ptr)

  unfoldable pub global_delete_array : DelStack → ℕ → M W (Unit {0})
  unfolding delete_array
  global_delete_array d = delete_array (d.del_file d.del_ptr) (d.del_line d.del_ptr)
