-- ===== src/Operators/Tests.antt =====
-- The operators on the small kernel, with a handler that gives up after some calls.
use duma.Prelude.{ℕ, zero, suc, ◌^◌, ◌<◌, ◌≤◌, ◌≡◌, ◌≢◌, refl, arith, ap, true, Option, none, some}
use duma.Prelude.Int.{pos}
use duma.Slots.Types.{Allocator}
use duma.Machine.Sample.{Kernel, sample, boot}
use duma.Machine.State.{State, initial_state}
use duma.Machine.Monad.{Result, ok, out_of_fuel, M, ◌>>=◌, pure, Ensures, Ensures-ok}
use duma.Allocator.Request.{Request}
use duma.Allocator.Grow.{allocate}
use duma.Allocator.Live.Calls.{Answered-Steady}
use duma.Allocator.Live.Growth.{allocate-Answered}
use duma.Start.{init_process}
use duma.Operators.{
  Exception, bad_alloc, Answer, returned, thrown, Runtime, new_operator, global_new_elem,
}
use duma.Operators.Rounds.{Fair, new_operator-Fair, new_operator-ends_in_time}

abbrev start : State Kernel
start = initial_state 8 boot (λ _. 0)

init : M Kernel (Unit {0})
unfolding init_process
init = init_process sample 2

-- The handler counts down a variable of the process.
abbrev tries : State Kernel → ℕ
tries s = s.settings.check_freq

abbrev count_down : M Kernel (Option Exception)
count_down s = elim s.settings.check_freq [
  | zero ↦ ok (some bad_alloc) s
  | suc n ↦ ok none (record s { settings = record s.settings { check_freq = n } })
]

abbrev runtime : Runtime Kernel
runtime = record { has_handler = λ _. true; call_handler = count_down; unknown_cxx_file = 3 }

abbrev answer : {A : Type 0} → Result (State Kernel) A → Option A
answer (ok a s) = some a
answer _ = none

two_objects : M Kernel (Answer × Answer)
unfolding global_new_elem init
two_objects = do
  a ← global_new_elem sample runtime init 4 100
  b ← global_new_elem sample runtime init 4 (2 ^ 63)
  pure (a, b)

two_objects_run : answer (two_objects start) ≡ some (returned 66136, thrown bad_alloc)
unfolding two_objects duma.Memory.all_bytes
two_objects_run = refl

abbrev patient : State Kernel
patient = record start {
  alloc_list = 4096;
  alloc_list_size = 64;
  settings = record start.settings { check_freq = 2 };
}

new_operator-Fair_example :
    Ensures
      (Fair sample runtime init 5 (pos 10) Allocator.new_elem 24 true)
      (new_operator sample runtime init 5 (pos 10) 4 Allocator.new_elem 24 true start)
new_operator-Fair_example =
    new_operator-Fair sample runtime init 5 (pos 10) Allocator.new_elem 24 4 true start

ends : (s : State Kernel) → count_down s ≢ out_of_fuel
ends s e = ground (arith, e)

falls : (s u : State Kernel) → count_down s ≡ ok none u → tries u < tries s
falls s u e = ground (arith, e)

stays :
    (r : Request) (s t : State Kernel) (a : ℕ) → allocate sample r s ≡ ok a t → tries t ≤ tries s
stays r s t a e =
    let q = Answered-Steady (Ensures-ok (allocate-Answered sample r s) e) in
    let same = ap (λ x. x.check_freq) q.settings in omega arith

new_operator-ends_in_time_example :
    new_operator sample runtime init 5 (pos 10) 3 Allocator.new_elem 24 true patient ≢ out_of_fuel
new_operator-ends_in_time_example =
    new_operator-ends_in_time sample runtime init 5 (pos 10) Allocator.new_elem 24 tries ends falls
      stays 3 true patient (omega arith) (omega arith)
