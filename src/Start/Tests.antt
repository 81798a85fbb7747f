-- ===== src/Start/Tests.antt =====
-- The start on the small kernel.
use duma.Prelude.{◌<◌, ℕ, ◌≡◌, refl, inr, arith, Option, none, some, [], ◌∷◌}
use duma.Prelude.Int.{pos}
use duma.Memory.{Memory, store}
use duma.Machine.Sample.{Kernel, sample, boot}
use duma.Machine.State.{State, initial_state, out_init}
use duma.Machine.Monad.{Ensures, Result, ok, M, ◌>>=◌, ◌>>◌, pure}
use duma.Allocator.Api.{malloc, free}
use duma.Start.{init_process}
use duma.Start.Getenv.{getenv}
use duma.Start.Getenv.Lookup.{Holds, Agree, lookup, getenv-Agree}
use duma.Start.Variables.{getenvvars}
use duma.Start.Variables.Effect.{IsComplete, getenvvars-IsComplete}
use duma.Start.Ready.{init_process-Ready, init_process-depth}

abbrev start : State Kernel
start = initial_state 8 boot (λ _. 0)

abbrev value : {A : Type 0} → Result (State Kernel) A → Option A
value (ok a s) = some a
value _ = none

init : M Kernel (Unit {0})
unfolding init_process
init = init_process sample 2

three_blocks : M Kernel (ℕ × ℕ × ℕ)
unfolding malloc free init
three_blocks = do
  a ← malloc sample init 5 (pos 10) 100
  b ← malloc sample init 5 (pos 11) 50
  free sample init 5 (pos 12) a
  c ← malloc sample init 5 (pos 13) 0
  pure (a, b, c)

three_blocks_run : value (three_blocks start) ≡ some (66136, 66312, 66464)
unfolding three_blocks duma.Memory.all_bytes
three_blocks_run = refl

-- "AB=7" at 100.
abbrev text_at_100 : Memory
text_at_100 = store (store (store (store (λ _. 0) 100 b'A') 101 b'B') 102 b'=') 103 b'7'

two_letters : Holds text_at_100 100 (b'A' ∷ b'B' ∷ b'=' ∷ b'7' ∷ [])
two_letters =
    (refl, omega arith, (refl, omega arith, (refl, omega arith, (refl, omega arith, refl))))

getenv-Agree_example :
    Agree text_at_100
      (getenv (b'A' ∷ b'B' ∷ []) (100 ∷ []) text_at_100)
      (lookup (b'A' ∷ b'B' ∷ []) ((b'A' ∷ b'B' ∷ b'=' ∷ b'7' ∷ []) ∷ []))
getenv-Agree_example =
    getenv-Agree b'A' (b'B' ∷ []) (100 ∷ []) ((b'A' ∷ b'B' ∷ b'=' ∷ b'7' ∷ []) ∷ []) text_at_100
      (omega arith, (omega arith, tt)) (two_letters, tt)

abbrev constructed : State Kernel
constructed = record start { alloc_list = 4096; alloc_list_size = 64 }

getenvvars-IsComplete_example :
    Ensures (λ _ t. IsComplete t.settings × (0 < t.alloc_list)) (getenvvars sample init constructed)
getenvvars-IsComplete_example =
    getenvvars-IsComplete sample init constructed
      (omega arith, inr (255, refl, omega arith), omega arith, omega arith, omega arith)
      (omega arith)

init_process-Ready_example :
    Ensures
      (λ _ t. (t.init_state ≡ out_init) × (0 < t.alloc_list) × IsComplete t.settings)
      (init_process sample 2 start)
init_process-Ready_example =
    init_process-Ready sample 1 start refl
      (omega arith, inr (255, refl, omega arith), omega arith, omega arith, omega arith)

init_process-depth_example : init_process sample 5 start ≡ init_process sample 1 start
init_process-depth_example = init_process-depth sample 4 start refl
