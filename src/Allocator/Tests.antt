-- ===== src/Allocator/Tests.antt =====
-- Runs of the allocator on a small kernel, and the theorems at states of these runs.
use duma.Prelude.{
  inl, ◌↔◌, ◌≤◌, ℕ, false, ◌≡◌, refl, true, Option, none, some, [], ◌∷◌, ◌≢◌, ◌<◌, zero, suc, ap,
  ◌∙◌, inr, get_elem?, arith,
}
use duma.Prelude.Int.{pos}
use duma.Machine.Sample.{Kernel, sample, boot}
use duma.Machine.State.{State, initial_state}
use duma.Machine.Monad.{M, pure, out_of_fuel, Ensures, Result, ok, abort, Abort}
use duma.Memory.{store}
use duma.Slots.{slot_for_user_address}
use duma.Slots.Search.{HasUser, IsFirst, slot_for_user_address-none}
use duma.Slots.Types.{Slot, zero_slot, Allocator, FileSource, SlotState}
use duma.Allocator.Slack.{acc_begin, acc_end, check_slack, check_all_slacks}
use duma.Allocator.Reduce.{reduce_protected_memory}
use duma.Allocator.Reduce.Spared.{Spared, reduce_protected_memory-Spared}
use duma.Allocator.Slack.Laws.{Intact, check_slack_iff, check_all_slacks-Intact}
use duma.Allocator.Guard.{enter, check_now_and_then}
use duma.Allocator.Deallocate.{deallocate}
use duma.Allocator.Deallocate.Detect.{
  Locks, Enters, deallocate-already_freed, deallocate-mismatch, deallocate-unknown,
  deallocate-overwritten,
}
use duma.Allocator.Deallocate.Twice.{deallocate-deallocate}
use duma.Allocator.Request.{Request}
use duma.Allocator.Grow.{allocate}
use duma.Allocator.Live.Answers.{Answered}
use duma.Allocator.Live.Growth.{allocate-Answered}
use duma.Allocator.Api.{realloc}
use duma.Allocator.Live.Freeing.{Disposed, deallocate-Disposed}
use duma.Allocator.Finish.Whole.{allocate-ends_in_time}

abbrev start : State Kernel
start = initial_state 8 boot (λ _. 0)

abbrev value : {A : Type 0} → Result (State Kernel) A → Option A
value (ok a s) = some a
value _ = none

abbrev state_of : {A : Type 0} → Result (State Kernel) A → State Kernel
state_of (ok a s) = s
state_of _ = start

-- A block of 100 bytes at 65560, in a region of three pages.
abbrev block : Slot
block = record zero_slot {
  internal_address = 65536;
  user_address = 65560;
  prot_address = 65664;
  internal_size = 192;
  user_size = 100;
  state = SlotState.in_use;
  allocator = Allocator.malloc;
  file_source = FileSource.allocation;
  lineno = pos 10;
}

-- A table with that block behind a slot of the allocator, in memory that is filled as the no man's
-- land is.
abbrev one_block : State Kernel
one_block = record start {
  world = record boot { next = 0x20000 };
  memory = λ _. 0xaa;
  slots = zero_slot ∷ block ∷ [];
  alloc_list = 4096;
  alloc_list_size = 64;
  null_addr = 9999;
}

abbrev broken : State Kernel
broken = record one_block { memory = store (λ _. 0xaa) 65660 0 }

entered : State Kernel → State Kernel
unfolding enter
entered s = state_of (enter sample true s)

freed : State Kernel
unfolding deallocate duma.Memory.all_bytes
freed = state_of (deallocate sample 65560 true Allocator.dealloc 5 (pos 12) one_block)

not_before :
    (u v : Slot)
    → u.user_address ≢ v.user_address
    → (j : ℕ) (t : Slot) → j < 1
    → get_elem? (u ∷ v ∷ []) j ≡ some t
    → ¬ HasUser v.user_address t
not_before u v other zero t lt g h = let e : u ≡ t = cc in other (ap (λ x. x.user_address) e ∙ h)
not_before u v other (suc j) t lt g h = absurd (omega arith)

abbrev second :
    (u v : Slot) → u.user_address ≢ v.user_address → IsFirst (HasUser v.user_address) (u ∷ v ∷ []) 1
second u v other = record { slot = v; here = refl; holds = refl; earlier = not_before u v other }

abbrev apart : ¬ (zero_slot.user_address ≡ block.user_address)
apart e = omega (arith, e)

one_block-Locks : Locks sample 65560 true one_block (entered one_block)
unfolding entered enter
one_block-Locks = record {
  table = omega arith;
  real = omega arith;
  not_null = λ e. omega (arith, e);
  entered = refl;
}

one_block-Enters : Enters sample 65560 true one_block (entered one_block)
unfolding entered enter check_now_and_then
one_block-Enters = record { before = entered one_block; locks = one_block-Locks; checked = refl }

unknown-Locks : Locks sample 3 true one_block (entered one_block)
unfolding entered enter
unknown-Locks = record {
  table = omega arith;
  real = omega arith;
  not_null = λ e. omega (arith, e);
  entered = refl;
}

broken-Locks : Locks sample 65560 true broken (entered broken)
unfolding entered enter
broken-Locks = record {
  table = omega arith;
  real = omega arith;
  not_null = λ e. omega (arith, e);
  entered = refl;
}

freed-Locks : Locks sample 65560 true freed (entered freed)
unfolding entered enter freed duma.Memory.all_bytes
freed-Locks = record {
  table = omega arith;
  real = omega arith;
  not_null = λ e. omega (arith, e);
  entered = refl;
}

freed_checked : check_now_and_then sample (entered freed) ≡ ok tt (entered freed)
unfolding entered enter check_now_and_then freed duma.Memory.all_bytes
freed_checked = refl

freed-Enters : Enters sample 65560 true freed (entered freed)
unfolding entered enter check_now_and_then freed duma.Memory.all_bytes
freed-Enters = record { before = entered freed; locks = freed-Locks; checked = refl }

not-Intact : ¬ Intact 0xaa block broken.memory
unfolding acc_end
not-Intact h = let e = h 65660 (inr (omega arith, omega arith)) in omega (arith, e)

three_unknown : slot_for_user_address one_block.slots 3 ≡ none
unfolding slot_for_user_address
three_unknown = refl

deallocate-already_freed_example :
    deallocate sample 65560 true Allocator.dealloc 5 (pos 13) freed
    ≡ abort (Abort.already_freed 65560 FileSource.deallocation)
unfolding freed
deallocate-already_freed_example =
    deallocate-already_freed sample freed-Enters 1 (second zero_slot _ apart) Allocator.dealloc 5
      (pos 13) (inl refl)

deallocate-mismatch_example :
    deallocate sample 65560 true Allocator.del_array 5 (pos 13) one_block
    ≡ abort (Abort.free_mismatch FileSource.allocation)
deallocate-mismatch_example =
    deallocate-mismatch sample one_block-Enters 1 (second zero_slot block apart) Allocator.del_array
      5 (pos 13) refl (λ e. cc)

freed_run : deallocate sample 65560 true Allocator.dealloc 5 (pos 12) one_block ≡ ok tt freed
unfolding freed deallocate duma.Memory.all_bytes
freed_run = refl

deallocate-deallocate_example :
    deallocate sample 65560 true Allocator.dealloc 5 (pos 13) freed
    ≡ abort (Abort.already_freed 65560 FileSource.deallocation)
unfolding freed
deallocate-deallocate_example =
    deallocate-deallocate sample {s = one_block} {s' = freed} {n = 0} refl one_block-Enters 1
      (second zero_slot block apart) Allocator.dealloc Allocator.dealloc 5 5 (pos 12) (pos 13) refl
      refl refl freed_run freed-Locks.entered freed_checked

deallocate-overwritten_example :
    (e : Abort) × (deallocate sample 65560 true Allocator.dealloc 5 (pos 13) broken ≡ abort e)
deallocate-overwritten_example =
    deallocate-overwritten sample broken-Locks 1 (second zero_slot block apart) Allocator.dealloc 5
      (pos 13) refl refl (omega arith) (omega arith) not-Intact

deallocate-unknown_example :
    (e : Abort) × (deallocate sample 3 true Allocator.dealloc 5 (pos 13) one_block ≡ abort e)
deallocate-unknown_example =
    deallocate-unknown sample unknown-Locks Allocator.dealloc 5 (pos 13)
      (slot_for_user_address-none one_block.slots 3 three_unknown)

-- The block, freed and kept, goes back to the system in part, and then whole.
begin_before : acc_begin block ≤ 65560
unfolding acc_begin
begin_before = omega arith

end_behind : 65660 ≤ acc_end block
unfolding acc_end
end_behind = omega arith

all_pass : check_all_slacks 0xaa one_block.slots one_block.memory ≡ none
unfolding check_all_slacks duma.Memory.all_bytes
all_pass = refl

reduce_protected_memory-Spared_example :
    Ensures
      (λ _ t.
        Spared 64 freed.slots t.slots × (t.memory ≡ freed.memory) × (t.settings ≡ freed.settings))
      (reduce_protected_memory sample 1 freed)
reduce_protected_memory-Spared_example = reduce_protected_memory-Spared sample 1 freed

check_slack_iff_example :
    (check_slack 0xaa block broken.memory ≡ none) ↔ Intact 0xaa block broken.memory
check_slack_iff_example = check_slack_iff 0xaa block broken.memory (omega arith) (omega arith)

check_all_slacks-Intact_example : Intact 0xaa block one_block.memory
check_all_slacks-Intact_example =
    check_all_slacks-Intact 0xaa one_block.slots one_block.memory all_pass 1 block refl
      (refl, omega arith, omega arith)

-- A free region of six pages and room for slots.
abbrev region : Slot
region = record zero_slot {
  internal_address = 66048;
  user_address = 66048;
  internal_size = 384;
  user_size = 384;
  state = SlotState.free;
}

abbrev roomy : State Kernel
roomy = record one_block {
  slots = zero_slot ∷ block ∷ region ∷ zero_slot ∷ zero_slot ∷ zero_slot ∷ [];
  unused_slots = 9;
}

abbrev request : Request
request = record {
  alignment = 0;
  user_size = 70;
  protect_below = false;
  fill_byte = pos 255;
  protect_alloc_list = true;
  allocator = Allocator.malloc;
  fail_env = true;
  filename = 5;
  lineno = pos 20;
}

allocate_run : value (allocate sample request roomy) ≡ some 66104
unfolding allocate duma.Words.Defs.round_down
allocate_run = refl

allocate-Answered_example :
    Ensures (λ a t. Answered request a roomy t) (allocate sample request roomy)
allocate-Answered_example = allocate-Answered sample request roomy

allocate-ends_in_time_example : allocate sample request roomy ≢ out_of_fuel
allocate-ends_in_time_example = allocate-ends_in_time sample request roomy

deallocate-Disposed_example :
    Ensures
      (λ _ t. Disposed 65560 Allocator.dealloc one_block t)
      (deallocate sample 65560 true Allocator.dealloc 5 (pos 12) one_block)
deallocate-Disposed_example =
    deallocate-Disposed sample 65560 true Allocator.dealloc 5 (pos 12) one_block

no_init : M Kernel (Unit {0})
no_init = pure tt

grown_run : value (realloc sample no_init 5 (pos 21) 65560 130 roomy) ≡ some 66104
unfolding realloc duma.Memory.all_bytes duma.Words.Defs.round_down
grown_run = refl
