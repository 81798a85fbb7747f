-- ===== src/Report/Tests.antt =====
-- The report of leaks on the small kernel.
use duma.Prelude.{ℕ, ◌≡◌, refl, Option, none, some, List, [], ◌∷◌, ◌++◌, get_elem?}
use duma.Prelude.Int.{pos}
use duma.Slots.Types.{Slot, SlotState, Allocator, FileSource, zero_slot}
use duma.Machine.Sample.{Kernel, sample, boot}
use duma.Machine.State.{State, initial_state}
use duma.Machine.Monad.{Ensures, Result, ok}
use duma.Report.{Item, not_freed, leaks, call_counts, del_frame}
use duma.Report.Leaks.{listed_of, numbers, del_frame_lem, del_frame-not_freed}

-- Two buffers, of which one has no line number.
abbrev with_line : Slot
with_line = record zero_slot {
  user_address = 65560;
  user_size = 100;
  state = SlotState.in_use;
  allocator = Allocator.malloc;
  file_source = FileSource.allocation;
  lineno = pos 10;
}

abbrev without_line : Slot
without_line = record with_line { user_address = 70000; lineno = pos 0 }

abbrev two_leaks : State Kernel
two_leaks = record (initial_state 8 (record boot { next = 0x20000 }) (λ _. 0)) {
  slots = zero_slot ∷ with_line ∷ without_line ∷ [];
  alloc_list = 4096;
  alloc_list_size = 64;
}

abbrev value : Result (State Kernel) (List Item) → Option (List Item)
value (ok a s) = some a
value _ = none

del_frame_run : value (del_frame sample two_leaks) ≡ some (not_freed with_line ∷ leaks 1 1 ∷ [])
unfolding del_frame
del_frame_run = refl

del_frame_lem_example :
    Ensures
      (λ items t.
        (t.slots ≡ two_leaks.slots)
        × (t.settings ≡ two_leaks.settings)
        × (items
            ≡ listed_of two_leaks.settings.report_all_leaks two_leaks.slots
              ++ numbers two_leaks.settings.report_all_leaks two_leaks.slots
              ++ call_counts two_leaks))
      (del_frame sample two_leaks)
del_frame_lem_example = del_frame_lem sample two_leaks

del_frame-not_freed_example :
    Ensures
      (λ items t. (k : ℕ) × (get_elem? items k ≡ some (not_freed with_line)))
      (del_frame sample two_leaks)
del_frame-not_freed_example = del_frame-not_freed sample two_leaks 1 with_line refl refl
