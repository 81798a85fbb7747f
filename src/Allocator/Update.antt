-- ===== src/Allocator/Update.antt =====
-- Writes through a slot pointer, and what the allocator writes into a slot.
use duma.Prelude.{ℕ, none, some, List, get_elem?, set}
use duma.Prelude.Int.{pos}
use duma.Slots.Types.{SlotState, FileSource, Allocator, Slot}

unfoldable pub update_slot : ℕ → (Slot → Slot) → List Slot → List Slot
update_slot i f slots = elim (get_elem? slots i) [ none ↦ slots | some s ↦ set slots i (f s) ]

-- A slot whose memory has been given back; `protAddress` keeps its value.
abbrev pub emptied : Slot → Slot
emptied s = record s {
  internal_address = 0;
  user_address = 0;
  internal_size = 0;
  user_size = 0;
  state = SlotState.empty;
  allocator = Allocator.int_alloc;
  file_source = FileSource.no_source;
  filename = 0;
  lineno = pos 0;
}
