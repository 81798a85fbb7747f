-- ===== src/Slots/Tests.antt =====
-- The searches in a small table.
use duma.Prelude.{ℕ, ◌≡◌, refl, some, List, [], ◌∷◌, length}
use duma.Slots.{search_slots, slot_for_user_address, nearest_slot_for_user_address}
use duma.Slots.Types.{SlotState, Slot, zero_slot}
use duma.Slots.BestFit.{Seen, nothing_found, search_slots-Seen}

abbrev region : ℕ → ℕ → SlotState → Slot
region a size state = record zero_slot {
  internal_address = a;
  user_address = a;
  internal_size = size;
  state = state;
}

abbrev table : List Slot
table =
    region 4096 64 SlotState.in_use
    ∷ region 8192 256 SlotState.free
    ∷ zero_slot
    ∷ region 12288 128 SlotState.free
    ∷ zero_slot
    ∷ []

search_slots_run :
    search_slots 100 table 0 nothing_found
    ≡ record { full = some (3, 128); empty0 = some 2; empty1 = some 4 }
unfolding search_slots
search_slots_run = refl

search_slots-Seen_example : Seen 100 table (length table) (search_slots 100 table 0 nothing_found)
search_slots-Seen_example = search_slots-Seen 100 table

found_8192 : slot_for_user_address table 8192 ≡ some 1
unfolding slot_for_user_address
found_8192 = refl

near_8200 : nearest_slot_for_user_address table 8200 ≡ some 1
unfolding nearest_slot_for_user_address
near_8200 = refl
