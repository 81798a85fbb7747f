-- ===== src/Slots.antt =====
-- The slot table of src/duma.c, `_duma_g.allocList`: one slot for each region of memory. A pointer to
-- a slot is its index. The build is the Unix one, with leak detection and without explicit
-- initialisation.
pub mod Types
pub mod Search
pub mod BestFit
mod Tests
use duma.Prelude.{
  ℕ, zero, suc, ◌+◌, ◌-◌, ◌≤◌, Bool, true, false, ◌&&◌, Option, none, some, List, [], ◌∷◌, ltb, leb,
  ◌==◌, if◌then◌else◌, get_elem?,
}
use duma.Slots.Types.{SlotState, Slot, is_state}

-- `slotForUserAddress`, from index `i` on.
for_user_address : ℕ → List Slot → ℕ → Option ℕ
for_user_address address [] i = none
for_user_address address (s ∷ rest) i =
    if s.user_address == address then some i else for_user_address address rest (i + 1)

unfoldable pub slot_for_user_address : List Slot → ℕ → Option ℕ
unfolding for_user_address
slot_for_user_address slots address = for_user_address address slots 0

-- `nearestSlotForUserAddress`
nearest_from : ℕ → List Slot → ℕ → Option ℕ
nearest_from address [] i = none
nearest_from address (s ∷ rest) i =
    if leb s.internal_address address && leb address (s.internal_address + s.internal_size)
    then some i
    else nearest_from address rest (i + 1)

unfoldable pub nearest_slot_for_user_address : List Slot → ℕ → Option ℕ
unfolding nearest_from
nearest_slot_for_user_address slots address = nearest_from address slots 0

-- `fullSlot` and `emptySlots` of `_duma_allocate`; a full slot carries its size.
pub record Found : Type 0 where
  pub full : Option (ℕ × ℕ)
  pub empty0 : Option ℕ
  pub empty1 : Option ℕ

-- A free region that is large enough, and smaller than the one at hand.
abbrev pub is_better : ℕ → Slot → Option (ℕ × ℕ) → Bool
is_better size s none = true
is_better size s (some (_, best)) = ltb s.internal_size best

-- One slot of the search: the new findings.
unfoldable pub visit : ℕ → Slot → ℕ → Found → Found
visit size s i f =
    if is_state SlotState.free s.state && leb size s.internal_size
    then (if is_better size s f.full then record f { full = some (i, s.internal_size) } else f)
    else (if is_state SlotState.empty s.state
        then elim f.empty0 [
          | none ↦ record f { empty0 = some i }
          | some _ ↦ elim f.empty1 [ none ↦ record f { empty1 = some i } | some _ ↦ f ]
        ]
        else f)

-- Whether the loop leaves here: a region of just the right size has become the best.
unfoldable pub is_exact : ℕ → Slot → Found → Bool
is_exact size s f =
    if is_state SlotState.free s.state && leb size s.internal_size
    then (if is_better size s f.full then s.internal_size == size else false)
    else false

-- The loop of `_duma_allocate` over the slots.
unfoldable pub search_slots : ℕ → List Slot → ℕ → Found → Found
unfolding visit is_exact
search_slots size [] i f = f
search_slots size (s ∷ rest) i f =
    let rest' = search_slots size rest (i + 1) (visit size s i f) in
    if is_exact size s f then visit size s i f else rest'
