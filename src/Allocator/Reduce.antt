-- ===== src/Allocator/Reduce.antt =====
-- `reduceProtectedMemory` of duma_hlp.h: memory that was freed and is kept protected is given back,
-- first the parts behind the user's address, then whole regions.
pub mod Spared
pub mod Steps
use duma.Prelude.{ℕ, ◌+◌, ◌/◌, Bool, true, false, List, [], ◌∷◌, ltb, leb, if◌then◌else◌}
use duma.Prelude.Int.{pos, ◌-ℤ◌}
use duma.Words.Defs.{add64, sub64, round_down}
use duma.Slots.Types.{SlotState, Slot, is_state}
use duma.Machine.Env.{Env}
use duma.Machine.Monad.{ok, M, ◌>>=◌, ◌>>◌, pure, get}
use duma.Machine.Paging.{page_delete}
use duma.Allocator.Update.{emptied}

-- `(n + 1023) >> 10`
abbrev pub kilobytes : ℕ → ℕ
kilobytes n = add64 n 1023 / 1024

-- What a loop leaves: the slots, the sum so far, and whether it returned from inside.
pub record Reduced : Type 0 where
  pub slots : List Slot
  pub amount : ℕ
  pub enough : Bool

abbrev pub before : Slot → Reduced → Reduced
before s r = record r { slots = s ∷ r.slots }

-- The part of a region up to the page of the user's address.
unfoldable pub kept_size : ℕ → Slot → ℕ
unfolding round_down
kept_size page s = round_down (add64 (sub64 s.user_address s.internal_address) page) page

abbrev pub shortened : ℕ → Slot → Slot
shortened page s = record s { state = SlotState.begin_protected; internal_size = kept_size page s }

module _ {W : Type 0} (env : Env W) (reduction : ℕ) where
  abbrev pub stop_here : List Slot → ℕ → M W Reduced
  stop_here slots amount = pure (record { slots = slots; amount = amount; enough = true })

  abbrev fall_through : List Slot → ℕ → M W Reduced
  fall_through slots amount = pure (record { slots = slots; amount = amount; enough = false })

  -- One region of the first loop: the memory behind the page of the user's address goes.
  unfoldable pub cut_end : Slot → ℕ → M W ℕ
  unfolding page_delete kept_size
  cut_end s amount = do
    let kept = kept_size env.page_size s
    let gone = sub64 s.internal_size kept
    page_delete env (s.internal_address + kept) gone
    pure (add64 amount (kilobytes gone))

  unfoldable pub reduce_ends : List Slot → ℕ → M W Reduced
  unfolding cut_end
  reduce_ends [] amount = fall_through [] amount
  reduce_ends (s ∷ rest) amount = elim (ltb amount reduction) [
    | false ↦ fall_through (s ∷ rest) amount
    | true ↦ elim (is_state SlotState.all_protected s.state) [
      | false ↦ do r ← reduce_ends rest amount; pure (before s r)
      | true ↦ do
        amount' ← cut_end s amount
        r ← elim (leb reduction amount') [
          | true ↦ stop_here rest amount'
          | false ↦ reduce_ends rest amount'
        ]
        pure (before (shortened env.page_size s) r)
    ]
  ]

  -- The second loop: the whole region goes, and its slot is empty.
  unfoldable pub reduce_wholes : List Slot → ℕ → M W Reduced
  unfolding page_delete
  reduce_wholes [] amount = fall_through [] amount
  reduce_wholes (s ∷ rest) amount = elim (ltb amount reduction) [
    | false ↦ fall_through (s ∷ rest) amount
    | true ↦ elim (is_state SlotState.begin_protected s.state) [
      | false ↦ do r ← reduce_wholes rest amount; pure (before s r)
      | true ↦ do
        page_delete env s.internal_address s.internal_size
        let amount' = add64 amount (kilobytes s.internal_size)
        r ← elim (leb reduction amount') [
          | true ↦ stop_here rest amount'
          | false ↦ reduce_wholes rest amount'
        ]
        pure (before (emptied s) r)
    ]
  ]

  unfoldable pub put_slots : List Slot → M W (Unit {0})
  put_slots slots s = ok tt (record s { slots = slots })

  -- Both sums fall by what was given back, before `return 1` only.
  unfoldable pub settle : ℕ → M W (Unit {0})
  settle amount s = ok tt (record s {
    sum_protected = s.sum_protected -ℤ pos amount;
    sum_allocated = s.sum_allocated -ℤ pos amount;
  })

  -- The result tells whether the reduction was reached.
  unfoldable pub reduce_protected_memory : M W Bool
  unfolding reduce_ends reduce_wholes put_slots settle ◌-ℤ◌
  reduce_protected_memory = do
    s ← get
    first ← reduce_ends s.slots 0
    put_slots first.slots
    if first.enough then (do settle first.amount; pure true) else do
      second ← reduce_wholes first.slots first.amount
      put_slots second.slots
      if second.enough then (do settle second.amount; pure true) else pure false
