-- ===== src/Report.antt =====
-- The report of leaks in src/duma.c: `DUMA_newFrame`, `DUMA_delFrame` and `_duma_exit`. What is
-- printed is a list of items.
pub mod Leaks
mod Tests
use duma.Prelude.{
  ℕ, ◌+◌, ◌-◌, Bool, true, false, not, ◌&&◌, ◌||◌, List, [], ◌∷◌, ◌++◌, ltb, ◌==◌, if◌then◌else◌,
}
use duma.Prelude.Int.{pos, ltb_ℤ}
use duma.Slots.Types.{SlotState, Slot, is_state, is_internal}
use duma.Machine.Env.{Env}
use duma.Machine.State.{State}
use duma.Machine.Monad.{ok, M, ◌>>=◌, ◌>>◌, pure, get}
use duma.Machine.Paging.{page_allow_access, page_deny_access}
use duma.Machine.Lock.{get_sem, rel_sem}

-- A buffer that is not freed, the two numbers at the end, and the numbers of calls.
pub data Item : Type 0 where
  not_freed : Slot → Item
  leaks : ℕ → ℕ → Item
  calls : ℕ → ℕ → Item

-- `DUMAST_IN_USE == slot->state && EFA_INT_ALLOC != slot->allocator`
abbrev pub is_leak : Slot → Bool
is_leak u = is_state SlotState.in_use u.state && not (is_internal u.allocator)

-- `_duma_s.REPORT_ALL_LEAKS || slot->lineno > 0`
abbrev pub is_listed : Bool → Slot → Bool
is_listed all u = all || ltb_ℤ (pos 0) u.lineno

-- `nonFreedTotal`, `nonFreedReported`, and what the loop has printed.
pub record Tally : Type 0 where
  pub total : ℕ
  pub reported : ℕ
  pub printed : List Item

-- One round of the loop.
unfoldable pub tally_slot : Bool → Slot → Tally → Tally
tally_slot all u t =
    if is_leak u
    then (if is_listed all u
        then record {
          total = t.total + 1;
          reported = t.reported + 1;
          printed = t.printed ++ (not_freed u ∷ []);
        }
        else record t { total = t.total + 1 })
    else t

unfoldable pub tally_slots : Bool → List Slot → Tally → Tally
unfolding tally_slot
tally_slots all [] t = t
tally_slots all (u ∷ rest) t = tally_slots all rest (tally_slot all u t)

abbrev pub nothing_yet : Tally
nothing_yet = record { total = 0; reported = 0; printed = [] }

-- The numbers behind the loop.
unfoldable pub totals : Tally → List Item
totals t =
    let extra = t.total - t.reported in
    if ltb 0 t.reported
    then leaks t.reported extra ∷ []
    else if ltb t.reported t.total
    then leaks t.reported extra ∷ []
    else []

-- The numbers of calls, under DUMA_SHOW_ALLOC.
unfoldable pub call_counts : {W : Type 0} → State W → List Item
call_counts s = if s.settings.show_alloc then calls s.num_allocs s.num_deallocs ∷ [] else []

module _ {W : Type 0} (env : Env W) where
  -- `DUMA_newFrame`
  unfoldable pub new_frame : M W (Unit {0})
  new_frame = pure tt

  -- `DUMA_delFrame`; the table is taken before the lock.
  unfoldable pub del_frame : M W (List Item)
  unfolding get_sem rel_sem page_allow_access page_deny_access tally_slots totals call_counts
  del_frame = do
    s ← get
    let slots = s.slots
    get_sem env
    s ← get
    page_allow_access env s.alloc_list s.alloc_list_size
    s ← get
    let t = tally_slots s.settings.report_all_leaks slots nothing_yet
    page_deny_access env s.alloc_list s.alloc_list_size
    rel_sem env
    s ← get
    pure (t.printed ++ totals t ++ call_counts s)

  -- `_duma_exit`
  unfoldable pub exit : M W (List Item)
  unfolding del_frame
  exit = del_frame
