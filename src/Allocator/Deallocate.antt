-- ===== src/Allocator/Deallocate.antt =====
-- `_duma_deallocate`, `duma_check` and `duma_checkAll` of src/duma.c.
pub mod Detect
pub mod Twice
use duma.Prelude.{
  ℕ, ◌+◌, Bool, true, false, not, ◌&&◌, ◌||◌, none, some, ◌==◌, if◌then◌else◌, get_elem?, set,
}
use duma.Prelude.Int.{ℤ, pos, ◌+ℤ◌, ◌-ℤ◌, ltb_ℤ, leb_ℤ, is_zero_ℤ}
use duma.Slots.{slot_for_user_address, nearest_slot_for_user_address}
use duma.Slots.Types.{SlotState, FileSource, Allocator, same_type, alloc_type, is_internal, Slot}
use duma.Machine.Env.{Env}
use duma.Machine.State.{State}
use duma.Machine.Monad.{ok, abort, fault, Abort, M, ◌>>=◌, ◌>>◌, pure, get, modify, stop, when}
use duma.Machine.Paging.{page_deny_access, page_delete}
use duma.Allocator.Slack.{check_slack, check_all_slacks, touch}
use duma.Allocator.Update.{emptied}
use duma.Allocator.Reduce.{kilobytes, reduce_protected_memory}
use duma.Allocator.Guard.{enter, leave, check_now_and_then}

abbrev pub is_kept : SlotState → Bool
is_kept SlotState.all_protected = true
is_kept SlotState.begin_protected = true
is_kept _ = false

-- The slot of a region that is kept protected.
abbrev pub kept : ℕ → ℤ → Slot → Slot
kept filename lineno t =
    if is_zero_ℤ lineno then record t { state = SlotState.all_protected } else record t {
      state = SlotState.all_protected;
      file_source = FileSource.deallocation;
      filename = filename;
      lineno = lineno;
    }

module _ {W : Type 0} (env : Env W) where
  -- The slot of an address that a caller names; with none, the abort shows the nearest.
  unfoldable pub find_slot : ℕ → M W (ℕ × Slot)
  unfolding slot_for_user_address nearest_slot_for_user_address
  find_slot address s = elim (slot_for_user_address s.slots address) [
    | some i ↦ elim (get_elem? s.slots i) [ some t ↦ ok (i, t) s | none ↦ fault ]
    | none ↦ elim (nearest_slot_for_user_address s.slots address) [
      | some i ↦ elim (get_elem? s.slots i) [
        | some t ↦ abort (Abort.corrupted address t.user_address t.file_source)
        | none ↦ fault
      ]
      | none ↦ abort (Abort.not_from_duma address)
    ]
  ]

  unfoldable pub check_this : Slot → M W (Unit {0})
  unfolding check_slack
  check_this t s = elim (check_slack s.settings.slackfill t s.memory) [
    | some e ↦ abort e
    | none ↦ ok tt s
  ]

  unfoldable pub touch_user : Slot → M W (Unit {0})
  unfolding touch
  touch_user t s =
      if s.settings.free_access
      then ok tt (record s { memory = touch t.user_size t.user_address s.memory })
      else ok tt s

  -- Room under DUMA_PROTECT_FREE for a region of so many kB.
  unfoldable pub make_room : ℕ → M W (Unit {0})
  unfolding reduce_protected_memory ◌+ℤ◌
  make_room kb s =
      let limit = s.settings.protect_free in
      if ltb_ℤ (pos 0) limit
        && ltb_ℤ limit (s.sum_protected +ℤ pos kb)
        && ltb_ℤ (pos kb) limit
        && leb_ℤ (pos kb) s.sum_protected
      then (do reduce_protected_memory env kb; pure tt) s
      else ok tt s

  -- Whether a freed region is kept protected.
  unfoldable pub keeps : Slot → ℕ → State W → Bool
  unfolding ◌+ℤ◌
  keeps t kb s =
      let limit = s.settings.protect_free in
      not (is_internal t.allocator)
      && (ltb_ℤ limit (pos 0) || (ltb_ℤ (pos 0) limit && leb_ℤ (s.sum_protected +ℤ pos kb) limit))

  unfoldable pub protect_region : ℕ → Slot → ℕ → ℕ → ℤ → M W (Unit {0})
  unfolding page_deny_access ◌+ℤ◌
  protect_region i t kb filename lineno = do
    page_deny_access env t.internal_address t.internal_size
    modify (λ s. record s {
      slots = set s.slots i (kept filename lineno t);
      sum_protected = s.sum_protected +ℤ pos kb;
    })

  unfoldable pub delete_region : ℕ → Slot → ℕ → M W (Unit {0})
  unfolding page_delete ◌-ℤ◌
  delete_region i t kb = do
    page_delete env t.internal_address t.internal_size
    modify (λ s. record s {
      slots = set s.slots i (emptied t);
      sum_allocated = s.sum_allocated -ℤ pos kb;
      unused_slots = s.unused_slots + 1;
    })

  -- The memory of a slot in use is protected or given back.
  unfoldable pub dispose : ℕ → Slot → ℕ → ℤ → M W (Unit {0})
  unfolding make_room keeps protect_region delete_region
  dispose i t filename lineno = do
    let kb = kilobytes t.internal_size
    make_room kb
    s ← get
    if keeps t kb s then protect_region i t kb filename lineno else delete_region i t kb

  -- The aborts for a slot that is no live buffer of this kind of allocator.
  unfoldable pub check_live : ℕ → Slot → Allocator → M W (Unit {0})
  check_live address t allocator =
      if is_kept t.state
      then stop (Abort.already_freed address t.file_source)
      else (if same_type (alloc_type t.allocator) (alloc_type allocator)
          then pure tt
          else stop (Abort.free_mismatch t.file_source))

  unfoldable pub count_dealloc : M W (Unit {0})
  count_dealloc s = ok tt (record s { num_deallocs = s.num_deallocs + 1 })

  -- `_duma_deallocate` of an address that is neither NULL nor the block for no bytes.
  unfoldable pub deallocate_block : ℕ → Bool → Allocator → ℕ → ℤ → M W (Unit {0})
  unfolding enter leave check_now_and_then find_slot check_live check_this touch_user dispose
      count_dealloc
  deallocate_block address protect_list allocator filename lineno = do
    enter env protect_list
    check_now_and_then env
    (i, t) ← find_slot address
    check_live address t allocator
    count_dealloc
    check_this t
    touch_user t
    dispose i t filename lineno
    leave env protect_list

  -- `_duma_deallocate`
  unfoldable pub deallocate : ℕ → Bool → Allocator → ℕ → ℤ → M W (Unit {0})
  unfolding deallocate_block
  deallocate address protect_list allocator filename lineno s =
      if s.alloc_list == 0
      then abort Abort.free_before_malloc
      else if address == 0 || s.null_addr == address
      then ok tt s
      else deallocate_block address protect_list allocator filename lineno s

  -- `duma_check`
  unfoldable pub check : ℕ → M W (Unit {0})
  unfolding enter leave find_slot check_this
  check address s =
      if address == 0
      then ok tt s
      else (do
        enter env true
        (i, t) ← find_slot address
        when (is_kept t.state) (stop (Abort.already_freed address t.file_source))
        check_this t
        leave env true)
          s

  -- `duma_checkAll`
  unfoldable pub check_all : M W (Unit {0})
  unfolding enter leave check_all_slacks
  check_all = do
    enter env true
    (λ s. elim (check_all_slacks s.settings.slackfill s.slots s.memory) [
      | some e ↦ abort e
      | none ↦ ok tt s
    ])
    leave env true
