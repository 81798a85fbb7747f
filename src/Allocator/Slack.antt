-- ===== src/Allocator/Slack.antt =====
-- The no man's land of duma_hlp.h: the accessible bytes of a region around the user's block.
pub mod Laws
use duma.Prelude.{
  ℕ, zero, suc, ◌+◌, ◌-◌, ◌%◌, Bool, true, false, Option, none, some, List, [], ◌∷◌, ltb, ◌==◌,
  if◌then◌else◌,
}
use duma.Memory.{Memory, store, fill, all_bytes}
use duma.Slots.Types.{SlotState, Slot, is_state}
use duma.Machine.Monad.{Abort, overwrite_below, overwrite_above}

-- `accBegAddr` and `accEndAddr`, by the side on which the dead page lies.
unfoldable pub acc_begin : Slot → ℕ
acc_begin s = if ltb s.prot_address s.user_address then s.user_address else s.internal_address

unfoldable pub acc_end : Slot → ℕ
acc_end s =
    if ltb s.prot_address s.user_address
    then s.internal_address + s.internal_size
    else s.prot_address

abbrev pub user_end : Slot → ℕ
user_end s = s.user_address + s.user_size

-- `_duma_init_slack`
unfoldable pub init_slack : ℕ → Slot → Memory → Memory
unfolding acc_begin acc_end
init_slack slackfill s m =
    if s.user_size == 0
    then m
    else fill (acc_end s - user_end s) (user_end s) (slackfill % 256)
        (fill (s.user_address - acc_begin s) (acc_begin s) (slackfill % 256) m)

-- `_duma_check_slack`: the abort that it ends in, if any.
unfoldable pub check_slack : ℕ → Slot → Memory → Option Abort
unfolding acc_begin acc_end
check_slack slackfill s m =
    if s.user_size == 0
    then none
    else (if s.internal_address == 0
        then none
        else (if all_bytes (s.user_address - acc_begin s) (acc_begin s) (slackfill % 256) m
            then (if all_bytes (acc_end s - user_end s) (user_end s) (slackfill % 256) m
                then none
                else some (overwrite_above s.user_address))
            else some (overwrite_below s.user_address)))

-- `_duma_check_all_slacks`
unfoldable pub check_all_slacks : ℕ → List Slot → Memory → Option Abort
unfolding check_slack
check_all_slacks slackfill [] m = none
check_all_slacks slackfill (s ∷ rest) m =
    let later = check_all_slacks slackfill rest m in
    if is_state SlotState.in_use s.state
    then (if s.user_size == 0
        then later
        else elim (check_slack slackfill s m) [ none ↦ later | some e ↦ some e ])
    else later

-- The loop under DUMA_FREE_ACCESS: each byte is written and put back, from the last one down.
unfoldable pub touch : ℕ → ℕ → Memory → Memory
touch zero a m = m
touch (suc n) a m =
    touch n a (store (store m (a + n) ((m (a + n) + 255) % 256)) (a + n) (m (a + n)))
