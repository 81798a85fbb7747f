-- ===== src/Allocator/Guard.antt =====
-- The lock and the protection of the slot table, and the regular check, around each call.
pub mod Same
use duma.Prelude.{◌+◌, Bool, none, some, ◌==◌, if◌then◌else◌}
use duma.Machine.Env.{Env}
use duma.Machine.Monad.{ok, abort, M, ◌>>=◌, ◌>>◌, get, when}
use duma.Machine.Paging.{page_allow_access, page_deny_access}
use duma.Machine.Lock.{get_sem, rel_sem}
use duma.Allocator.Slack.{check_all_slacks}

module _ {W : Type 0} (env : Env W) where
  -- The lock and the table's protection, around the work on the table.
  unfoldable pub enter : Bool → M W (Unit {0})
  unfolding get_sem page_allow_access
  enter protect_list =
      when protect_list
        do get_sem env; s ← get; page_allow_access env s.alloc_list s.alloc_list_size

  unfoldable pub leave : Bool → M W (Unit {0})
  unfolding rel_sem page_deny_access
  leave protect_list =
      when protect_list do s ← get; page_deny_access env s.alloc_list s.alloc_list_size; rel_sem env

  -- DUMA_CHECK_FREQ: every so many calls the whole no man's land is checked.
  unfoldable pub check_now_and_then : M W (Unit {0})
  unfolding check_all_slacks
  check_now_and_then s =
      if s.settings.check_freq == 0
      then ok tt s
      else let n = s.check_freq_counter + 1 in
        if n == s.settings.check_freq
        then elim (check_all_slacks s.settings.slackfill s.slots s.memory) [
          | some e ↦ abort e
          | none ↦ ok tt (record s { check_freq_counter = 0 })
        ]
        else ok tt (record s { check_freq_counter = n })
