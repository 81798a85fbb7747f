-- ===== src/Machine/Paging.antt =====
-- paging.h, the Unix variant with MAP_ANONYMOUS.
use duma.Prelude.{ℕ, ◌+◌, ◌-◌, ◌%◌, ◌^◌, Bool, none, some, ltb, if◌then◌else◌}
use duma.Words.Defs.{word, add64}
use duma.Machine.Env.{Env, Protection, prot_none, read_write}
use duma.Machine.Monad.{ok, Abort, abort, M}

-- `(int)size`, as the `size_t` that `mmap` receives.
unfoldable pub int_as_size : ℕ → ℕ
int_as_size n = let low = n % 2 ^ 32 in if ltb low (2 ^ 31) then low else low + (word - 2 ^ 32)

module _ {W : Type 0} (env : Env W) where
  -- `Page_Create`, with 0 for NULL. `print_error` only prints.
  unfoldable pub page_create : ℕ → Bool → Bool → M W ℕ
  unfolding int_as_size
  page_create size exit_on_fail print_error s =
      let (w, answer) = env.mmap s.world s.start_addr (int_as_size size) in
      elim answer [
        | some a ↦ ok a (record s { world = w; start_addr = add64 a size })
        | none ↦
            let s' = record s { world = w; start_addr = add64 (word - 1) size } in
            if exit_on_fail then abort (Abort.mmap_failed size) else ok 0 s'
      ]

  unfoldable pub protect : Protection → ℕ → ℕ → M W (Unit {0})
  protect p a n s =
      let (w, done) = env.mprotect s.world a n p in
      if done then ok tt (record s { world = w }) else abort Abort.mprotect_failed

  -- `Page_AllowAccess` and `Page_DenyAccess`
  unfoldable pub page_allow_access : ℕ → ℕ → M W (Unit {0})
  unfolding protect
  page_allow_access = protect read_write

  unfoldable pub page_deny_access : ℕ → ℕ → M W (Unit {0})
  unfolding protect
  page_deny_access = protect prot_none

  -- `Page_Delete`: what cannot be unmapped is locked.
  unfoldable pub page_delete : ℕ → ℕ → M W (Unit {0})
  unfolding page_deny_access
  page_delete a n s =
      let (w, done) = env.munmap s.world a n in
      let s' = record s { world = w } in if done then ok tt s' else page_deny_access a n s'
