-- ===== src/Machine/Lock.antt =====
-- src/sem_inc.c, the variant with pthread mutexes: a lock that its owner may take again.
pub mod Nesting
pub mod Threads
mod Tests
use duma.Prelude.{◌+◌, ◌-◌, true, none, some, ◌==◌, leb, if◌then◌else◌}
use duma.Prelude.Int.{pos, ◌+ℤ◌, ◌-ℤ◌, is_zero_ℤ}
use duma.Machine.Env.{Env}
use duma.Machine.Monad.{ok, Abort, abort, blocked, M, ◌>>◌}

module _ {W : Type 0} (env : Env W) where
  own : M W (Unit {0})
  own s = ok tt (record s { sem = record s.sem { mutex_id = env.self; lock_nr = pos 1 } })

  wait : M W (Unit {0})
  unfolding own
  wait s = elim (env.mutex_lock s.world) [ none ↦ blocked | some w ↦ own (record s { world = w }) ]

  again : M W (Unit {0})
  unfolding ◌+ℤ◌
  again s = ok tt (record s { sem = record s.sem { lock_nr = s.sem.lock_nr +ℤ pos 1 } })

  -- `lock`: the owner only counts, another waits for the mutex.
  unfoldable pub lock : M W (Unit {0})
  unfolding own wait again
  lock s =
      let (w, got) = env.mutex_trylock s.world in
      let s' = record s { world = w } in
      if got then own s' else (if s.sem.mutex_id == env.self then again s' else wait s')

  release : M W (Unit {0})
  release s = ok tt (record s {
    world = env.mutex_unlock s.world;
    sem = record s.sem { mutex_id = 0; lock_nr = pos 0 };
  })

  -- `unlock`
  unfoldable pub unlock : M W (Unit {0})
  unfolding release ◌-ℤ◌
  unlock s =
      let n = s.sem.lock_nr -ℤ pos 1 in
      if is_zero_ℤ n then release s else ok tt (record s { sem = record s.sem { lock_nr = n } })

  -- `DUMA_init_sem`
  unfoldable pub init_sem : M W (Unit {0})
  init_sem s =
      if s.sem.inited
      then ok tt s
      else (if s.sem.in_init
          then ok tt s
          else ok tt (record s { sem = record s.sem { inited = true } }))

  deepen : M W (Unit {0})
  deepen s = ok tt (record s { sem = record s.sem { depth = s.sem.depth + 1 } })

  -- `DUMA_get_sem`
  unfoldable pub get_sem : M W (Unit {0})
  unfolding lock init_sem deepen
  get_sem s = if s.sem.in_init then ok tt s else (do init_sem; lock; deepen) s

  -- `DUMA_rel_sem`
  unfoldable pub rel_sem : M W (Unit {0})
  unfolding unlock
  rel_sem s =
      if s.sem.in_init
      then ok tt s
      else (if s.sem.inited
          then (if leb s.sem.depth 0
              then abort Abort.sem_not_locked
              else unlock (record s { sem = record s.sem { depth = s.sem.depth - 1 } }))
          else abort Abort.sem_not_inited)
