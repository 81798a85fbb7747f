-- ===== src/Machine/Lock/Nesting.antt =====
-- The lock of src/sem_inc.c, taken and given back by one thread.
use duma.Prelude.{ℕ, suc, ◌≡◌, arith, true, false}
use duma.Prelude.Int.{pos}
use duma.Machine.Env.{Env}
use duma.Machine.State.{State}
use duma.Machine.Monad.{ok, ◌>>◌}
use duma.Machine.Lock.{lock, unlock, init_sem, get_sem, rel_sem}

module _ {W : Type 0} (env : Env W) (s : State W) where
  -- Where nobody has the mutex, taking the lock and giving it back takes the mutex and releases it.
  pub get_sem-rel_sem_free :
      (w : W)
      → s.sem.in_init ≡ false
      → s.sem.inited ≡ true
      → s.sem.mutex_id ≡ 0
      → s.sem.lock_nr ≡ pos 0
      → env.mutex_trylock s.world ≡ (w, true)
      → (get_sem env >> rel_sem env) s ≡ ok tt (record s { world = env.mutex_unlock w })
  unfolding get_sem rel_sem lock unlock init_sem
  get_sem-rel_sem_free w ready inited nobody none_yet got = ground (arith, got)

  -- Where the thread has the mutex already, taking the lock and giving it back changes nothing: the
  -- mutex stays with the thread, which has as many calls open as before.
  pub get_sem-rel_sem_own :
      (n : ℕ)
      → s.sem.in_init ≡ false
      → s.sem.inited ≡ true
      → s.sem.mutex_id ≡ env.self
      → s.sem.lock_nr ≡ pos (suc n)
      → env.mutex_trylock s.world ≡ (s.world, false)
      → (get_sem env >> rel_sem env) s ≡ ok tt s
  unfolding get_sem rel_sem lock unlock init_sem
  get_sem-rel_sem_own n ready inited own count got = ground (arith, got, count)
