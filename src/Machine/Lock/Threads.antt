-- ===== src/Machine/Lock/Threads.antt =====
-- `lock` and `unlock` of src/sem_inc.c by several threads: each access to the mutex, to `mutextid` and
-- to `locknr` is one step, in any order of the threads. `pthread_self` of a thread is its number and
-- one, which is not 0.
pub mod Exclusion
pub mod Release
use duma.Prelude.{ℕ, zero, suc, ◌+◌, ◌-◌, ◌≡◌, ◌≢◌, Option, none, some, ◌==◌, if◌then◌else◌}

-- The mutex with the thread that has it, and the two variables.
pub record Shared : Type 0 where
  pub holder : Option ℕ
  pub mutex_id : ℕ
  pub lock_nr : ℕ

abbrev pub self_of : ℕ → ℕ
self_of i = i + 1

-- Where a thread stands, with the calls of `lock` that it has open.
pub data Place : Type 0 where
  rest : ℕ → Place  -- in neither function
  compare : ℕ → Place  -- behind `trylock`, which has failed
  waiting : ℕ → Place  -- in `pthread_mutex_lock`
  won : ℕ → Place  -- before `mutextid = ...`
  named : ℕ → Place  -- before `locknr = 1`
  dropped : ℕ → Place  -- behind `--locknr`
  cleared : ℕ → Place  -- before `pthread_mutex_unlock`

-- One step of thread `i`.
pub data Move (i : ℕ) (m : Shared) : Place → Shared → Place → Type 0 where
  try_won : {n : ℕ} → m.holder ≡ none → Move i m (rest n) (record m { holder = some i }) (won n)
  try_lost : {n : ℕ} → m.holder ≢ none → Move i m (rest n) m (compare n)
  again :
      {n : ℕ}
      → m.mutex_id ≡ self_of i
      → Move i m (compare n) (record m { lock_nr = m.lock_nr + 1 }) (rest (suc n))
  other : {n : ℕ} → m.mutex_id ≢ self_of i → Move i m (compare n) m (waiting n)
  wake : {n : ℕ} → m.holder ≡ none → Move i m (waiting n) (record m { holder = some i }) (won n)
  name : {n : ℕ} → Move i m (won n) (record m { mutex_id = self_of i }) (named n)
  count : {n : ℕ} → Move i m (named n) (record m { lock_nr = 1 }) (rest (suc n))
  drop : {n : ℕ} → Move i m (rest (suc n)) (record m { lock_nr = m.lock_nr - 1 }) (dropped n)
  keep : {n : ℕ} → m.lock_nr ≢ 0 → Move i m (dropped n) m (rest n)
  clear : {n : ℕ} → m.lock_nr ≡ 0 → Move i m (dropped n) (record m { mutex_id = 0 }) (cleared n)
  free : {n : ℕ} → Move i m (cleared n) (record m { holder = none }) (rest n)

-- The threads over the shared variables.
pub record System : Type 0 where
  pub shared : Shared
  pub place : ℕ → Place

abbrev pub at : (ℕ → Place) → ℕ → Place → ℕ → Place
at f i p j = if j == i then p else f j

pub data Step (s : System) : System → Type 0 where
  pick :
      (i : ℕ) {m : Shared} {p : Place}
      → Move i s.shared (s.place i) m p
      → Step s (record { shared = m; place = at s.place i p })

abbrev pub initial_system : System
initial_system = record {
  shared = record { holder = none; mutex_id = 0; lock_nr = 0 };
  place = λ _. rest 0;
}

pub data Reach : System → Type 0 where
  start : Reach initial_system
  later : {s t : System} → Reach s → Step s t → Reach t
