-- ===== src/Allocator/Live/Calls.antt =====
-- What the calls of the C interface do to the user's buffers, where the slot table is there.
use duma.Allocator.Live.Allocation.{when-Calm}
use duma.Prelude.{inl, inr, ◌∙◌, ℕ, ◌+◌, ◌<◌, ◌≡◌, refl, arith, true, not, suc, ◌==◌, Option-cases}
use duma.Prelude.Int.{ℤ, negsuc}
use duma.Words.Defs.{word, u64}
use duma.Slots.Types.{Allocator}
use duma.Machine.Env.{Env}
use duma.Machine.State.{State}
use duma.Machine.Monad.{
  pure, when, ◌>>◌, M, ok, Result, out_of_fuel, runs_out, Ensures, returns, ensures, Ensures-bind,
}
use duma.Strings.{Outcome, copied, copy_loop, unsigned_wrap}
use duma.Allocator.Request.{Request}
use duma.Allocator.Api.{
  allocate_started, scan, start_up, request, allocate_started, malloc, free, string_size,
  copy_string, copy_of, strdup,
}
use duma.Allocator.Live.{Kept, Kept-refl}
use duma.Allocator.Live.Steps.{Calm}
use duma.Allocator.Live.Answers.{Answered, null, no_bytes, placed}
use duma.Allocator.Live.Growth.{allocate-Answered}
use duma.Allocator.Live.Freeing.{Disposed, nothing, removed, deallocate-Disposed}

-- The settings, the state of the start and the table are still there.
pub record Steady {W : Type 0} (s t : State W) : Type 0 where
  pub settings : t.settings ≡ s.settings
  pub init_state : t.init_state ≡ s.init_state
  pub table : 0 < s.alloc_list → 0 < t.alloc_list

module _ {W : Type 0} where
  pub Steady-trans : {s t u : State W} → Steady s t → Steady t u → Steady s u
  Steady-trans p q = record {
    settings = q.settings ∙ p.settings;
    init_state = q.init_state ∙ p.init_state;
    table = λ h. q.table (p.table h);
  }

  pub Kept-Steady : {s t : State W} → Kept s t → Steady s t
  Kept-Steady k = record { settings = k.settings; init_state = k.init_state; table = k.table }

  pub Answered-Steady : {r : Request} {a : ℕ} {s t : State W} → Answered r a s t → Steady s t
  Answered-Steady (null e k) = Kept-Steady k
  Answered-Steady (no_bytes e n k) = Kept-Steady k
  Answered-Steady (placed p) = record {
    settings = p.settings;
    init_state = p.init_state;
    table = p.table;
  }

  pub Disposed-Steady : {a : ℕ} {al : Allocator} {s t : State W} → Disposed a al s t → Steady s t
  Disposed-Steady (nothing h k) = Kept-Steady k
  Disposed-Steady (removed i u here address kind q) = record {
    settings = q.settings;
    init_state = q.init_state;
    table = q.table;
  }

module _ {W : Type 0} (env : Env W) (init : M W (Unit {0})) (filename : ℕ) (lineno : ℤ) where
  pub start_up-started :
      (s : State W) → 0 < s.alloc_list → start_up env init filename lineno s ≡ ok tt s
  unfolding start_up
  start_up-started s h = ground arith

  string_size-Calm : (f a : ℕ) (s : State W) → Calm s (string_size env init filename lineno f a s)
  unfolding string_size
  string_size-Calm f a s = ensures _ λ n t e.
      elim (Option-cases (scan env init filename lineno f a s.memory)) [
        | inl h ↦ ground (arith, e, h)
        | inr (k, h) ↦ let same : t ≡ s = ground (arith, e, h) in rw same (Kept-refl s)
      ]

  copy_string-Calm :
      (dup str size : ℕ) (s : State W)
      → Calm s (copy_string env init filename lineno dup str size s)
  unfolding copy_string
  copy_string-Calm dup str size s =
      outcome (copy_loop (suc (suc size)) unsigned_wrap 0 (suc size) dup str s.memory)
    where
      outcome :
          (o : Outcome)
          → Calm s (elim o as (λ x. Result (State W) (Unit {0})) [
            | copied m ↦ ok tt (record s { memory = m })
            | _ ↦ out_of_fuel
          ])
      outcome (copied m) = returns (record {
        settings = refl;
        null_addr = refl;
        init_state = refl;
        table = λ h. h;
        buffers = λ i. refl;
      })
      outcome _ = runs_out

  pub copy_of-Steady :
      (rounds str : ℕ) (s : State W)
      → 0 < s.alloc_list
      → Ensures (λ _ t. Steady s t) (copy_of env init filename lineno rounds str s)
  unfolding copy_of
  copy_of-Steady rounds str s there = rw (start_up-started s there) (
      Ensures-bind (string_size-Calm rounds str s) λ size s1 k1.
        let r : Request =
          request env init filename lineno Allocator.strdup 0 (u64 (size + 1)) (negsuc 0) true s in
        Ensures-bind {k = finish size} (allocate-Answered env r s1) λ a s2 q.
          Ensures-bind {k = λ _. pure a}
            (when-Calm env (not (a == 0)) (copy_string env init filename lineno a str size) s2
              (copy_string-Calm a str size s2))
            λ _ s3 k3.
              returns {a = a}
                (Steady-trans (Kept-Steady k1) (Steady-trans (Answered-Steady q) (Kept-Steady k3))))
    where
      finish : ℕ → ℕ → M W ℕ
      finish size a = do
        when (not (a == 0)) (copy_string env init filename lineno a str size)
        pure a

  pub strdup-Steady :
      (str : ℕ) (s : State W)
      → 0 < s.alloc_list
      → Ensures (λ _ t. Steady s t) (strdup env init filename lineno str s)
  unfolding strdup
  strdup-Steady str s there = copy_of-Steady word str s there

  -- A call of `_duma_malloc` once the table is there.
  pub malloc-Answered :
      (size : ℕ) (s : State W)
      → 0 < s.alloc_list
      → Ensures
          (λ a t.
            Answered
              (request env init filename lineno Allocator.malloc 0 size s.settings.fill true s)
              a
              s
              t)
          (malloc env init filename lineno size s)
  unfolding malloc allocate_started
  malloc-Answered size s there = rw (start_up-started s there) (allocate-Answered env _ s)

  pub free-Disposed :
      (a : ℕ) (s : State W)
      → 0 < s.alloc_list
      → Ensures (λ _ t. Disposed a Allocator.dealloc s t) (free env init filename lineno a s)
  unfolding free
  free-Disposed a s there =
      rw (start_up-started s there)
        (deallocate-Disposed env a true Allocator.dealloc filename lineno s)

-- Once the table is there, no call runs `_duma_init`.
module _ {W : Type 0} (env : Env W) (init init' : M W (Unit {0})) (filename : ℕ) (lineno : ℤ)
    (s : State W) (there : 0 < s.alloc_list) where
  left : start_up env init filename lineno s ≡ ok tt s
  left = start_up-started env init filename lineno s there

  right : start_up env init' filename lineno s ≡ ok tt s
  right = start_up-started env init' filename lineno s there

  pub malloc_either :
      (size : ℕ) → malloc env init filename lineno size s ≡ malloc env init' filename lineno size s
  unfolding malloc allocate_started
  malloc_either size = rw (left, right) refl

  pub free_either : (a : ℕ) → free env init filename lineno a s ≡ free env init' filename lineno a s
  unfolding free
  free_either a = rw (left, right) refl

  copy_of_either :
      (rounds str : ℕ)
      → copy_of env init filename lineno rounds str s
        ≡ copy_of env init' filename lineno rounds str s
  unfolding copy_of
  copy_of_either rounds str = rw (left, right) refl

  pub strdup_either :
      (str : ℕ) → strdup env init filename lineno str s ≡ strdup env init' filename lineno str s
  unfolding strdup
  strdup_either str = copy_of_either word str
