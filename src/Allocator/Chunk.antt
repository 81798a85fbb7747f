-- ===== src/Allocator/Chunk.antt =====
-- Memory from the system for `_duma_allocate`.
pub mod Fuel
use duma.Prelude.{
  ℕ, zero, suc, ◌+◌, ◌-◌, ◌*◌, ◌/◌, Bool, true, false, not, ◌&&◌, ltb, ◌==◌, if◌then◌else◌, length,
}
use duma.Prelude.Int.{ℤ, pos, ◌+ℤ◌, ltb_ℤ}
use duma.Words.Defs.{word, u64, add64, sub64, round_up}
use duma.Slots.Types.{SlotState}
use duma.Machine.Env.{Env}
use duma.Machine.State.{State}
use duma.Machine.Monad.{ok, abort, out_of_fuel, Abort, M, ◌>>=◌, ◌>>◌, get, pure}
use duma.Machine.Paging.{page_create}
use duma.Allocator.Update.{update_slot}
use duma.Allocator.Reduce.{kilobytes, reduce_protected_memory}

abbrev pub memory_creation_size : ℕ
memory_creation_size = 1024 * 1024

module _ {W : Type 0} (env : Env W) where
  abbrev page : ℕ
  page = env.page_size

  -- The size of the memory that is asked of the system, at least a megabyte.
  unfoldable pub chunk_size : ℕ → ℕ
  unfolding round_up
  chunk_size needed =
      round_up (if ltb memory_creation_size needed then needed else memory_creation_size) page

  -- `reduceProtectedMemory` before the limit of DUMA_MAX_ALLOC is passed.
  unfoldable pub stay_below_limit : ℕ → M W (Unit {0})
  unfolding reduce_protected_memory ◌+ℤ◌
  stay_below_limit chunk_kb s =
      let limit = s.settings.max_alloc in
      if ltb_ℤ (pos 0) limit && ltb_ℤ limit (s.sum_allocated +ℤ pos chunk_kb)
      then (do reduce_protected_memory env chunk_kb; pure tt) s
      else ok tt s

  -- `do { reduce; create again } while (reduce_more && !address)`.
  unfoldable pub retry : ℕ → ℕ → ℕ → M W ℕ
  unfolding reduce_protected_memory page_create
  retry zero size kb = λ _. out_of_fuel
  retry (suc f) size kb = do
    more ← reduce_protected_memory env kb
    a ← page_create env size false false
    elim (more && a == 0) [ true ↦ retry f size kb | false ↦ pure a ]

  -- One round of `retry` that goes on shortens or empties a region.
  abbrev pub retry_fuel : State W → ℕ
  retry_fuel s = suc (length s.slots + length s.slots)

  is_zero_ℤ : ℤ → Bool
  is_zero_ℤ (pos zero) = true
  is_zero_ℤ _ = false

  -- New memory of `count` chunks where the first try failed: with protected memory given back, and
  -- then in a last try that reports the failure.
  unfoldable pub obtain : ℕ → ℕ → Bool → Bool → ℕ → M W ℕ
  unfolding page_create retry is_zero_ℤ
  obtain chunk count last_try exit_on_fail a = λ s.
      if a == 0 && not (is_zero_ℤ s.settings.protect_free)
      then (do
        b ← retry (retry_fuel s) (u64 (chunk * count)) (kilobytes chunk)
        if b == 0 && last_try
            then page_create env (u64 (chunk * count)) exit_on_fail true
            else pure b)
          s
      else ok a s

  -- `numChunks`, and the first try; NULL and SIZE_MAX chunks where the rounding would wrap.
  unfoldable pub first_try : ℕ → ℕ → M W (ℕ × ℕ)
  unfolding page_create
  first_try chunk size s =
      if ltb (sub64 (word - 1) (sub64 chunk 1)) size
      then ok (word - 1, 0) s
      else let count = if size == 0 then 1 else add64 size (sub64 chunk 1) / chunk in
        if count == 0
        then abort Abort.assert_failed
        else (do a ← page_create env (u64 (chunk * count)) false false; pure (count, a)) s

  -- The chosen slot gets the new memory.
  unfoldable pub take_chunk : ℕ → ℕ → ℕ → ℕ → M W (Unit {0})
  unfolding update_slot ◌+ℤ◌
  take_chunk i chunk count a s =
      if a == 0
      then ok tt s
      else let kb = u64 (kilobytes chunk * count) in
        ok tt (record s {
          slots =
              update_slot i
                (λ t. record t {
                  internal_address = a;
                  internal_size = u64 (chunk * count);
                  state = SlotState.free;
                })
                s.slots;
          sum_allocated = s.sum_allocated +ℤ pos kb;
          sum_total_allocated = s.sum_total_allocated +ℤ pos kb;
          unused_slots = sub64 s.unused_slots 1;
        })

  -- Where the search found no region: memory from the system, in the first empty slot. The second
  -- one is left for the rest of it.
  unfoldable pub create_chunk : ℕ → ℕ → Bool → ℕ → M W (Unit {0})
  unfolding chunk_size stay_below_limit obtain first_try take_chunk
  create_chunk needed size fail_env i = do
    let chunk = chunk_size needed
    stay_below_limit (kilobytes chunk)
    (count, a) ← first_try chunk size
    s ← get
    b ← obtain chunk count fail_env s.settings.malloc_failexit a
    take_chunk i chunk count b
