-- ===== src/Start/Table.antt =====
-- The construction in `_duma_init` of src/duma.c: the block for requests of no bytes, the slot table,
-- and the first free region.
use duma.Prelude.{Bool, false, ℕ, ◌-◌, ◌*◌, ◌/◌, true, false, not, ◌∷◌, ltb, ◌==◌, if◌then◌else◌}
use duma.Prelude.Int.{pos}
use duma.Words.Defs.{add64, sub64, u64, round_up}
use duma.Slots.Types.{SlotState, FileSource, Slot, zero_slot}
use duma.Machine.Env.{Env}
use duma.Machine.State.{InitState, uninitialized, out_constructor, in_init, out_init}
use duma.Machine.Monad.{ok, fault, Abort, M, ◌>>=◌, ◌>>◌, get, modify, stop, when}
use duma.Machine.Paging.{page_create, page_deny_access}
use duma.Allocator.Chunk.{memory_creation_size}
use duma.Allocator.Grow.{fresh_slots}

-- The comparisons of `_duma_s.init_state` with the enumeration.
abbrev pub is_constructed : InitState → Bool
is_constructed out_constructor = true
is_constructed in_init = true
is_constructed out_init = true
is_constructed _ = false

abbrev pub is_begun : InitState → Bool
is_begun uninitialized = false
is_begun _ = true

abbrev pub is_initializing : InitState → Bool
is_initializing in_init = true
is_initializing out_init = true
is_initializing _ = false

abbrev pub is_initialized : InitState → Bool
is_initialized out_init = true
is_initialized _ = false

module _ {W : Type 0} (env : Env W) where
  -- The slot of the table itself, so that `allocateMoreSlots` can free it.
  abbrev pub table_slot : ℕ → Slot
  table_slot a = record zero_slot {
    internal_address = a;
    user_address = a;
    internal_size = env.page_size;
    user_size = env.page_size;
    state = SlotState.in_use;
    file_source = FileSource.allocation;
    filename = env.this_file;
    lineno = pos 1161;
  }

  -- The slot of the rest of the first memory.
  abbrev pub rest_slot : ℕ → ℕ → Slot
  rest_slot a size =
      let at = add64 a env.page_size in
      if ltb env.page_size size
      then record zero_slot {
        internal_address = at;
        user_address = at;
        internal_size = sub64 size env.page_size;
        user_size = sub64 size env.page_size;
        state = SlotState.free;
        file_source = FileSource.allocation;
        filename = env.this_file;
        lineno = pos 1173;
      }
      else zero_slot

  unfoldable pub set_init_state : InitState → M W (Unit {0})
  set_init_state i s = ok tt (record s { init_state = i })

  -- The block whose second page's address stands for no bytes.
  unfoldable pub make_null_block : M W (Unit {0})
  unfolding page_create page_deny_access
  make_null_block = do
    b ← page_create env (u64 (2 * env.page_size)) true true
    when (b == 0) (stop (Abort.mmap_failed 0))
    page_deny_access env b (u64 (2 * env.page_size))
    modify (λ s. record s { null_block = b; null_addr = add64 b env.page_size })

  abbrev pub first_size : ℕ
  first_size =
      round_up
        (if ltb memory_creation_size env.page_size then env.page_size else memory_creation_size)
        env.page_size

  -- `slot[0]` and `slot[1]` in a table of a page; the rest of the page's slots are zero.
  unfoldable pub first_table : ℕ → M W (Unit {0})
  unfolding fresh_slots
  first_table a s =
      let n = env.page_size / env.slot_size in
      ok tt (record s {
        alloc_list = a;
        alloc_list_size = env.page_size;
        slots_per_page = n;
        slots = table_slot a ∷ rest_slot a first_size ∷ fresh_slots (n - 2);
        unused_slots = sub64 n 2;
      })

  -- The construction between the two labels of `_duma_init`. Where the system has no memory for the
  -- table, `_duma_g.allocList` is NULL with slots counted, and the code goes through this NULL: in
  -- `reduceProtectedMemory`, or in the `memset` under DUMA_PROTECT_FREE zero.
  unfoldable pub construct : M W (Unit {0})
  unfolding page_create page_deny_access set_init_state make_null_block first_table round_up
  construct = do
    make_null_block
    b ← page_create env first_size false false
    when (b == 0) (λ _. fault)
    first_table b
    page_deny_access env (rest_slot b first_size).internal_address
        (rest_slot b first_size).internal_size
    s ← get
    when (not (is_constructed s.init_state)) (set_init_state out_constructor)
