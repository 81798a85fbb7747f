-- ===== src/Allocator/Grow.antt =====
-- `allocateMoreSlots`, and `_duma_allocate` with it, of src/duma.c.
use duma.Prelude.{ℕ, zero, suc, ◌+◌, false, List, [], ◌∷◌, ◌++◌, ◌==◌, if◌then◌else◌}
use duma.Prelude.Int.{ℤ, pos, negsuc}
use duma.Words.Defs.{add64}
use duma.Slots.Types.{Allocator, Slot, zero_slot}
use duma.Machine.Env.{Env}
use duma.Machine.Monad.{ok, M, ◌>>=◌, ◌>>◌, pure, get}
use duma.Allocator.Request.{Request}
use duma.Allocator.Allocate.{allocate_with}
use duma.Allocator.Deallocate.{deallocate}

unfoldable pub fresh_slots : ℕ → List Slot
fresh_slots zero = []
fresh_slots (suc n) = zero_slot ∷ fresh_slots n

module _ {W : Type 0} (env : Env W) where
  -- The request for a table that is a page longer. `line` is `__LINE__`.
  abbrev pub table_request : ℕ → ℤ → Request
  table_request size line = record {
    alignment = 1;
    user_size = size;
    protect_below = false;
    fill_byte = negsuc 0;
    protect_alloc_list = false;
    allocator = Allocator.int_alloc;
    fail_env = false;
    filename = env.this_file;
    lineno = line;
  }

  -- The table moves: its slots are copied and a page of empty ones follows them.
  unfoldable pub move_table : ℕ → ℕ → M W (Unit {0})
  unfolding fresh_slots
  move_table address size s = ok tt (record s {
    alloc_list = address;
    alloc_list_size = size;
    slots = s.slots ++ fresh_slots s.slots_per_page;
    unused_slots = s.unused_slots + s.slots_per_page;
  })

  -- `allocateMoreSlots`. An internal request does not grow the table again.
  unfoldable pub allocate_more_slots : M W (Unit {0})
  unfolding allocate_with deallocate move_table
  allocate_more_slots = do
    s ← get
    let size = add64 s.alloc_list_size env.page_size
    a ← allocate_with env (pure tt) (table_request size (pos 1233))
    if a == 0 then pure tt else do
      move_table a size
      deallocate env s.alloc_list false Allocator.int_dealloc env.this_file (pos 1259)

  -- `_duma_allocate`
  unfoldable pub allocate : Request → M W ℕ
  unfolding allocate_with allocate_more_slots
  allocate = allocate_with env allocate_more_slots
