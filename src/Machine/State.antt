-- ===== src/Machine/State.antt =====
-- The global variables of src/duma.c and the thread's variables of duma.h, in one record.
use duma.Prelude.{ℕ, Bool, true, false, List, []}
use duma.Prelude.Int.{ℤ, pos, negsuc}
use duma.Memory.{Memory}
use duma.Slots.Types.{Slot}

-- The variables that the environment sets; `fill` is -1 for none.
pub record Settings : Type 0 where
  pub alignment : ℕ
  pub protect_below : Bool
  pub fill : ℤ
  pub disable_banner : Bool
  pub skipcount_init : Bool
  pub check_freq : ℕ
  pub report_all_leaks : Bool
  pub slackfill : ℕ
  pub protect_free : ℤ
  pub max_alloc : ℤ
  pub malloc_0_strategy : ℕ
  pub new_0_strategy : ℕ
  pub malloc_failexit : Bool
  pub free_access : Bool
  pub show_alloc : Bool
  pub suppress_atexit : Bool
  pub memcpy_overlap : Bool

-- The variables DUMA_OUTPUT_DEBUG to DUMA_OUTPUT_STACKTRACE_MAPFILE; a string is its address.
pub record Outputs : Type 0 where
  pub debug : Bool
  pub stdout : Bool
  pub stderr : Bool
  pub file : ℕ
  pub stacktrace : Bool
  pub stacktrace_mapfile : ℕ

-- `enum _DUMA_InitState`
pub data InitState : Type 0 where
  uninitialized in_constructor out_constructor in_init out_init : InitState

-- The variables of src/sem_inc.c.
pub record Sem : Type 0 where
  pub in_init : Bool
  pub inited : Bool
  pub depth : ℕ
  pub mutex_id : ℕ
  pub lock_nr : ℤ

-- The process: `_duma_s` and `_duma_g`, the bytes of memory, the address hint of paging.h, the
-- semaphore, and the kernel. The sums are in kB. `alloc_list` is the address of the slot table, whose
-- content is `slots`; `slotCount` is the length of that list.
pub record State (W : Type 0) : Type 0 where
  pub world : W
  pub memory : Memory
  pub settings : Settings
  pub outputs : Outputs
  pub slots : List Slot
  pub alloc_list : ℕ
  pub alloc_list_size : ℕ
  pub unused_slots : ℕ
  pub slots_per_page : ℕ
  pub sum_allocated : ℤ
  pub sum_total_allocated : ℤ
  pub sum_protected : ℤ
  pub num_allocs : ℕ
  pub num_deallocs : ℕ
  pub check_freq_counter : ℕ
  pub init_state : InitState
  pub null_block : ℕ
  pub null_addr : ℕ
  pub start_addr : ℕ
  pub sem : Sem

-- The initial values; `min_alignment` is DUMA_MIN_ALIGNMENT.
abbrev pub default_settings : ℕ → Settings
default_settings min_alignment = record {
  alignment = min_alignment;
  protect_below = false;
  fill = pos 255;
  disable_banner = false;
  skipcount_init = false;
  check_freq = 0;
  report_all_leaks = false;
  slackfill = 0xaa;
  protect_free = negsuc 0;
  max_alloc = negsuc 0;
  malloc_0_strategy = 3;
  new_0_strategy = 3;
  malloc_failexit = true;
  free_access = false;
  show_alloc = false;
  suppress_atexit = false;
  memcpy_overlap = false;
}

abbrev pub initial_outputs : Outputs
initial_outputs = record {
  debug = false;
  stdout = false;
  stderr = true;
  file = 0;
  stacktrace = false;
  stacktrace_mapfile = 0;
}

abbrev pub initial_sem : Sem
initial_sem = record { in_init = false; inited = true; depth = 0; mutex_id = 0; lock_nr = pos 0 }

abbrev pub initial_state : {W : Type 0} → ℕ → W → Memory → State W
initial_state min_alignment w m = record {
  world = w;
  memory = m;
  settings = default_settings min_alignment;
  outputs = initial_outputs;
  slots = [];
  alloc_list = 0;
  alloc_list_size = 0;
  unused_slots = 0;
  slots_per_page = 0;
  sum_allocated = pos 0;
  sum_total_allocated = pos 0;
  sum_protected = pos 0;
  num_allocs = 0;
  num_deallocs = 0;
  check_freq_counter = 0;
  init_state = uninitialized;
  null_block = 0;
  null_addr = 0;
  start_addr = 0;
  sem = initial_sem;
}
