-- ===== src/Allocator/Api.antt =====
-- The C library's allocation functions as src/duma.c defines them. Where the table is not set up
-- they call `_duma_init` first, which is the parameter `init` since it calls them in turn. `malloc`
-- and the like are `_duma_malloc` with the file name `unknown_file` and line 0; the functions here
-- take the file name and the line.
use duma.Prelude.{
  ℕ, zero, suc, not, ◌+◌, ◌-◌, ◌*◌, Bool, true, false, Option, none, some, ltb, ◌==◌, if◌then◌else◌,
  get_elem?,
}
use duma.Prelude.Int.{ℤ, pos, negsuc}
use duma.Words.Defs.{word, u64}
use duma.Memory.{Memory, fill}
use duma.Layout.{passes_posix_test}
use duma.Slots.{slot_for_user_address}
use duma.Slots.Types.{Allocator}
use duma.Machine.Env.{Env}
use duma.Machine.State.{State}
use duma.Machine.Monad.{ok, abort, fault, Abort, M, ◌>>=◌, ◌>>◌, pure, get, when, out_of_fuel}
use duma.Machine.Paging.{page_allow_access, page_deny_access}
use duma.Allocator.Request.{Request}
use duma.Allocator.Guard.{enter, leave}
use duma.Allocator.Deallocate.{deallocate}
use duma.Allocator.Grow.{allocate}
use duma.Strings.{Outcome, copied, overlaps, endless, unsigned_wrap, copy_loop, memcpy}

module _ {W : Type 0} (env : Env W) (init : M W (Unit {0})) (filename : ℕ) (lineno : ℤ) where
  -- A request with the thread's PROTECT_BELOW, which may exit on failure.
  abbrev pub request : Allocator → ℕ → ℕ → ℤ → Bool → State W → Request
  request allocator alignment size fill_byte protect_list s = record {
    alignment = alignment;
    user_size = size;
    protect_below = s.settings.protect_below;
    fill_byte = fill_byte;
    protect_alloc_list = protect_list;
    allocator = allocator;
    fail_env = true;
    filename = filename;
    lineno = lineno;
  }

  -- `if (_duma_g.allocList == 0) _duma_init();`
  unfoldable pub start_up : M W (Unit {0})
  start_up s = if s.alloc_list == 0 then init s else ok tt s

  -- A call of `_duma_allocate` with the settings that the start left.
  unfoldable pub allocate_started : Allocator → ℕ → ℕ → (State W → ℤ) → M W ℕ
  unfolding allocate start_up
  allocate_started allocator alignment size fill_byte = do
    start_up
    s ← get
    allocate env (request allocator alignment size (fill_byte s) true s)

  unfoldable pub user_fill : State W → ℤ
  user_fill s = s.settings.fill

  -- `_duma_malloc`
  unfoldable pub malloc : ℕ → M W ℕ
  unfolding allocate_started user_fill
  malloc size = allocate_started Allocator.malloc 0 size user_fill

  -- `_duma_calloc`: the product is not checked.
  unfoldable pub calloc : ℕ → ℕ → M W ℕ
  unfolding allocate_started
  calloc nelem elsize = allocate_started Allocator.calloc 0 (u64 (nelem * elsize)) (λ _. pos 0)

  -- `_duma_free`
  unfoldable pub free : ℕ → M W (Unit {0})
  unfolding deallocate start_up
  free address = do start_up; deallocate env address true Allocator.dealloc filename lineno

  -- `_duma_memalign`
  unfoldable pub memalign : ℕ → ℕ → M W ℕ
  unfolding allocate_started user_fill
  memalign alignment size = allocate_started Allocator.memalign alignment size user_fill

  -- `_duma_posix_memalign`: the error number, with what is stored through `memptr`, if anything.
  pub data PosixError : Type 0 where
    no_error einval enomem : PosixError

  unfoldable pub posix_memalign : ℕ → ℕ → M W (PosixError × Option ℕ)
  unfolding allocate_started user_fill passes_posix_test
  posix_memalign alignment size s =
      if passes_posix_test env.pointer_size alignment
      then (do
        a ← allocate_started Allocator.posix_memalign alignment size user_fill
        pure (if a == 0 then (enomem, some 0) else (no_error, some a)))
          s
      else ok (einval, none) s

  -- `_duma_valloc`
  unfoldable pub valloc : ℕ → M W ℕ
  unfolding allocate_started user_fill
  valloc size = allocate_started Allocator.valloc env.page_size size user_fill

  -- The copy of the old buffer's bytes into a larger or smaller one, by the library's own checked
  -- `memcpy`; the rest is zero.
  unfoldable pub carry_over : Bool → ℕ → ℕ → ℕ → ℕ → Memory → Outcome
  unfolding memcpy fill
  carry_over tolerant to from old_size new_size m =
      if ltb old_size new_size
      then elim (memcpy tolerant to from old_size m) [
        | copied m' ↦ copied (fill (new_size - old_size) (to + old_size) 0 m')
        | overlaps ↦ overlaps
        | endless ↦ endless
      ]
      else memcpy tolerant to from new_size m

  -- How the copy ends: `memcpy` aborts on an overlap.
  unfoldable pub end_copy : ℕ → ℕ → Outcome → M W (Unit {0})
  end_copy a old (copied m) s = ok tt (record s { memory = m })
  end_copy a old overlaps s = abort (Abort.memory_overlap a old)
  end_copy a old endless s = out_of_fuel

  -- The copy out of the old buffer, whose slot the table must hold.
  unfoldable pub carry : ℕ → ℕ → ℕ → M W (Unit {0})
  unfolding carry_over end_copy slot_for_user_address
  carry old size a s = elim (slot_for_user_address s.slots old) [
    | none ↦ abort (Abort.not_from_malloc old)
    | some i ↦ elim (get_elem? s.slots i) [
      | none ↦ fault
      | some slot ↦
          end_copy a old (carry_over s.settings.memcpy_overlap a old slot.user_size size s.memory) s
    ]
  ]

  -- `_duma_realloc` of a buffer, once there is a new one.
  unfoldable pub finish_move : ℕ → ℕ → ℕ → M W ℕ
  unfolding carry deallocate
  finish_move old size a = do
    carry old size a
    deallocate env old false Allocator.realloc filename lineno
    pure a

  -- `_duma_realloc` of a buffer to a size of at least a byte.
  unfoldable pub move_buffer : ℕ → ℕ → M W ℕ
  unfolding allocate finish_move
  move_buffer old size = do
    s ← get
    a ← allocate env (request Allocator.realloc 0 size (negsuc 0) false s)
    if a == 0 then pure a else finish_move old size a

  -- `_duma_realloc` of a buffer to no bytes.
  unfoldable pub free_old : ℕ → M W ℕ
  unfolding deallocate
  free_old old = do deallocate env old false Allocator.realloc filename lineno; pure 0

  -- What `_duma_realloc` does inside the lock.
  unfoldable pub realloc_inside : ℕ → ℕ → M W ℕ
  unfolding allocate free_old move_buffer
  realloc_inside old size s =
      if old == 0
      then allocate env (request Allocator.realloc 0 size s.settings.fill false s) s
      else (if size == 0 then free_old old s else move_buffer old size s)

  -- `_duma_realloc`
  unfoldable pub realloc : ℕ → ℕ → M W ℕ
  unfolding enter leave realloc_inside start_up
  realloc old size = do
    start_up
    enter env true
    a ← realloc_inside old size
    leave env true
    pure a

  -- `while (str[size]) ++size;` from address `a` on; memory has 2^64 bytes, and so many rounds.
  unfoldable pub scan : ℕ → ℕ → Memory → Option ℕ
  scan zero a m = none
  scan (suc f) a m = elim (m a == 0) [
    | true ↦ some 0
    | false ↦ elim (scan f (a + 1) m) [ none ↦ none | some n ↦ some (suc n) ]
  ]

  unfoldable pub string_size : ℕ → ℕ → M W ℕ
  unfolding scan
  string_size rounds str s = elim (scan rounds str s.memory) [
    | none ↦ out_of_fuel
    | some n ↦ ok n s
  ]

  -- `for (i = 0; i <= size; ++i) dup[i] = str[i];`
  unfoldable pub copy_string : ℕ → ℕ → ℕ → M W (Unit {0})
  unfolding copy_loop
  copy_string dup str size s =
      elim (copy_loop (suc (suc size)) unsigned_wrap 0 (suc size) dup str s.memory) [
        | copied m ↦ ok tt (record s { memory = m })
        | _ ↦ out_of_fuel
      ]

  unfoldable pub copy_of : ℕ → ℕ → M W ℕ
  unfolding allocate string_size copy_string start_up
  copy_of rounds str = do
    start_up
    s ← get
    size ← string_size rounds str
    a ← allocate env (request Allocator.strdup 0 (u64 (size + 1)) (negsuc 0) true s)
    when (not (a == 0)) (copy_string a str size)
    pure a

  -- `_duma_strdup`
  unfoldable pub strdup : ℕ → M W ℕ
  unfolding copy_of
  strdup str = copy_of word str

  -- `_duma_malloc_usable_size`
  unfoldable pub malloc_usable_size : ℕ → M W ℕ
  unfolding page_allow_access page_deny_access slot_for_user_address
  malloc_usable_size address s =
      if address == 0
      then ok 0 s
      else if s.null_addr == address
      then ok 0 s
      else if s.alloc_list == 0
      then abort Abort.size_before_malloc
      else (do
        page_allow_access env s.alloc_list s.alloc_list_size
        size ← (λ t. elim (slot_for_user_address t.slots address) [
          | none ↦ abort (Abort.not_from_malloc address)
          | some i ↦ elim (get_elem? t.slots i) [ none ↦ fault | some slot ↦ ok slot.user_size t ]
        ])
        page_deny_access env s.alloc_list s.alloc_list_size
        pure size)
          s
