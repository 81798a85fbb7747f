-- ===== src/Slots/Types.antt =====
-- The enumerations and the slot of src/duma.c, and the allocators of duma.h.
use duma.Prelude.{ℕ, Bool, true, false}
use duma.Prelude.Int.{ℤ, pos}

-- `enum _DUMA_SlotState`
pub data SlotState : Type 0 where
  empty free in_use all_protected begin_protected : SlotState

-- `enum _DUMA_Slot_FileSource`
pub data FileSource : Type 0 where
  no_source allocation deallocation : FileSource

-- `enum _DUMA_AllocType`
pub data AllocType : Type 0 where
  internal malloc_type new_elem_type new_array_type member_new_elem_type member_new_array_type :
      AllocType

-- `enum _DUMA_AllocStd`
pub data AllocStd : Type 0 where
  std_c std_cpp : AllocStd

-- `enum _DUMA_Allocator`
pub data Allocator : Type 0 where
  int_alloc int_dealloc malloc calloc dealloc memalign posix_memalign realloc valloc strdup :
      Allocator
  new_elem del_elem new_array del_array : Allocator
  member_new_elem member_del_elem member_new_array member_del_array : Allocator

-- The `type` and the `std` columns of `_duma_allocDesc`.
abbrev pub alloc_type : Allocator → AllocType
alloc_type int_alloc = internal
alloc_type int_dealloc = internal
alloc_type new_elem = new_elem_type
alloc_type del_elem = new_elem_type
alloc_type new_array = new_array_type
alloc_type del_array = new_array_type
alloc_type member_new_elem = member_new_elem_type
alloc_type member_del_elem = member_new_elem_type
alloc_type member_new_array = member_new_array_type
alloc_type member_del_array = member_new_array_type
alloc_type _ = malloc_type

abbrev pub alloc_std : Allocator → AllocStd
alloc_std new_elem = std_cpp
alloc_std del_elem = std_cpp
alloc_std new_array = std_cpp
alloc_std del_array = std_cpp
alloc_std member_new_elem = std_cpp
alloc_std member_del_elem = std_cpp
alloc_std member_new_array = std_cpp
alloc_std member_del_array = std_cpp
alloc_std _ = std_c

-- `struct _DUMA_Slot`; addresses and the file name are numbers, 0 for NULL.
pub record Slot : Type 0 where
  pub internal_address : ℕ
  pub user_address : ℕ
  pub prot_address : ℕ
  pub internal_size : ℕ
  pub user_size : ℕ
  pub state : SlotState
  pub allocator : Allocator
  pub file_source : FileSource
  pub filename : ℕ
  pub lineno : ℤ

-- A slot of all zero bits, as `memset` leaves it.
abbrev pub zero_slot : Slot
zero_slot = record {
  internal_address = 0;
  user_address = 0;
  prot_address = 0;
  internal_size = 0;
  user_size = 0;
  state = empty;
  allocator = int_alloc;
  file_source = no_source;
  filename = 0;
  lineno = pos 0;
}

-- The tests `STATE == slot->state` and those on the types of two allocators.
abbrev pub is_state : SlotState → SlotState → Bool
is_state empty empty = true
is_state free free = true
is_state in_use in_use = true
is_state all_protected all_protected = true
is_state begin_protected begin_protected = true
is_state _ _ = false

abbrev pub same_type : AllocType → AllocType → Bool
same_type internal internal = true
same_type malloc_type malloc_type = true
same_type new_elem_type new_elem_type = true
same_type new_array_type new_array_type = true
same_type member_new_elem_type member_new_elem_type = true
same_type member_new_array_type member_new_array_type = true
same_type _ _ = false

abbrev pub is_internal : Allocator → Bool
is_internal int_alloc = true
is_internal _ = false
