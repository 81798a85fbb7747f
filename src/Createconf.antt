-- ===== src/Createconf.antt =====
-- src/createconf.c: the tool that writes duma_config.h. It is built by the GNU compiler on Linux.
-- What the machine and the C library do are parameters; an access that the machine refuses ends the
-- process, with the file as it was written last.
pub mod Switches
pub mod Decided
pub mod Least
mod Tests
use duma.Prelude.{
  ℕ, zero, suc, ◌+◌, ◌%◌, ◌/◌, Bool, true, false, ◌&&◌, ◌||◌, Option, none, some, List, [], ◌∷◌,
  ltb, leb, ◌==◌, if◌then◌else◌, get_elem?,
}
use duma.Createconf.Switches.{Macro, Line, lines_for}

-- `DataType_T`; the name is its text in the file.
pub record IntType : Type 0 where
  pub size : ℕ
  pub type : List ℕ
  pub c99 : Bool

-- The types that `testAlignment` stores.
pub data Stored : Type 0 where
  char_store short_store int_store long_store float_store double_store : Stored
  long_double_store fast32_store fast64_store long_long_store : Stored

-- The compilation and the machine. `accepts` tells whether a store at an address goes well, and
-- `same_block` what `malloc(0)` answers twice.
pub record Platform : Type 0 where
  pub page_size : ℕ
  pub int_types : List IntType
  pub pointer_size : ℕ
  pub size_t_size : ℕ
  pub float_size : ℕ
  pub double_size : ℕ
  pub long_double_size : ℕ
  pub have_c99 : Bool
  pub initattr_ok : Bool
  pub first_empty : ℕ
  pub second_empty : ℕ
  pub buffer : ℕ
  pub accepts : Stored → ℕ → Bool
  pub can_open : Bool
  pub flags : Macro → Bool

-- The content of duma_config.h, as far as it depends on anything; `sections` gives the lines for
-- each kind of library.
pub record Config : Type 0 where
  pub sections : (Macro → Bool) → List Line
  pub includes_stdint : Bool
  pub duma_page_size : ℕ
  pub min_alignment : ℕ
  pub gnu_init_attr : Bool
  pub duma_addr : Option (List ℕ)
  pub duma_size : Option (List ℕ)
  pub default_malloc_0_strategy : ℕ

-- The first type of at least a size, by its place.
unfoldable pub detect_type : ℕ → ℕ → List IntType → Option ℕ
detect_type size i [] = none
detect_type size i (t ∷ rest) =
    let next = detect_type size (suc i) rest in if leb size t.size then some i else next

-- `if (max_sizeof < n) max_sizeof = n;`
unfoldable pub larger : ℕ → ℕ → ℕ
larger m n = if ltb m n then n else m

unfoldable pub largest_type : ℕ → List IntType → ℕ
unfolding larger
largest_type m [] = m
largest_type m (t ∷ rest) = largest_type (larger m t.size) rest

unfoldable pub max_sizeof : Platform → ℕ
unfolding larger largest_type
max_sizeof k =
    larger (larger (larger (largest_type 0 k.int_types) k.float_size) k.double_size)
      k.long_double_size

-- The test of `malloc(0)`.
unfoldable pub detect_malloc_0 : Platform → ℕ
detect_malloc_0 k =
    if k.first_empty == 0 then 1 else if k.first_empty == k.second_empty then 2 else 3

-- The stores at one address, in the order of the code.
unfoldable pub stores_at : Platform → ℕ → Bool
stores_at k a =
    k.accepts char_store a
    && k.accepts short_store a
    && k.accepts int_store a
    && k.accepts long_store a
    && k.accepts float_store a
    && k.accepts double_store a
    && k.accepts long_double_store a
    && (if k.have_c99 then k.accepts fast32_store a && k.accepts fast64_store a else true)
    && k.accepts long_long_store a

-- `testAlignment` from an offset on, for so many offsets: whether the process goes on.
unfoldable pub test_offsets : Platform → ℕ → ℕ → ℕ → Bool
unfolding stores_at
test_offsets k alignment zero offset = true
test_offsets k alignment (suc n) offset =
    let rest = test_offsets k alignment n (suc offset) in
    if (k.buffer + offset) % alignment == 0 then stores_at k (k.buffer + offset) && rest else rest

unfoldable pub test_alignment : Platform → ℕ → ℕ → Bool
unfolding test_offsets
test_alignment k alignment size = test_offsets k alignment size 0

-- The name of the type at a place.
unfoldable pub type_at : Platform → Option ℕ → Option (List ℕ)
type_at k none = none
type_at k (some i) = elim (get_elem? k.int_types i) [ none ↦ none | some t ↦ some t.type ]

unfoldable pub is_c99 : Platform → Option ℕ → Bool
is_c99 k none = false
is_c99 k (some i) = elim (get_elem? k.int_types i) [ none ↦ false | some t ↦ t.c99 ]

-- The content that `writeFile` writes.
unfoldable pub write_file : Platform → Option ℕ → Option ℕ → ℕ → ℕ → Config
unfolding lines_for type_at is_c99
write_file k addr_idx size_idx alignment malloc_0 = record {
  sections = lines_for k.flags;
  includes_stdint = is_c99 k addr_idx;
  duma_page_size = k.page_size;
  min_alignment = alignment;
  gnu_init_attr = k.initattr_ok;
  duma_addr = type_at k addr_idx;
  duma_size = type_at k size_idx;
  default_malloc_0_strategy = malloc_0;
}

-- `writeFile`, in what it leaves: a file that cannot be opened keeps its content.
unfoldable pub save : Bool → Config → Option Config → Option Config
save can_open new old = if can_open then some new else old

-- The loop over the alignments: the file that is there when the process ends, by its own or by an
-- access that is refused. `write` writes the file of an alignment.
unfoldable pub detect_alignment :
    ℕ → Platform → ℕ → (ℕ → Config) → ℕ → Option Config → Option Config
unfolding test_alignment save
detect_alignment zero k size write alignment file = file
detect_alignment (suc f) k size write alignment file = elim (test_alignment k alignment size) [
  | false ↦ file
  | true ↦ elim (alignment / 2) [
    | zero ↦ save k.can_open (write alignment) file
    | suc a ↦ detect_alignment f k size write (suc a) (save k.can_open (write alignment) file)
  ]
]

-- `main`, with `file` as the file that was there before.
unfoldable pub main : Platform → Option Config → Option Config
unfolding detect_type max_sizeof detect_malloc_0 write_file detect_alignment
main k file =
    let addr_idx = detect_type k.pointer_size 0 k.int_types in
    let size_idx = detect_type k.size_t_size 0 k.int_types in
    let size = max_sizeof k in
    let malloc_0 = detect_malloc_0 k in
    detect_alignment (suc size) k size (λ a. write_file k addr_idx size_idx a malloc_0) size file
