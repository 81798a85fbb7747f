-- ===== src/Createconf/Tests.antt =====
-- A run of the tool on a machine that wants addresses at multiples of four.
use duma.Prelude.{ℕ, ◌%◌, ◌≡◌, refl, true, false, Option, none, some, [], ◌∷◌, ◌==◌}
use duma.Createconf.{IntType, Platform, Config, max_sizeof, detect_type, type_at, main}
use duma.Createconf.Least.{IsLeast, main-IsLeast}

abbrev unsigned_long : IntType
unsigned_long = record { size = 8; type = b'l' ∷ []; c99 = false }

abbrev machine : Platform
machine = record {
  page_size = 4096;
  int_types = unsigned_long ∷ [];
  pointer_size = 8;
  size_t_size = 8;
  float_size = 4;
  double_size = 8;
  long_double_size = 16;
  have_c99 = false;
  initattr_ok = true;
  first_empty = 4096;
  second_empty = 4128;
  buffer = 1000;
  accepts = λ kind a. a % 4 == 0;
  can_open = true;
  flags = λ m. false;
}

abbrev alignment_in : Option Config → Option ℕ
alignment_in none = none
alignment_in (some c) = some c.min_alignment

main_run : alignment_in (main machine none) ≡ some 4
unfolding main
main_run = refl

main-IsLeast_example :
    (c : Config) × (main machine none ≡ some c)
    × IsLeast machine (max_sizeof machine) c.min_alignment
    × (c.duma_page_size ≡ 4096)
    × (c.duma_addr ≡ type_at machine (detect_type 8 0 machine.int_types))
    × (c.duma_size ≡ type_at machine (detect_type 8 0 machine.int_types))
unfolding max_sizeof duma.Createconf.test_alignment
main-IsLeast_example = main-IsLeast machine none refl refl
