-- ===== src/Start/Getenv/Name.antt =====
-- The names of the environment variables of src/duma.c.
use duma.Prelude.{ℕ, List, [], ◌∷◌}

abbrev prefixed : List ℕ → List ℕ
prefixed rest = b'D' ∷ b'U' ∷ b'M' ∷ b'A' ∷ b'_' ∷ rest

abbrev pub alignment : List ℕ
alignment = prefixed (b'A' ∷ b'L' ∷ b'I' ∷ b'G' ∷ b'N' ∷ b'M' ∷ b'E' ∷ b'N' ∷ b'T' ∷ [])

abbrev pub protect_below : List ℕ
protect_below =
    prefixed (
      b'P' ∷ b'R' ∷ b'O' ∷ b'T' ∷ b'E' ∷ b'C' ∷ b'T' ∷ b'_' ∷ b'B' ∷ b'E' ∷ b'L' ∷ b'O' ∷ b'W' ∷ [])

abbrev pub report_all_leaks : List ℕ
report_all_leaks = prefixed (
    b'R' ∷ b'E' ∷ b'P' ∷ b'O' ∷ b'R' ∷ b'T' ∷ b'_' ∷ b'A' ∷ b'L' ∷ b'L' ∷ b'_' ∷ b'L' ∷ b'E' ∷ b'A'
    ∷ b'K' ∷ b'S' ∷ [])

abbrev pub protect_free : List ℕ
protect_free =
    prefixed
      (b'P' ∷ b'R' ∷ b'O' ∷ b'T' ∷ b'E' ∷ b'C' ∷ b'T' ∷ b'_' ∷ b'F' ∷ b'R' ∷ b'E' ∷ b'E' ∷ [])

abbrev pub max_alloc : List ℕ
max_alloc = prefixed (b'M' ∷ b'A' ∷ b'X' ∷ b'_' ∷ b'A' ∷ b'L' ∷ b'L' ∷ b'O' ∷ b'C' ∷ [])

abbrev pub malloc_0_strategy : List ℕ
malloc_0_strategy =
    b'M' ∷ b'A' ∷ b'L' ∷ b'L' ∷ b'O' ∷ b'C' ∷ b'_' ∷ b'0' ∷ b'_' ∷ b'S' ∷ b'T' ∷ b'R' ∷ b'A' ∷ b'T'
    ∷ b'E' ∷ b'G' ∷ b'Y' ∷ []

abbrev pub new_0_strategy : List ℕ
new_0_strategy =
    b'N' ∷ b'E' ∷ b'W' ∷ b'_' ∷ b'0' ∷ b'_' ∷ b'S' ∷ b'T' ∷ b'R' ∷ b'A' ∷ b'T' ∷ b'E' ∷ b'G' ∷ b'Y'
    ∷ []

abbrev pub malloc_failexit : List ℕ
malloc_failexit = prefixed (
    b'M' ∷ b'A' ∷ b'L' ∷ b'L' ∷ b'O' ∷ b'C' ∷ b'_' ∷ b'F' ∷ b'A' ∷ b'I' ∷ b'L' ∷ b'E' ∷ b'X' ∷ b'I'
    ∷ b'T' ∷ [])

abbrev pub free_access : List ℕ
free_access =
    prefixed (b'F' ∷ b'R' ∷ b'E' ∷ b'E' ∷ b'_' ∷ b'A' ∷ b'C' ∷ b'C' ∷ b'E' ∷ b'S' ∷ b'S' ∷ [])

abbrev pub fill : List ℕ
fill = prefixed (b'F' ∷ b'I' ∷ b'L' ∷ b'L' ∷ [])

abbrev pub slackfill : List ℕ
slackfill = prefixed (b'S' ∷ b'L' ∷ b'A' ∷ b'C' ∷ b'K' ∷ b'F' ∷ b'I' ∷ b'L' ∷ b'L' ∷ [])

abbrev pub show_alloc : List ℕ
show_alloc = prefixed (b'S' ∷ b'H' ∷ b'O' ∷ b'W' ∷ b'_' ∷ b'A' ∷ b'L' ∷ b'L' ∷ b'O' ∷ b'C' ∷ [])

abbrev pub suppress_atexit : List ℕ
suppress_atexit = prefixed (
    b'S' ∷ b'U' ∷ b'P' ∷ b'P' ∷ b'R' ∷ b'E' ∷ b'S' ∷ b'S' ∷ b'_' ∷ b'A' ∷ b'T' ∷ b'E' ∷ b'X' ∷ b'I'
    ∷ b'T' ∷ [])

abbrev pub memcpy_overlap : List ℕ
memcpy_overlap = prefixed (
    b'M' ∷ b'E' ∷ b'M' ∷ b'C' ∷ b'P' ∷ b'Y' ∷ b'_' ∷ b'O' ∷ b'V' ∷ b'E' ∷ b'R' ∷ b'L' ∷ b'A' ∷ b'P'
    ∷ [])

abbrev pub output_stacktrace : List ℕ
output_stacktrace = prefixed (
    b'O' ∷ b'U' ∷ b'T' ∷ b'P' ∷ b'U' ∷ b'T' ∷ b'_' ∷ b'S' ∷ b'T' ∷ b'A' ∷ b'C' ∷ b'K' ∷ b'T' ∷ b'R'
    ∷ b'A' ∷ b'C' ∷ b'E' ∷ [])

abbrev pub output_stacktrace_mapfile : List ℕ
output_stacktrace_mapfile = prefixed (
    b'O' ∷ b'U' ∷ b'T' ∷ b'P' ∷ b'U' ∷ b'T' ∷ b'_' ∷ b'S' ∷ b'T' ∷ b'A' ∷ b'C' ∷ b'K' ∷ b'T' ∷ b'R'
    ∷ b'A' ∷ b'C' ∷ b'E' ∷ b'_' ∷ b'M' ∷ b'A' ∷ b'P' ∷ b'F' ∷ b'I' ∷ b'L' ∷ b'E' ∷ [])

abbrev pub output_debug : List ℕ
output_debug =
    prefixed
      (b'O' ∷ b'U' ∷ b'T' ∷ b'P' ∷ b'U' ∷ b'T' ∷ b'_' ∷ b'D' ∷ b'E' ∷ b'B' ∷ b'U' ∷ b'G' ∷ [])

abbrev pub output_stdout : List ℕ
output_stdout =
    prefixed (
      b'O' ∷ b'U' ∷ b'T' ∷ b'P' ∷ b'U' ∷ b'T' ∷ b'_' ∷ b'S' ∷ b'T' ∷ b'D' ∷ b'O' ∷ b'U' ∷ b'T' ∷ [])

abbrev pub output_stderr : List ℕ
output_stderr =
    prefixed (
      b'O' ∷ b'U' ∷ b'T' ∷ b'P' ∷ b'U' ∷ b'T' ∷ b'_' ∷ b'S' ∷ b'T' ∷ b'D' ∷ b'E' ∷ b'R' ∷ b'R' ∷ [])

abbrev pub output_file : List ℕ
output_file =
    prefixed (b'O' ∷ b'U' ∷ b'T' ∷ b'P' ∷ b'U' ∷ b'T' ∷ b'_' ∷ b'F' ∷ b'I' ∷ b'L' ∷ b'E' ∷ [])

abbrev pub skipcount_init : List ℕ
skipcount_init = prefixed (
    b'S' ∷ b'K' ∷ b'I' ∷ b'P' ∷ b'C' ∷ b'O' ∷ b'U' ∷ b'N' ∷ b'T' ∷ b'_' ∷ b'I' ∷ b'N' ∷ b'I' ∷ b'T'
    ∷ [])

abbrev pub check_freq : List ℕ
check_freq = prefixed (b'C' ∷ b'H' ∷ b'E' ∷ b'C' ∷ b'K' ∷ b'_' ∷ b'F' ∷ b'R' ∷ b'E' ∷ b'Q' ∷ [])

abbrev pub disable_banner : List ℕ
disable_banner = prefixed (
    b'D' ∷ b'I' ∷ b'S' ∷ b'A' ∷ b'B' ∷ b'L' ∷ b'E' ∷ b'_' ∷ b'B' ∷ b'A' ∷ b'N' ∷ b'N' ∷ b'E' ∷ b'R'
    ∷ [])
