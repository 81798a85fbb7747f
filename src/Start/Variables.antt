-- ===== src/Start/Variables.antt =====
-- `duma_getenvvars` of src/duma.c. What the banner prints is left out.
pub mod Effect
use duma.Prelude.{
  ℕ, ◌+◌, ◌-◌, ◌%◌, ◌^◌, Bool, true, false, not, ◌&&◌, Option, none, some, List, [], ◌∷◌, ltb, leb,
  ◌==◌, if◌then◌else◌,
}
use duma.Prelude.Int.{ℤ, pos, negsuc}
use duma.Words.Defs.{word}
use duma.Machine.Env.{Env}
use duma.Machine.State.{Settings, Outputs, State}
use duma.Machine.Monad.{pure, ok, M, ◌>>=◌, ◌>>◌}
use duma.Allocator.Allocate.{is_minus_one, byte_of}
use duma.Allocator.Api.{strdup}
use duma.Start.Getenv.{getenv}
use duma.Start.Getenv.Name

-- `(size_t)n`
unfoldable pub as_size : ℤ → ℕ
as_size (pos n) = n % word
as_size (negsuc n) = word - 1 - n % word

-- `n != 0`
unfoldable pub non_zero : ℤ → Bool
non_zero (pos n) = ltb 0 n
non_zero (negsuc n) = true

-- The number where it lies between the bounds, else what was there.
unfoldable pub if_within : ℕ → ℕ → ℤ → ℕ → ℕ
if_within low high (pos n) old = if leb low n && leb n high then n else old
if_within low high (negsuc n) old = old

-- What the code makes of the numbers of DUMA_ALIGNMENT, DUMA_FILL and DUMA_CHECK_FREQ.
unfoldable pub alignment_of : ℤ → ℕ
unfolding as_size
alignment_of n = if as_size n == 0 then 1 else as_size n

unfoldable pub fill_of : ℤ → ℤ
fill_of n = if is_minus_one n then n else pos (byte_of n)

unfoldable pub frequency_of : ℤ → ℕ → ℕ
frequency_of (pos n) old = if ltb 0 n then n else old
frequency_of (negsuc n) old = old

-- The function that reads the string's number.
pub data Number : Type 0 where
  int long : Number

-- A variable that sets a number: its name, the function, and what the code does with the number.
abbrev pub Reader : Type 0
Reader = List ℕ × Number × (ℤ → Settings → Settings)

-- The variables up to DUMA_SLACKFILL, those up to DUMA_MEMCPY_OVERLAP, and those behind the output.
unfoldable pub first_readers : List Reader
unfolding non_zero alignment_of if_within fill_of
first_readers =
    (Name.alignment, int, λ n x. record x { alignment = alignment_of n })
    ∷ (Name.protect_below, int, λ n x. record x { protect_below = non_zero n })
    ∷ (Name.report_all_leaks, int, λ n x. record x { report_all_leaks = non_zero n })
    ∷ (Name.protect_free, long, λ n x. record x { protect_free = n })
    ∷ (Name.max_alloc, long, λ n x. record x { max_alloc = n })
    ∷ (
      Name.malloc_0_strategy,
      int,
      λ n x. record x { malloc_0_strategy = if_within 0 3 n x.malloc_0_strategy },
    )
    ∷ (
      Name.new_0_strategy,
      int,
      λ n x. record x { new_0_strategy = if_within 2 3 n x.new_0_strategy },
    )
    ∷ (Name.malloc_failexit, int, λ n x. record x { malloc_failexit = non_zero n })
    ∷ (Name.free_access, int, λ n x. record x { free_access = non_zero n })
    ∷ (Name.fill, int, λ n x. record x { fill = fill_of n })
    ∷ (Name.slackfill, int, λ n x. record x { slackfill = byte_of n })
    ∷ []

unfoldable pub second_readers : List Reader
unfolding non_zero
second_readers =
    (Name.show_alloc, int, λ n x. record x { show_alloc = non_zero n })
    ∷ (Name.suppress_atexit, int, λ n x. record x { suppress_atexit = non_zero n })
    ∷ (Name.memcpy_overlap, int, λ n x. record x { memcpy_overlap = non_zero n })
    ∷ []

unfoldable pub last_readers : List Reader
unfolding non_zero frequency_of
last_readers =
    (Name.skipcount_init, int, λ n x. record x { skipcount_init = non_zero n })
    ∷ (Name.check_freq, int, λ n x. record x { check_freq = frequency_of n x.check_freq })
    ∷ (Name.disable_banner, int, λ n x. record x { disable_banner = non_zero n })
    ∷ []

-- A variable that sets a flag or a text of the output, the latter with its line of the source.
pub data OutputReader : Type 0 where
  flag : List ℕ → (Bool → Outputs → Outputs) → OutputReader
  text : List ℕ → ℤ → (ℕ → Outputs → Outputs) → OutputReader

unfoldable pub output_readers : List OutputReader
output_readers =
    flag Name.output_stacktrace (λ b o. record o { stacktrace = b })
    ∷ text Name.output_stacktrace_mapfile (pos 904) (λ a o. record o { stacktrace_mapfile = a })
    ∷ flag Name.output_debug (λ b o. record o { debug = b })
    ∷ flag Name.output_stdout (λ b o. record o { stdout = b })
    ∷ flag Name.output_stderr (λ b o. record o { stderr = b })
    ∷ text Name.output_file (pos 940) (λ a o. record o { file = a })
    ∷ []

module _ {W : Type 0} (env : Env W) where
  -- `if ((string = DUMA_GETENV(name)) != 0) ...`
  unfoldable pub if_set : List ℕ → (ℕ → M W (Unit {0})) → M W (Unit {0})
  unfolding getenv
  if_set name use_string s = elim (getenv name env.environ s.memory) [
    | none ↦ ok tt s
    | some string ↦ use_string string s
  ]

  unfoldable pub number_at : Number → State W → ℕ → ℤ
  number_at int s string = env.atoi s.memory string
  number_at long s string = env.atol s.memory string

  unfoldable pub set_number : Number → (ℤ → Settings → Settings) → ℕ → M W (Unit {0})
  unfolding number_at
  set_number kind change string s =
      ok tt (record s { settings = change (number_at kind s string) s.settings })

  -- The settings from the variables, in this order.
  unfoldable pub set_numbers : List Reader → M W (Unit {0})
  unfolding if_set set_number
  set_numbers [] = pure tt
  set_numbers ((name, kind, change) ∷ rest) = do
    if_set name (set_number kind change)
    set_numbers rest

  unfoldable pub set_flag : (Bool → Outputs → Outputs) → ℕ → M W (Unit {0})
  unfolding non_zero
  set_flag change string s =
      ok tt (record s { outputs = change (non_zero (env.atoi s.memory string)) s.outputs })

  unfoldable pub mask_slackfill : M W (Unit {0})
  mask_slackfill s =
      ok tt (record s { settings = record s.settings { slackfill = s.settings.slackfill % 256 } })

  module _ (init : M W (Unit {0})) where
    -- A copy of the string; `line` is `__LINE__`.
    unfoldable pub set_text : ℤ → (ℕ → Outputs → Outputs) → ℕ → M W (Unit {0})
    unfolding strdup
    set_text line change string = do
      a ← strdup env init env.this_file line string
      λ s. ok tt (record s { outputs = change a s.outputs })

    -- The output from the variables, in this order.
    unfoldable pub set_outputs : List OutputReader → M W (Unit {0})
    unfolding if_set set_flag set_text
    set_outputs [] = pure tt
    set_outputs (flag name change ∷ rest) = do if_set name (set_flag change); set_outputs rest
    set_outputs (text name line change ∷ rest) = do
      if_set name (set_text line change)
      set_outputs rest

    -- `duma_getenvvars`
    unfoldable pub getenvvars : M W (Unit {0})
    unfolding set_numbers first_readers mask_slackfill second_readers set_outputs output_readers
        last_readers
    getenvvars = do
      set_numbers first_readers
      mask_slackfill
      set_numbers second_readers
      set_outputs output_readers
      set_numbers last_readers
