-- ===== src/Start/Variables/Effect.antt =====
-- What the environment does to the settings of the allocator.
use duma.Prelude.{
  ℕ, ◌-◌, ◌%◌, ◌<◌, ◌≤◌, ◌≡◌, ◌⊎◌, inl, inr, refl, arith, Bool, List, [], ◌∷◌, zero, suc,
  Option-cases,
}
use duma.Prelude.Int.{ℤ, pos, negsuc}
use duma.Machine.Env.{Env}
use duma.Machine.State.{Settings, Outputs, State}
use duma.Machine.Monad.{M, ◌>>◌, Ensures, returns, Ensures-bind}
use duma.Allocator.Live.Calls.{strdup-Steady}
use duma.Start.Getenv.{getenv}
use duma.Start.Variables.{
  alignment_of, fill_of, if_within, if_set, Reader, Number, OutputReader, flag, text, number_at,
  set_number, set_flag, set_outputs, output_readers, first_readers, second_readers, last_readers,
  set_numbers, set_text, mask_slackfill, getenvvars,
}

-- A byte, or -1.
abbrev pub IsFill : ℤ → Type 0
IsFill n = (n ≡ negsuc 0) ⊎ ((b : ℕ) × (n ≡ pos b) × (b < 256))

-- The alignment is not zero, the fill is a byte or -1, and the strategies are in their ranges.
abbrev pub IsUsable : Settings → Type 0
IsUsable x =
    (0 < x.alignment)
    × IsFill x.fill
    × (x.malloc_0_strategy ≤ 3)
    × (2 ≤ x.new_0_strategy)
    × (x.new_0_strategy ≤ 3)

abbrev pub IsComplete : Settings → Type 0
IsComplete x = IsUsable x × (x.slackfill < 256)

alignment_of_pos : (n : ℤ) → 0 < alignment_of n
unfolding alignment_of
alignment_of_pos n = ground arith

fill_of-IsFill : (n : ℤ) → IsFill (fill_of n)
unfolding fill_of
fill_of-IsFill (pos n) = inr (n % 256, refl, omega arith)
fill_of-IsFill (negsuc zero) = inl refl
fill_of-IsFill (negsuc (suc n)) = inr (255 - suc n % 256, refl, omega arith)

if_within-le : (low high : ℕ) (n : ℤ) (old : ℕ) → old ≤ high → if_within low high n old ≤ high
unfolding if_within
if_within-le low high n old h = ground arith

if_within-ge : (low high : ℕ) (n : ℤ) (old : ℕ) → low ≤ old → low ≤ if_within low high n old
unfolding if_within
if_within-ge low high n old h = ground arith

module _ {W : Type 0} (env : Env W) (init : M W (Unit {0})) (Q : Settings → Type 0) where
  -- The settings have a property, and the slot table is there.
  abbrev pub Good : State W → Type 0
  Good s = Q s.settings × (0 < s.alloc_list)

  abbrev pub Well : M W (Unit {0}) → Type 0
  Well m = (s : State W) → Good s → Ensures (λ _ t. Good t) (m s)

  Well-then : {m m' : M W (Unit {0})} → Well m → Well m' → Well (m >> m')
  Well-then p q s g = Ensures-bind (p s g) λ _ t g'. q t g'

  pub if_set-Well :
      (name : List ℕ) (use_string : ℕ → M W (Unit {0}))
      → ((a : ℕ) → Well (use_string a))
      → Well (if_set env name use_string)
  unfolding if_set
  if_set-Well name use_string p s g = elim (Option-cases (getenv name env.environ s.memory)) [
    | inl e ↦ rw (if_set, e) (returns g)
    | inr (a, e) ↦ rw (if_set, e) (p a s g)
  ]

  -- Each of the variables keeps the property.
  abbrev pub Keep : List Reader → Type 0
  Keep [] = Unit
  Keep ((name, kind, change) ∷ rest) = ((n : ℤ) (x : Settings) → Q x → Q (change n x)) × Keep rest

  pub set_number-Well :
      (kind : Number) (change : ℤ → Settings → Settings) (string : ℕ)
      → ((n : ℤ) (x : Settings) → Q x → Q (change n x))
      → Well (set_number env kind change string)
  unfolding set_number
  set_number-Well kind change string k s g =
      returns (k (number_at env kind s string) s.settings g.0, g.1)

  pub set_numbers-Well : (rs : List Reader) → Keep rs → Well (set_numbers env rs)
  unfolding set_numbers
  set_numbers-Well [] k = λ s g. returns g
  set_numbers-Well ((name, kind, change) ∷ rest) k =
      Well-then
        (if_set-Well name (set_number env kind change) λ a. set_number-Well kind change a k.0)
        (set_numbers-Well rest k.1)

  pub set_flag-Well :
      (change : Bool → Outputs → Outputs) (string : ℕ) → Well (set_flag env change string)
  unfolding set_flag
  set_flag-Well change string s g = returns g

  pub set_text-Well :
      (line : ℤ) (change : ℕ → Outputs → Outputs) (string : ℕ)
      → Well (set_text env init line change string)
  unfolding set_text
  set_text-Well line change string s g =
      Ensures-bind (strdup-Steady env init env.this_file line string s g.1)
        λ b t k. let same = k.settings in returns (rw same g.0, k.table g.1)

  pub set_outputs-Well : (rs : List OutputReader) → Well (set_outputs env init rs)
  unfolding set_outputs
  set_outputs-Well [] = λ s g. returns g
  set_outputs-Well (flag name change ∷ rest) =
      Well-then (if_set-Well name (set_flag env change) (set_flag-Well change))
        (set_outputs-Well rest)
  set_outputs-Well (text name line change ∷ rest) =
      Well-then (if_set-Well name (set_text env init line change) (set_text-Well line change))
        (set_outputs-Well rest)

module _ {W : Type 0} (env : Env W) (init : M W (Unit {0})) where
  first-Keep : Keep env init IsUsable first_readers
  unfolding first_readers
  first-Keep = (
    (λ n x h. (alignment_of_pos n, h.1, h.2, h.3, h.4)),
    (
      (λ n x h. h),
      (
        (λ n x h. h),
        (
          (λ n x h. h),
          (
            (λ n x h. h),
            (
              (λ n x h. (h.0, h.1, if_within-le 0 3 n x.malloc_0_strategy h.2, h.3, h.4)),
              (
                (λ n x h. (
                  h.0,
                  h.1,
                  h.2,
                  if_within-ge 2 3 n x.new_0_strategy h.3,
                  if_within-le 2 3 n x.new_0_strategy h.4,
                )),
                (
                  (λ n x h. h),
                  (
                    (λ n x h. h),
                    ((λ n x h. (h.0, fill_of-IsFill n, h.2, h.3, h.4)), ((λ n x h. h), tt)),
                  ),
                ),
              ),
            ),
          ),
        ),
      ),
    ),
  )

  second-Keep : Keep env init IsComplete second_readers
  unfolding second_readers
  second-Keep = ((λ n x h. h), ((λ n x h. h), ((λ n x h. h), tt)))

  last-Keep : Keep env init IsComplete last_readers
  unfolding last_readers
  last-Keep = ((λ n x h. h), ((λ n x h. h), ((λ n x h. h), tt)))

  mask-Complete :
      (s : State W)
      → Good env init IsUsable s
      → Ensures (λ _ t. Good env init IsComplete t) (mask_slackfill env s)
  unfolding mask_slackfill
  mask-Complete s g = returns ((g.0, omega arith), g.1)

  -- Whatever the environment holds, where `duma_getenvvars` returns from settings that are usable and
  -- with the table there, the alignment is not zero, the fill is a byte or -1, the strategies for no
  -- bytes are in range and the byte of the no man's land is a byte, and the table is still there.
  pub getenvvars-IsComplete :
      (s : State W)
      → IsUsable s.settings
      → 0 < s.alloc_list
      → Ensures (λ _ t. IsComplete t.settings × (0 < t.alloc_list)) (getenvvars env init s)
  unfolding getenvvars
  getenvvars-IsComplete s usable there =
      Ensures-bind (set_numbers-Well env init IsUsable first_readers first-Keep s (usable, there))
        λ _ s1 g1. Ensures-bind (mask-Complete s1 g1) λ _ s2 g2.
          Ensures-bind (set_numbers-Well env init IsComplete second_readers second-Keep s2 g2)
            λ _ s3 g3.
              Ensures-bind (set_outputs-Well env init IsComplete output_readers s3 g3)
                λ _ s4 g4. set_numbers-Well env init IsComplete last_readers last-Keep s4 g4
