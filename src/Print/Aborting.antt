-- ===== src/Print/Aborting.antt =====
-- What `DUMA_Abort` of src/print.c writes to each destination.
use duma.Prelude.{
  ◌≡◌, ◌<◌, ◌≤◌, ℕ, Bool, true, false, not, ◌&&◌, List, [], ◌∷◌, ◌++◌, length, ◌==◌, if◌then◌else◌,
}
use duma.Machine.State.{Outputs}
use duma.Print.{Printed, text, number_abort, undefined}
use duma.Print.Output.{
  codes, Destination, stdout, stderr, file, Write, write, Effect, ends, stopped, not_defined,
  string_buffer_size, bad_items, bad_pattern,
}

-- Whether a destination gets output.
abbrev pub is_on : Outputs → Bool → Destination → Bool
is_on o opens stdout = o.stdout
is_on o opens stderr = o.stderr
is_on o opens (file n) = n == o.file && not (o.file == 0) && opens

abbrev same_place : Destination → Destination → Bool
same_place stdout stdout = true
same_place stderr stderr = true
same_place (file n) (file m) = n == m
same_place _ _ = false

-- The texts that one destination gets, in their order.
abbrev pub texts_at : Destination → List Write → List (List ℕ)
texts_at d [] = []
texts_at d (write e t ∷ ws) = if same_place d e then t ∷ texts_at d ws else texts_at d ws

abbrev pub reports : List ℕ → List (List ℕ)
reports [] = []
reports (c ∷ rest) = bad_pattern c ∷ reports rest

-- The line with the heading.
abbrev pub abort_line : List ℕ → List ℕ
abort_line t = 10 ∷ codes "DUMA Aborting: " ++ t ++ 10 ∷ []

-- How the call ends, by what its pattern yields.
pub data Aborts (o : Outputs) (opens : Bool) (pattern : List ℕ) (p : Printed) (e : Effect)
    : Type 0 where
  message :
      (t : List ℕ) (ws : List Write)
      → p ≡ text t
      → length (abort_line t) < string_buffer_size
      → e ≡ ends ws
      → ((d : Destination)
          → texts_at d ws
            ≡ (if is_on o opens d then reports (bad_items pattern) ++ abort_line t ∷ [] else []))
      → Aborts o opens pattern p e
  overlong :
      (t : List ℕ)
      → p ≡ text t
      → string_buffer_size ≤ length (abort_line t)
      → e ≡ not_defined
      → Aborts o opens pattern p e
  no_number : p ≡ number_abort → e ≡ stopped → Aborts o opens pattern p e
  no_text : p ≡ undefined → e ≡ not_defined → Aborts o opens pattern p e
