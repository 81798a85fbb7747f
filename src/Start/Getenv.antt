-- ===== src/Start/Getenv.antt =====
-- `duma_getenv` of src/duma.c. A name is the list of its characters.
pub mod Lookup
pub mod Name
use duma.Prelude.{
  ℕ, ◌+◌, Bool, true, false, ◌&&◌, Option, none, some, List, [], ◌∷◌, length, ltb, ◌==◌,
  if◌then◌else◌,
}
use duma.Memory.{Memory}

-- `while (varname[idx] != '\0' && v[idx] == varname[idx]) ++idx;`
unfoldable pub common : List ℕ → ℕ → Memory → ℕ
common [] v m = 0
common (c ∷ rest) v m = let n = common rest (v + 1) m in if m v == c then n + 1 else 0

-- `idx > 0 && varname[idx] == '\0' && v[idx] == '='`
unfoldable pub is_entry : List ℕ → ℕ → Memory → Bool
unfolding common
is_entry name v m =
    let idx = common name v m in ltb 0 idx && (idx == length name) && (m (v + idx) == b'=')

-- The loop over `environ`.
unfoldable pub search_environ : List ℕ → List ℕ → Memory → Option ℕ
unfolding is_entry common
search_environ name [] m = none
search_environ name (v ∷ rest) m =
    let next = search_environ name rest m in
    if is_entry name v m then some (v + (common name v m + 1)) else next

-- `duma_getenv`: the address of the value.
unfoldable pub getenv : List ℕ → List ℕ → Memory → Option ℕ
unfolding search_environ
getenv [] environ m = none
getenv (c ∷ rest) environ m = search_environ (c ∷ rest) environ m
