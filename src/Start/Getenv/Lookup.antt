-- ===== src/Start/Getenv/Lookup.antt =====
-- The environment as a list of texts, and the lookup of a name in it.
use duma.Prelude.{
  suc, Bool, ◌∙◌, ltb, refl, ℕ, ◌+◌, ◌<◌, ◌≡◌, inl, inr, ap, arith, true, false, ◌&&◌, Option, none,
  some, List, [], ◌∷◌, Bool-cases, length, ◌==◌, if◌then◌else◌,
}
use duma.Memory.{Memory}
use duma.Start.Getenv.{common, is_entry, search_environ, getenv}

-- The text stands at the address, with a zero behind it.
abbrev pub Holds : Memory → ℕ → List ℕ → Type 0
Holds m a [] = m a ≡ 0
Holds m a (c ∷ rest) = (m a ≡ c) × (0 < c) × Holds m (a + 1) rest

abbrev pub HoldAll : Memory → List ℕ → List (List ℕ) → Type 0
HoldAll m [] [] = Unit
HoldAll m (v ∷ vs) (e ∷ es) = Holds m v e × HoldAll m vs es
HoldAll m _ _ = ⊥

-- The characters of a name: none is zero.
abbrev pub IsName : List ℕ → Type 0
IsName [] = Unit
IsName (c ∷ rest) = (0 < c) × IsName rest

-- The value in an entry `name=value` of that name.
abbrev pub value_of : List ℕ → List ℕ → Option (List ℕ)
value_of [] [] = none
value_of [] (d ∷ rest) = if d == b'=' then some rest else none
value_of (c ∷ name) [] = none
value_of (c ∷ name) (d ∷ rest) = if d == c then value_of name rest else none

-- The value in the first entry of that name.
abbrev pub lookup : List ℕ → List (List ℕ) → Option (List ℕ)
lookup name [] = none
lookup name (e ∷ es) = elim (value_of name e) [ some v ↦ some v | none ↦ lookup name es ]

-- An address in memory stands for the text that it holds.
abbrev pub Agree : Memory → Option ℕ → Option (List ℕ) → Type 0
Agree m none none = Unit
Agree m (some a) (some text) = Holds m a text
Agree m _ _ = ⊥

-- The test of an entry, and where the value stands.
entry_value : List ℕ → ℕ → Memory → Option ℕ
unfolding common
entry_value name v m =
    let idx = common name v m in
    if (idx == length name) && (m (v + idx) == b'=') then some (v + (idx + 1)) else none

entry_value-cons :
    (c : ℕ) (name : List ℕ) (v : ℕ) (m : Memory)
    → entry_value (c ∷ name) v m ≡ (if m v == c then entry_value name (v + 1) m else none)
unfolding entry_value common
entry_value-cons c name v m =
    let at : v + (common name (v + 1) m + 1) ≡ v + 1 + common name (v + 1) m = omega arith in
    ground (arith, ap m at)

entry_value-nil :
    (v : ℕ) (m : Memory) → entry_value [] v m ≡ (if m v == b'=' then some (v + 1) else none)
unfolding entry_value common
entry_value-nil v m = let at : v + 0 ≡ v = omega arith in rw (entry_value, common, at) refl

value_of-Agree :
    (name e : List ℕ) (v : ℕ) (m : Memory)
    → IsName name
    → Holds m v e
    → Agree m (entry_value name v m) (value_of name e)
value_of-Agree [] [] v m n h =
    let e : m v == b'=' ≡ false = ground arith in rw (entry_value-nil v m, e) tt
value_of-Agree [] (d ∷ rest) v m n h = elim (Bool-cases (d == b'=')) [
  | inl e ↦ let e' : m v == b'=' ≡ true = ground (arith, h.0) in rw (entry_value-nil v m, e, e') h.2
  | inr e ↦ let e' : m v == b'=' ≡ false = ground (arith, h.0) in rw (entry_value-nil v m, e, e') tt
]
value_of-Agree (c ∷ name) [] v m n h =
    let e : m v == c ≡ false = ground arith in rw (entry_value-cons c name v m, e) tt
value_of-Agree (c ∷ name) (d ∷ rest) v m n h = elim (Bool-cases (d == c)) [
  | inl e ↦
      let e' : m v == c ≡ true = ground (arith, h.0) in
      rw (entry_value-cons c name v m, e, e') (value_of-Agree name rest (v + 1) m n.1 h.2)
  | inr e ↦
      let e' : m v == c ≡ false = ground (arith, h.0) in rw (entry_value-cons c name v m, e, e') tt
]

long_enough : (idx k : ℕ) (b : Bool) → (ltb 0 idx && (idx == suc k) && b) ≡ ((idx == suc k) && b)
long_enough idx k b = ground arith

either :
    (b : Bool) (a : ℕ) (y : Option ℕ)
    → (if b then some a else y)
      ≡ (elim (if b then some a else none) as (λ x. Option ℕ) [ some a ↦ some a | none ↦ y ])
either true a y = refl
either false a y = refl

-- One entry: the test, and the address that is returned.
search_environ-cons :
    (c : ℕ) (name : List ℕ) (v : ℕ) (environ : List ℕ) (m : Memory)
    → search_environ (c ∷ name) (v ∷ environ) m ≡ (elim (entry_value (c ∷ name) v m) [
      | some a ↦ some a
      | none ↦ search_environ (c ∷ name) environ m
    ])
unfolding search_environ is_entry entry_value
search_environ-cons c name v environ m =
    let idx = common (c ∷ name) v m in
    let e : is_entry (c ∷ name) v m ≡ _ = long_enough idx (length name) (m (v + idx) == b'=') in
    ap (λ b. if b then some (v + (idx + 1)) else search_environ (c ∷ name) environ m) e
    ∙ either _ (v + (idx + 1)) (search_environ (c ∷ name) environ m)

Agree-or :
    (m : Memory) (x y : Option ℕ) (x' y' : Option (List ℕ))
    → Agree m x x'
    → Agree m y y'
    → Agree m (elim x [ some a ↦ some a | none ↦ y ]) (elim x' [ some v ↦ some v | none ↦ y' ])
Agree-or m (some a) y (some v) y' h h' = h
Agree-or m none y none y' h h' = h'
Agree-or m none y (some v) y' h h' = elim h [ ]
Agree-or m (some a) y none y' h h' = elim h [ ]

search_environ-Agree :
    (c : ℕ) (name : List ℕ) (environ : List ℕ) (entries : List (List ℕ)) (m : Memory)
    → IsName (c ∷ name)
    → HoldAll m environ entries
    → Agree m (search_environ (c ∷ name) environ m) (lookup (c ∷ name) entries)
unfolding search_environ
search_environ-Agree c name [] [] m n h = tt
search_environ-Agree c name [] (e ∷ es) m n h = elim h [ ]
search_environ-Agree c name (v ∷ vs) [] m n h = elim h [ ]
search_environ-Agree c name (v ∷ vs) (e ∷ es) m n h = rw (search_environ-cons c name v vs m) (
    Agree-or m _ _ _ _ (value_of-Agree (c ∷ name) e v m n h.0)
      (search_environ-Agree c name vs es m n h.1))

-- In memory that holds the texts of the environment, `duma_getenv` of a name of at least a character
-- finds a value exactly if a text has the form `name=value`, and then returns an address at which the
-- value of the first such text stands.
pub getenv-Agree :
    (c : ℕ) (name : List ℕ) (environ : List ℕ) (entries : List (List ℕ)) (m : Memory)
    → IsName (c ∷ name)
    → HoldAll m environ entries
    → Agree m (getenv (c ∷ name) environ m) (lookup (c ∷ name) entries)
unfolding getenv
getenv-Agree c name environ entries m n h = search_environ-Agree c name environ entries m n h
