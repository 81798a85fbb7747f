-- ===== src/Slots/Search.antt =====
-- The two searches by address.
use duma.Prelude.{
  ℕ, zero, suc, ◌+◌, ◌≤◌, ◌<◌, ◌≡◌, ◌≢◌, refl, none, some, List, [], ◌∷◌, arith, Bool-cases, inl,
  inr, ◌==◌, leb, ◌&&◌, get_elem?,
}
use mathlib.Core.Path.{subst}
use duma.Slots.{
  for_user_address, slot_for_user_address, nearest_from, nearest_slot_for_user_address,
}
use duma.Slots.Types.{Slot}

-- The first index whose slot passes a test.
pub record IsFirst (P : Slot → Type 0) (slots : List Slot) (i : ℕ) : Type 0 where
  pub slot : Slot
  pub here : get_elem? slots i ≡ some slot
  pub holds : P slot
  pub earlier : (j : ℕ) (t : Slot) → j < i → get_elem? slots j ≡ some t → ¬ P t

IsFirst-cons :
    (P : Slot → Type 0) (s : Slot) (rest : List Slot) (j : ℕ)
    → ¬ P s
    → IsFirst P rest j
    → IsFirst P (s ∷ rest) (suc j)
IsFirst-cons P s rest j not_s f = record {
  slot = f.slot;
  here = f.here;
  holds = f.holds;
  earlier = earlier;
}
  where
    earlier : (i : ℕ) (t : Slot) → i < suc j → get_elem? (s ∷ rest) i ≡ some t → ¬ P t
    earlier zero t lt g p = let e : t ≡ s = cc in not_s (subst P e p)
    earlier (suc i) t lt g p = f.earlier i t (omega arith) g p

abbrev pub HasUser : ℕ → Slot → Type 0
HasUser a s = s.user_address ≡ a

-- The region with its end, at which an address one past it counts too.
abbrev pub Covers : ℕ → Slot → Type 0
Covers a s = (s.internal_address ≤ a) × (a ≤ s.internal_address + s.internal_size)

for_user-IsFirst :
    (a : ℕ) (slots : List Slot) (off i : ℕ)
    → for_user_address a slots off ≡ some i
    → (j : ℕ) × (i ≡ off + j) × IsFirst (HasUser a) slots j
unfolding for_user_address
for_user-IsFirst a [] off i e = cc
for_user-IsFirst a (s ∷ rest) off i e = elim (Bool-cases (s.user_address == a)) [
  | inl same ↦ (
    0,
    ground arith,
    record { slot = s; here = refl; holds = ground arith; earlier = λ j t lt. elim lt [ ] },
  )
  | inr other ↦
      let (j, at_j, first) = for_user-IsFirst a rest (off + 1) i (rw other at e) in
      (suc j, omega arith, IsFirst-cons (HasUser a) s rest j (λ h. ground arith) first)
]

for_user-none :
    (a : ℕ) (slots : List Slot) (off : ℕ)
    → for_user_address a slots off ≡ none
    → (j : ℕ) (t : Slot) → get_elem? slots j ≡ some t
    → t.user_address ≢ a
unfolding for_user_address
for_user-none a [] off e j t g = cc
for_user-none a (s ∷ rest) off e zero t g = ground arith
for_user-none a (s ∷ rest) off e (suc j) t g = elim (Bool-cases (s.user_address == a)) [
  | inl same ↦ absurd (cc (rw same at e))
  | inr other ↦ for_user-none a rest (off + 1) (rw other at e) j t g
]

nearest-IsFirst :
    (a : ℕ) (slots : List Slot) (off i : ℕ)
    → nearest_from a slots off ≡ some i
    → (j : ℕ) × (i ≡ off + j) × IsFirst (Covers a) slots j
unfolding nearest_from
nearest-IsFirst a [] off i e = cc
nearest-IsFirst a (s ∷ rest) off i e =
    elim (Bool-cases (leb s.internal_address a && leb a (s.internal_address + s.internal_size))) [
      | inl same ↦ (
        0,
        ground arith,
        record { slot = s; here = refl; holds = ground arith; earlier = λ j t lt. elim lt [ ] },
      )
      | inr other ↦
          let (j, at_j, first) = nearest-IsFirst a rest (off + 1) i (rw other at e) in
          (suc j, omega arith, IsFirst-cons (Covers a) s rest j (λ h. ground arith) first)
    ]

-- The slot that is found is the first with the user address.
pub slot_for_user_address-IsFirst :
    (slots : List Slot) (a i : ℕ)
    → slot_for_user_address slots a ≡ some i
    → IsFirst (HasUser a) slots i
unfolding slot_for_user_address
slot_for_user_address-IsFirst slots a i e =
    let (j, at_j, first) = for_user-IsFirst a slots 0 i e in
    let same : i ≡ j = omega arith in rw same first

pub slot_for_user_address-none :
    (slots : List Slot) (a : ℕ)
    → slot_for_user_address slots a ≡ none
    → (j : ℕ) (t : Slot) → get_elem? slots j ≡ some t
    → t.user_address ≢ a
unfolding slot_for_user_address
slot_for_user_address-none slots a = for_user-none a slots 0

-- The slot that is found as nearest is the first whose region covers the address or ends there.
pub nearest_slot-IsFirst :
    (slots : List Slot) (a i : ℕ)
    → nearest_slot_for_user_address slots a ≡ some i
    → IsFirst (Covers a) slots i
unfolding nearest_slot_for_user_address
nearest_slot-IsFirst slots a i e =
    let (j, at_j, first) = nearest-IsFirst a slots 0 i e in
    let same : i ≡ j = omega arith in rw same first
