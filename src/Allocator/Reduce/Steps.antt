-- ===== src/Allocator/Reduce/Steps.antt =====
-- How far giving protected memory back brings the table: a measure that falls.
use duma.Prelude.{
  ℕ, ◌+◌, ◌≤◌, ◌≡◌, ◌≢◌, refl, inl, inr, arith, Bool, true, false, List, [], ◌∷◌, Bool-cases, ltb,
  leb, if◌then◌else◌, length,
}
use duma.Slots.Types.{SlotState, Slot, is_state}
use duma.Machine.Env.{Env}
use duma.Machine.State.{State}
use duma.Machine.Monad.{Result, ok, abort, blocked, fault, Abort, out_of_fuel, and_then}
use duma.Machine.Paging.{page_delete, page_deny_access}
use duma.Allocator.Reduce.Spared.{is_state-eq}
use duma.Allocator.Reduce.{
  Reduced, cut_end, stop_here, reduce_ends, reduce_wholes, reduce_protected_memory, put_slots,
  settle,
}

-- A run that returns or aborts, with a property of what it returns.
pub data Ends {S A : Type 0} (P : A → S → Type 0) : Result S A → Type 0 where
  returned : {a : A} {s : S} → P a s → Ends P (ok a s)
  aborted : {e : Abort} → Ends P (abort e)

module _ {S A : Type 0} {P : A → S → Type 0} where
  pub Ends-bind :
      {B : Type 0} {Q : B → S → Type 0} {r : Result S A} {k : A → S → Result S B}
      → Ends P r
      → ((a : A) (s : S) → P a s → Ends Q (k a s))
      → Ends Q (and_then r k)
  Ends-bind (returned p) next = next _ _ p
  Ends-bind aborted next = aborted

  pub ends :
      (r : Result S A)
      → r ≢ blocked
      → r ≢ fault
      → r ≢ out_of_fuel
      → ((a : A) (s : S) → r ≡ ok a s → P a s)
      → Ends P r
  ends (ok a s) b f o h = returned (h a s refl)
  ends (abort e) b f o h = aborted
  ends blocked b f o h = absurd (b refl)
  ends fault b f o h = absurd (f refl)
  ends out_of_fuel b f o h = absurd (o refl)

  pub Ends-if_then :
      (x y : S → Result S A) (s : S) (b : Bool)
      → (b ≡ true → Ends P (x s))
      → (b ≡ false → Ends P (y s))
      → Ends P ((if b then x else y) s)
  Ends-if_then x y s true p q = p refl
  Ends-if_then x y s false p q = q refl

  Ends-weaken :
      {Q : A → S → Type 0} {r : Result S A}
      → Ends P r
      → ((a : A) (s : S) → P a s → Q a s)
      → Ends Q r
  Ends-weaken (returned p) f = returned (f _ _ p)
  Ends-weaken aborted f = aborted

  pub Ends-fuel : {r : Result S A} → Ends P r → r ≢ out_of_fuel
  Ends-fuel (returned p) e = cc
  Ends-fuel aborted e = cc

-- The steps that a slot has left: shortened, and emptied.
abbrev pub steps : SlotState → ℕ
steps SlotState.all_protected = 2
steps SlotState.begin_protected = 1
steps _ = 0

abbrev pub all_steps : List Slot → ℕ
all_steps [] = 0
all_steps (u ∷ us) = steps u.state + all_steps us

abbrev pub one_if : Bool → ℕ
one_if true = 1
one_if false = 0

pub all_steps-length : (us : List Slot) → all_steps us ≤ length us + length us
all_steps-length [] = omega arith
all_steps-length (u ∷ us) = ground (arith, all_steps-length us)

module _ {W : Type 0} (env : Env W) where
  page_delete-Ends :
      (a n : ℕ) (s : State W) → Ends (λ _ t. t.slots ≡ s.slots) (page_delete env a n s)
  unfolding page_delete page_deny_access
  page_delete-Ends a n s =
      ends _ (λ e. ground (arith, e)) (λ e. ground (arith, e)) (λ e. ground (arith, e))
        (λ u t e. ground (arith, e))

  module _ (n : ℕ) where
    abbrev Fewer : List Slot → Reduced → State W → Type 0
    Fewer us r t = all_steps r.slots + one_if r.enough ≤ all_steps us

    abbrev NoMore : List Slot → Reduced → State W → Type 0
    NoMore us r t = all_steps r.slots ≤ all_steps us

    cut_end-Ends :
        (u : Slot) (k : ℕ) (s : State W) → Ends (λ _ t. t.slots ≡ s.slots) (cut_end env n u k s)
    unfolding cut_end
    cut_end-Ends u k s = Ends-bind (page_delete-Ends _ _ s) λ _ t same. returned same

    NoMore-reduce_ends :
        (b : Bool) (us : List Slot) (k : ℕ) (s : State W)
        → Ends (Fewer us) (reduce_ends env n us k s)
        → Ends (NoMore us) (
            (elim b as (λ x. State W → Result (State W) Reduced) [
              | true ↦ stop_here env n us k
              | false ↦ reduce_ends env n us k
            ])
              s)
    NoMore-reduce_ends true us k s h = returned (omega arith)
    NoMore-reduce_ends false us k s h = Ends-weaken h (λ r t le. omega (arith, le))

    reduce_ends-Fewer :
        (us : List Slot) (k : ℕ) (s : State W) → Ends (Fewer us) (reduce_ends env n us k s)
    unfolding reduce_ends
    reduce_ends-Fewer [] k s = returned (omega arith)
    reduce_ends-Fewer (u ∷ us) k s = elim (Bool-cases (ltb k n)) [
      | inr e ↦ rw (reduce_ends, e) (returned (omega arith))
      | inl e ↦ elim (Bool-cases (is_state SlotState.all_protected u.state)) [
        | inr e' ↦
            rw (reduce_ends, e, e')
              (Ends-bind (reduce_ends-Fewer us k s) λ r t le. returned (omega (arith, le)))
        | inl e' ↦
            rw (reduce_ends, e, e')
              (Ends-bind (cut_end-Ends u k s) λ k' t same.
                Ends-bind (NoMore-reduce_ends (leb n k') us k' t (reduce_ends-Fewer us k' t))
                  λ r t' le. returned (
                    let was = is_state-eq SlotState.all_protected u.state e' in
                    ground (arith, le, was)))
      ]
    ]

    NoMore-reduce_wholes :
        (b : Bool) (us : List Slot) (k : ℕ) (s : State W)
        → Ends (Fewer us) (reduce_wholes env n us k s)
        → Ends (NoMore us) (
            (elim b as (λ x. State W → Result (State W) Reduced) [
              | true ↦ stop_here env n us k
              | false ↦ reduce_wholes env n us k
            ])
              s)
    NoMore-reduce_wholes true us k s h = returned (omega arith)
    NoMore-reduce_wholes false us k s h = Ends-weaken h (λ r t le. omega (arith, le))

    reduce_wholes-Fewer :
        (us : List Slot) (k : ℕ) (s : State W) → Ends (Fewer us) (reduce_wholes env n us k s)
    unfolding reduce_wholes
    reduce_wholes-Fewer [] k s = returned (omega arith)
    reduce_wholes-Fewer (u ∷ us) k s = elim (Bool-cases (ltb k n)) [
      | inr e ↦ rw (reduce_wholes, e) (returned (omega arith))
      | inl e ↦ elim (Bool-cases (is_state SlotState.begin_protected u.state)) [
        | inr e' ↦
            rw (reduce_wholes, e, e')
              (Ends-bind (reduce_wholes-Fewer us k s) λ r t le. returned (omega (arith, le)))
        | inl e' ↦
            rw (reduce_wholes, e, e')
              (Ends-bind (page_delete-Ends _ _ s) λ _ t same.
                Ends-bind (NoMore-reduce_wholes (leb n _) us _ t (reduce_wholes-Fewer us _ t))
                  λ r t' le. returned (
                    let was = is_state-eq SlotState.begin_protected u.state e' in
                    ground (arith, le, was)))
      ]
    ]

    -- Giving memory back ends, and takes a step at least where it reports success.
    pub reduce_protected_memory-Ends :
        (s : State W)
        → Ends
            (λ b t. all_steps t.slots + one_if b ≤ all_steps s.slots)
            (reduce_protected_memory env n s)
    unfolding reduce_protected_memory put_slots settle
    reduce_protected_memory-Ends s = Ends-bind (reduce_ends-Fewer s.slots 0 s) λ r t le.
        Ends-if_then _ _ _ r.enough (λ e. returned (ground (arith, le, e)))
          (λ _.
            Ends-bind (reduce_wholes-Fewer r.slots r.amount (record t { slots = r.slots }))
              λ r' t' le'.
                Ends-if_then _ _ _ r'.enough (λ e'. returned (ground (arith, le, le', e')))
                  (λ e'. returned (ground (arith, le, le', e'))))
