-- ===== src/Slots/BestFit.antt =====
-- What the search of `_duma_allocate` knows after each slot.
use duma.Prelude.{
  ℕ, suc, ◌+◌, ◌≤◌, ◌<◌, ◌≡◌, ◌≢◌, refl, ap, ◌∙◌, true, false, none, some, List, [], ◌∷◌, arith,
  Bool-cases, Option-cases, inl, inr, length, get_elem?, lt_of_get_elem?,
}
use duma.Slots.{Found, visit, is_exact, search_slots}
use duma.Slots.Types.{SlotState, Slot}

module _ (size : ℕ) (slots : List Slot) where
  -- `t` stands at index `j` and is a free region that is large enough.
  pub record Serves (j : ℕ) (t : Slot) : Type 0 where
    pub here : get_elem? slots j ≡ some t
    pub is_free : t.state ≡ SlotState.free
    pub large : size ≤ t.internal_size

  -- The loop has not left at a region of just the right size.
  abbrev pub IsInexact : Found → Type 0
  IsInexact f = (k : ℕ) → f.full ≢ some (k, size)

  -- What the loop knows once it has seen the slots below `i`.
  pub record Seen (i : ℕ) (f : Found) : Type 0 where
    pub chosen :
        (k b : ℕ) (t : Slot)
        → f.full ≡ some (k, b)
        → get_elem? slots k ≡ some t
        → (k < length slots) × (t.state ≡ SlotState.free) × (t.internal_size ≡ b) × (size ≤ b)
    pub chosen_lt : (k b : ℕ) → f.full ≡ some (k, b) → k < length slots
    pub best :
        (k b j : ℕ) (t : Slot) → f.full ≡ some (k, b) → j < i → Serves j t → b ≤ t.internal_size
    pub missing : (j : ℕ) (t : Slot) → f.full ≡ none → j < i → Serves j t → ⊥
    pub empty0 :
        (k : ℕ) (t : Slot)
        → f.empty0 ≡ some k
        → get_elem? slots k ≡ some t
        → t.state ≡ SlotState.empty
    pub empty0_lt : (k : ℕ) → f.empty0 ≡ some k → (k < i) × (k < length slots)
    pub empty1 :
        (k : ℕ) (t : Slot)
        → f.empty1 ≡ some k
        → get_elem? slots k ≡ some t
        → t.state ≡ SlotState.empty
    pub empty1_lt : (k : ℕ) → f.empty1 ≡ some k → (k < i) × (k < length slots)
    pub first0 :
        (j k : ℕ) (t : Slot)
        → f.empty0 ≡ some k
        → j < k
        → get_elem? slots j ≡ some t
        → t.state ≢ SlotState.empty
    pub first1 :
        (j k l : ℕ) (t : Slot)
        → f.empty0 ≡ some k
        → f.empty1 ≡ some l
        → j < l
        → j ≢ k
        → get_elem? slots j ≡ some t
        → t.state ≢ SlotState.empty
    pub unseen0 :
        (j : ℕ) (t : Slot)
        → IsInexact f
        → f.empty0 ≡ none
        → j < i
        → get_elem? slots j ≡ some t
        → t.state ≢ SlotState.empty
    pub unseen1 :
        (j k : ℕ) (t : Slot)
        → IsInexact f
        → f.empty0 ≡ some k
        → f.empty1 ≡ none
        → j < i
        → j ≢ k
        → get_elem? slots j ≡ some t
        → t.state ≢ SlotState.empty
    pub in_order : f.empty0 ≡ none → f.empty1 ≡ none
    pub apart : (k l : ℕ) → f.empty0 ≡ some k → f.empty1 ≡ some l → k < l

  module _ {i : ℕ} {s : Slot} {f : Found} (at_i : get_elem? slots i ≡ some s)
      (seen : Seen i f) where
    inside : i < length slots
    inside = lt_of_get_elem? slots i at_i

    visit-IsInexact : IsInexact (visit size s i f) → IsInexact f
    unfolding visit
    visit-IsInexact h k e = h k (ground (arith, seen.chosen_lt k size e))

    visit-Seen : IsInexact f → Seen (i + 1) (visit size s i f)
    unfolding visit
    visit-Seen inexact = record {
      chosen = λ k b t e g. ground (arith, inside, seen.chosen k b t);
      chosen_lt = λ k b e. ground (arith, inside, seen.chosen_lt k b);
      best = λ k b j t e lt v. elim (Option-cases f.full) [
        | inl new ↦ ground (arith, v.here, v.is_free, v.large, seen.missing j t)
        | inr (p, old) ↦ ground (arith, v.here, v.is_free, v.large, seen.best p.0 p.1 j t)
      ];
      missing = λ j t e lt v. ground (arith, v.here, v.is_free, v.large, seen.missing j t);
      empty0 = λ k t e g. ground (arith, seen.empty0 k t);
      empty0_lt = λ k e. ground (arith, inside, seen.empty0_lt k);
      empty1 = λ k t e g. ground (arith, seen.empty1 k t);
      empty1_lt = λ k e. ground (arith, inside, seen.empty1_lt k);
      first0 = λ j k t e lt g. ground (arith, seen.first0 j k t, seen.unseen0 j t inexact);
      first1 = λ j k l t e e' lt ne g. ground (
        arith,
        seen.first1 j k l t,
        seen.unseen1 j k t inexact,
        seen.in_order,
        seen.unseen0 j t inexact,
        seen.empty0_lt k,
      );
      unseen0 = λ j t h e lt g. let h' = visit-IsInexact h in ground (arith, seen.unseen0 j t h');
      unseen1 = λ j k t h e e' lt ne g.
          let h' = visit-IsInexact h in ground (arith, seen.unseen0 j t h', seen.unseen1 j k t h');
      in_order = λ e. ground (arith, seen.in_order);
      apart = λ k l e e'.
          ground (arith, seen.in_order, seen.apart k l, seen.empty0_lt k, seen.empty1_lt l);
    }

    -- A region of just the right size cannot be beaten, so the loop may leave.
    exact-Seen :
        is_exact size s f ≡ true
        → Seen (i + 1) (visit size s i f)
        → Seen (length slots) (visit size s i f)
    exact-Seen exact seen' =
        let (k, chose) = exact_full exact in
        record {
          chosen = seen'.chosen;
          chosen_lt = seen'.chosen_lt;
          best = λ k' b j t e lt v. ground (arith, chose, v.large);
          missing = λ j t e lt v. ground (arith, chose);
          empty0 = seen'.empty0;
          empty0_lt = λ k' e. ground (arith, inside, seen'.empty0_lt k');
          empty1 = seen'.empty1;
          empty1_lt = λ k' e. ground (arith, inside, seen'.empty1_lt k');
          first0 = seen'.first0;
          first1 = seen'.first1;
          unseen0 = λ j t h e lt g. absurd (h k chose);
          unseen1 = λ j k' t h e e' lt ne g. absurd (h k chose);
          in_order = seen'.in_order;
          apart = seen'.apart;
        }
      where
        exact_full : is_exact size s f ≡ true → (k : ℕ) × ((visit size s i f).full ≡ some (k, size))
        exact_full e = unfold visit is_exact in (i, ground arith)

  stays-IsInexact :
      (i : ℕ) (s : Slot) (f : Found)
      → IsInexact f
      → is_exact size s f ≡ false
      → IsInexact (visit size s i f)
  unfolding visit is_exact
  stays-IsInexact i s f inexact e k h = elim (Option-cases f.full) [
    | inl new ↦ ground (arith, e, h, new)
    | inr (p, old) ↦ let other = inexact p.0 in ground (arith, e, h, old, other)
  ]

  search_from :
      (rest : List Slot) (i : ℕ) (f : Found)
      → ((j : ℕ) → get_elem? slots (i + j) ≡ get_elem? rest j)
      → i + length rest ≡ length slots
      → IsInexact f
      → Seen i f
      → Seen (length slots) (search_slots size rest i f)
  unfolding search_slots
  search_from [] i f at_i len inexact seen = let e : i ≡ length slots = omega arith in rw (← e) seen
  search_from (s ∷ rest) i f at_i len inexact seen =
      let here : get_elem? slots i ≡ some s = ground (arith, at_i 0) in
      let seen' = visit-Seen here seen inexact in
      elim (Bool-cases (is_exact size s f)) [
        | inl exact ↦ rw exact (exact-Seen here seen exact seen')
        | inr more ↦ rw more (
            search_from rest (i + 1) (visit size s i f)
              (λ j. ap (get_elem? slots) (omega arith) ∙ at_i (suc j)) (omega arith)
              (stays-IsInexact i s f inexact more) seen')
      ]

abbrev pub nothing_found : Found
nothing_found = record { full = none; empty0 = none; empty1 = none }

nothing-Seen : (size : ℕ) (slots : List Slot) → Seen size slots 0 nothing_found
nothing-Seen size slots = record {
  chosen = λ k b t e g. cc;
  chosen_lt = λ k b e. cc;
  best = λ k b j t e lt v. cc;
  missing = λ j t e lt v. elim lt [ ];
  empty0 = λ k t e g. cc;
  empty0_lt = λ k e. cc;
  empty1 = λ k t e g. cc;
  empty1_lt = λ k e. cc;
  first0 = λ j k t e lt g. cc;
  first1 = λ j k l t e e' lt ne g. cc;
  unseen0 = λ j t h e lt g. elim lt [ ];
  unseen1 = λ j k t h e e' lt ne g. elim lt [ ];
  in_order = λ e. refl;
  apart = λ k l e e'. cc;
}

-- The search of the whole table: a free region that is chosen is large enough and no free region
-- that is large enough is smaller; none is chosen only if none is large enough; the two empty slots
-- that it names are the first two of the table; and unless a region of just the right size was found,
-- at which the search ends, it names both if the table has them.
pub search_slots-Seen :
    (size : ℕ) (slots : List Slot)
    → Seen size slots (length slots) (search_slots size slots 0 nothing_found)
search_slots-Seen size slots =
    search_from size slots slots 0 nothing_found (λ j. ap (get_elem? slots) (omega arith))
      (omega arith) (λ k. λ e. cc) (nothing-Seen size slots)
