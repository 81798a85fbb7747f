-- ===== src/Report/Leaks.antt =====
-- What the report of leaks lists.
use duma.Prelude.{
  ℕ, ◌+◌, ◌-◌, ◌≤◌, ◌≡◌, inl, inr, refl, ap, sym, ◌∙◌, arith, Bool, true, ◌&&◌, List, [], ◌∷◌, ◌++◌,
  ◌==◌, if◌then◌else◌, zero, suc, some, Bool-cases, get_elem?, length,
}
use duma.Slots.Types.{Slot}
use duma.Machine.Env.{Env}
use duma.Machine.State.{State}
use duma.Machine.Monad.{Ensures, returns, Ensures-bind, Ensures-weaken}
use duma.Report.{
  Item, not_freed, leaks, is_leak, is_listed, Tally, tally_slot, tally_slots, nothing_yet, totals,
  call_counts, del_frame,
}
use duma.Allocator.Guard.Same.{
  Same, Same-trans, page_allow_access-Same, page_deny_access-Same, get_sem-Same, rel_sem-Same,
}
use duma.Allocator.Live.{buffer_at}

-- The leaks of a table, in its order, and those of them that are listed.
abbrev pub leaks_of : List Slot → List Slot
leaks_of [] = []
leaks_of (u ∷ us) = if is_leak u then u ∷ leaks_of us else leaks_of us

abbrev pub listed_of : Bool → List Slot → List Item
listed_of all [] = []
listed_of all (u ∷ us) =
    if is_leak u && is_listed all u then not_freed u ∷ listed_of all us else listed_of all us

append_assoc : (xs ys zs : List Item) → (xs ++ ys) ++ zs ≡ xs ++ (ys ++ zs)
append_assoc [] ys zs = refl
append_assoc (x ∷ xs) ys zs = ap (λ l. x ∷ l) (append_assoc xs ys zs)

append-nil : (xs : List Item) → xs ++ [] ≡ xs
append-nil [] = refl
append-nil (x ∷ xs) = ap (λ l. x ∷ l) (append-nil xs)

abbrev tally : ℕ → ℕ → List Item → Tally
tally n k items = record { total = n; reported = k; printed = items }

tally-ext :
    {n n' k k' : ℕ} {items items' : List Item}
    → n ≡ n'
    → k ≡ k'
    → items ≡ items'
    → tally n k items ≡ tally n' k' items'
tally-ext e e' e'' = rw (e, e', e'') refl

-- The loop, from any numbers on.
tally_slots_lem :
    (all : Bool) (us : List Slot) (n k : ℕ) (items : List Item)
    → tally_slots all us (tally n k items)
      ≡ tally (n + length (leaks_of us)) (k + length (listed_of all us)) (items ++ listed_of all us)
unfolding tally_slots
tally_slots_lem all [] n k items = tally-ext (omega arith) (omega arith) (sym (append-nil items))
tally_slots_lem all (u ∷ us) n k items = elim (Bool-cases (is_leak u)) [
  | inr e ↦ rw (tally_slots, tally_slot, e) (tally_slots_lem all us n k items)
  | inl e ↦ elim (Bool-cases (is_listed all u)) [
    | inr e' ↦
        rw (tally_slots, tally_slot, e, e')
          (tally_slots_lem all us (n + 1) k items ∙ tally-ext (omega arith) refl refl)
    | inl e' ↦
        rw (tally_slots, tally_slot, e, e')
          (tally_slots_lem all us (n + 1) (k + 1) (items ++ (not_freed u ∷ []))
            ∙ tally-ext (omega arith) (omega arith)
                (append_assoc items (not_freed u ∷ []) (listed_of all us)))
  ]
]

-- The two numbers behind the list, where there is a leak.
abbrev pub numbers : Bool → List Slot → List Item
numbers all us =
    let reported = length (listed_of all us) in
    let total = length (leaks_of us) in
    if total == 0 then [] else leaks reported (total - reported) ∷ []

listed_le : (all : Bool) (us : List Slot) → length (listed_of all us) ≤ length (leaks_of us)
listed_le all [] = omega arith
listed_le all (u ∷ us) = ground (arith, listed_le all us)

from_nothing :
    (all : Bool) (us : List Slot)
    → tally_slots all us nothing_yet
      ≡ tally (length (leaks_of us)) (length (listed_of all us)) (listed_of all us)
from_nothing all us = tally_slots_lem all us 0 0 [] ∙ tally-ext (omega arith) (omega arith) refl

totals_lem :
    (all : Bool) (us : List Slot) → totals (tally_slots all us nothing_yet) ≡ numbers all us
unfolding totals
totals_lem all us =
    ap totals (from_nothing all us) ∙ (let le = listed_le all us in ground (arith, le))

-- A buffer in the user's view is in the list of leaks, where it is listed at all.
found_in :
    (all : Bool) (us : List Slot) (more : List Item) (i : ℕ) {u : Slot}
    → buffer_at us i ≡ some u
    → is_listed all u ≡ true
    → (k : ℕ) × (get_elem? (listed_of all us ++ more) k ≡ some (not_freed u))
found_in all [] more i h l = cc
found_in all (x ∷ us) more zero {u} h l =
    let same : x ≡ u = ground (arith, h) in
    let leak : is_leak x ≡ true = ground (arith, h) in
    let listed : is_listed all x ≡ true = rw same l in
    (0, rw (leak, listed) (ap (λ y. some (not_freed y)) same))
found_in all (x ∷ us) more (suc i) {u} h l =
    let (k, e) = found_in all us more i h l in
    elim (Bool-cases (is_leak x && is_listed all x)) [
      | inl b ↦ (suc k, rw b e)
      | inr b ↦ (k, rw b e)
    ]

call_counts-Same : {W : Type 0} {s t : State W} → Same s t → call_counts t ≡ call_counts s
unfolding call_counts
call_counts-Same same = ground (arith, same)

-- What is printed, with the settings of one state and the numbers of calls of another.
all_printed :
    {W : Type 0} (us : List Slot) {s t u : State W}
    → Same s t
    → Same s u
    → (let tally = tally_slots t.settings.report_all_leaks us nothing_yet in
        tally.printed ++ totals tally ++ call_counts u)
      ≡ listed_of s.settings.report_all_leaks us
        ++ numbers s.settings.report_all_leaks us
        ++ call_counts s
all_printed us {s} {t} {u} p q =
    let all : t.settings.report_all_leaks ≡ s.settings.report_all_leaks =
      ap (λ x. x.report_all_leaks) p.settings in
    let printed = ap (λ x. x.printed) (from_nothing s.settings.report_all_leaks us) in
    rw (all, totals_lem s.settings.report_all_leaks us, printed, call_counts-Same q) refl

module _ {W : Type 0} (env : Env W) where
  -- Whenever `DUMA_delFrame` returns, the table and the settings are as before, and it has printed, in
  -- the table's order, the slots in use of other than internal requests that have a line number above
  -- zero, or all of them under DUMA_REPORT_ALL_LEAKS; behind them, if there is any such slot, the
  -- number of those printed and of those left out; and under DUMA_SHOW_ALLOC the numbers of calls.
  pub del_frame_lem :
      (s : State W)
      → let all = s.settings.report_all_leaks in
        Ensures
          (λ items t.
            (t.slots ≡ s.slots)
            × (t.settings ≡ s.settings)
            × (items ≡ listed_of all s.slots ++ numbers all s.slots ++ call_counts s))
          (del_frame env s)
  unfolding del_frame
  del_frame_lem s = Ensures-bind (get_sem-Same env s) λ _ s1 e1.
      Ensures-bind (page_allow_access-Same env _ _ s1) λ _ s2 e2.
        Ensures-bind (page_deny_access-Same env _ _ s2) λ _ s3 e3.
          Ensures-bind (rel_sem-Same env s3) λ _ s4 e4.
            let to2 : Same s s2 = Same-trans e1 e2 in
            let to4 : Same s s4 = Same-trans to2 (Same-trans e3 e4) in
            returns (to4.slots, to4.settings, all_printed s.slots to2 to4)

  -- Whenever `DUMA_delFrame` returns, each buffer in the user's view that has a line number above zero,
  -- or any under DUMA_REPORT_ALL_LEAKS, is among what it has printed.
  pub del_frame-not_freed :
      (s : State W) (i : ℕ) (u : Slot)
      → buffer_at s.slots i ≡ some u
      → is_listed s.settings.report_all_leaks u ≡ true
      → Ensures (λ items t. (k : ℕ) × (get_elem? items k ≡ some (not_freed u))) (del_frame env s)
  del_frame-not_freed s i u h l = Ensures-weaken (del_frame_lem s) λ items t (same, same', e).
      let all = s.settings.report_all_leaks in
      let (k, g) = found_in all s.slots (numbers all s.slots ++ call_counts s) i h l in
      (k, rw (e, append_assoc (listed_of all s.slots) (numbers all s.slots) (call_counts s)) g)
