-- ===== src/Allocator/Reduce/Spared.antt =====
-- What giving protected memory back does to the table.
use duma.Prelude.{
  ap, ◌∙◌, ℕ, ◌≡◌, ◌⊎◌, inl, inr, refl, arith, Bool, true, false, List, [], ◌∷◌, Bool-cases, ltb,
  leb,
}
use duma.Words.Defs.{add64, sub64, round_down}
use duma.Prelude.Int.{pos}
use duma.Slots.Types.{SlotState, FileSource, Allocator, Slot, is_state}
use duma.Machine.Env.{Env}
use duma.Machine.State.{State}
use duma.Machine.Monad.{Ensures-if, Result, Ensures, returns, Ensures-bind, Ensures-weaken}
use duma.Allocator.Guard.Same.{Same, Same-refl, Same-trans, page_delete-Same}
use duma.Allocator.Reduce.{
  Reduced, kept_size, shortened, cut_end, reduce_ends, reduce_wholes, reduce_protected_memory,
  put_slots, settle, stop_here,
}

-- Freed memory that is still there, and what giving it back leaves.
abbrev pub IsProtected : Slot → Type 0
IsProtected u = (u.state ≡ SlotState.all_protected) ⊎ (u.state ≡ SlotState.begin_protected)

-- The slot as the first loop leaves it: its region ends with the page of the user's address.
abbrev cut_slot : ℕ → Slot → Slot
cut_slot page u = record u {
  state = SlotState.begin_protected;
  internal_size = round_down (add64 (sub64 u.user_address u.internal_address) page) page;
}

-- The slot as the second loop leaves it: `protAddress` alone keeps its value.
abbrev cleared_slot : Slot → Slot
cleared_slot u = record {
  internal_address = 0;
  user_address = 0;
  prot_address = u.prot_address;
  internal_size = 0;
  user_size = 0;
  state = SlotState.empty;
  allocator = Allocator.int_alloc;
  file_source = FileSource.no_source;
  filename = 0;
  lineno = pos 0;
}

-- What has become of freed memory.
pub data IsGiven (page : ℕ) (u v : Slot) : Type 0 where
  cut : u.state ≡ SlotState.all_protected → v ≡ cut_slot page u → IsGiven page u v
  gone : IsProtected u → v ≡ cleared_slot u → IsGiven page u v

module _ (page : ℕ) where
  -- Only slots with freed memory change, and the table keeps its length.
  pub data Spared : List Slot → List Slot → Type 0 where
    done : Spared [] []
    as_before : {u : Slot} {us vs : List Slot} → Spared us vs → Spared (u ∷ us) (u ∷ vs)
    given :
        {u v : Slot} {us vs : List Slot}
        → IsGiven page u v
        → Spared us vs
        → Spared (u ∷ us) (v ∷ vs)

  Spared-refl : (us : List Slot) → Spared us us
  Spared-refl [] = done
  Spared-refl (u ∷ us) = as_before (Spared-refl us)

  -- A region is cut, and then gone.
  IsGiven-trans : {u v w : Slot} → IsGiven page u v → IsGiven page v w → IsGiven page u w
  IsGiven-trans {u} (cut st e) (cut st' e') = absurd (ground (arith, st', e))
  IsGiven-trans {u} (cut st e) (gone p e') = gone (inl st) (e' ∙ ap cleared_slot e)
  IsGiven-trans {u} (gone p e) (cut st' e') = absurd (ground (arith, st', e))
  IsGiven-trans {u} (gone p e) (gone (inl st) e') = absurd (ground (arith, st, e))
  IsGiven-trans {u} (gone p e) (gone (inr st) e') = absurd (ground (arith, st, e))

  Spared-trans : {us vs ws : List Slot} → Spared us vs → Spared vs ws → Spared us ws
  Spared-trans done done = done
  Spared-trans (as_before p) (as_before q) = as_before (Spared-trans p q)
  Spared-trans (as_before p) (given g q) = given g (Spared-trans p q)
  Spared-trans (given g p) (as_before q) = given g (Spared-trans p q)
  Spared-trans (given g p) (given h q) = given (IsGiven-trans g h) (Spared-trans p q)

pub is_state-eq : (x y : SlotState) → is_state x y ≡ true → y ≡ x
is_state-eq x y e = ground arith

module _ {W : Type 0} (env : Env W) (n : ℕ) where
  cut_end-Same : (u : Slot) (k : ℕ) (s : State W) → Ensures (λ _ t. Same s t) (cut_end env n u k s)
  unfolding cut_end
  cut_end-Same u k s = Ensures-bind (page_delete-Same env _ _ s) λ _ t same. returns same

  shortened_lem : (u : Slot) → shortened env.page_size u ≡ cut_slot env.page_size u
  unfolding kept_size
  shortened_lem u = refl

  abbrev Loop : List Slot → State W → Reduced → State W → Type 0
  Loop us s r t = Same s t × Spared env.page_size us r.slots

  go_on :
      (b : Bool) (us : List Slot) (k : ℕ) (s : State W)
      → Ensures (Loop us s) (reduce_ends env n us k s)
      → Ensures (Loop us s) (
          (elim b as (λ x. State W → Result (State W) Reduced) [
            | true ↦ stop_here env n us k
            | false ↦ reduce_ends env n us k
          ])
            s)
  go_on true us k s h = returns (Same-refl s, Spared-refl env.page_size us)
  go_on false us k s h = h

  reduce_ends-Spared :
      (us : List Slot) (k : ℕ) (s : State W) → Ensures (Loop us s) (reduce_ends env n us k s)
  unfolding reduce_ends
  reduce_ends-Spared [] k s = returns (Same-refl s, done)
  reduce_ends-Spared (u ∷ us) k s = elim (Bool-cases (ltb k n)) [
    | inr e ↦ rw (reduce_ends, e) (returns (Same-refl s, Spared-refl env.page_size (u ∷ us)))
    | inl e ↦ elim (Bool-cases (is_state SlotState.all_protected u.state)) [
      | inr e' ↦
          rw (reduce_ends, e, e')
            (Ensures-bind (reduce_ends-Spared us k s)
              λ r t (same, sp). returns (same, as_before sp))
      | inl e' ↦
          rw (reduce_ends, e, e')
            (Ensures-bind (cut_end-Same u k s) λ k' t same.
              Ensures-bind (go_on (leb n k') us k' t (reduce_ends-Spared us k' t))
                λ r t' (same', sp).
                  returns
                    (Same-trans same same', given (cut (is_state-eq _ _ e') (shortened_lem u)) sp))
    ]
  ]

  go_on' :
      (b : Bool) (us : List Slot) (k : ℕ) (s : State W)
      → Ensures (Loop us s) (reduce_wholes env n us k s)
      → Ensures (Loop us s) (
          (elim b as (λ x. State W → Result (State W) Reduced) [
            | true ↦ stop_here env n us k
            | false ↦ reduce_wholes env n us k
          ])
            s)
  go_on' true us k s h = returns (Same-refl s, Spared-refl env.page_size us)
  go_on' false us k s h = h

  reduce_wholes-Spared :
      (us : List Slot) (k : ℕ) (s : State W) → Ensures (Loop us s) (reduce_wholes env n us k s)
  unfolding reduce_wholes
  reduce_wholes-Spared [] k s = returns (Same-refl s, done)
  reduce_wholes-Spared (u ∷ us) k s = elim (Bool-cases (ltb k n)) [
    | inr e ↦ rw (reduce_wholes, e) (returns (Same-refl s, Spared-refl env.page_size (u ∷ us)))
    | inl e ↦ elim (Bool-cases (is_state SlotState.begin_protected u.state)) [
      | inr e' ↦
          rw (reduce_wholes, e, e')
            (Ensures-bind (reduce_wholes-Spared us k s)
              λ r t (same, sp). returns (same, as_before sp))
      | inl e' ↦
          rw (reduce_wholes, e, e')
            (Ensures-bind (page_delete-Same env _ _ s) λ _ t same.
              Ensures-bind (go_on' (leb n _) us _ t (reduce_wholes-Spared us _ t))
                λ r t' (same', sp).
                  returns (Same-trans same same', given (gone (inr (is_state-eq _ _ e')) refl) sp))
    ]
  ]

  -- The table and what stands beside it.
  beside :
      {us vs : List Slot} {s t : State W}
      → Spared env.page_size us vs
      → Same s t
      → Spared env.page_size us vs
        × (t.memory ≡ s.memory)
        × (t.settings ≡ s.settings)
        × (t.alloc_list ≡ s.alloc_list)
        × (t.null_addr ≡ s.null_addr)
        × (t.init_state ≡ s.init_state)
  beside sp same =
      (sp, same.memory, same.settings, same.alloc_list, same.null_addr, same.init_state)

  beside_again :
      {us vs ws : List Slot} {s t t' : State W}
      → Spared env.page_size us vs
      → Same s t
      → Same (record t { slots = ws }) t'
      → Spared env.page_size us vs
        × (t'.memory ≡ s.memory)
        × (t'.settings ≡ s.settings)
        × (t'.alloc_list ≡ s.alloc_list)
        × (t'.null_addr ≡ s.null_addr)
        × (t'.init_state ≡ s.init_state)
  beside_again sp same same' = (
    sp,
    same'.memory ∙ same.memory,
    same'.settings ∙ same.settings,
    same'.alloc_list ∙ same.alloc_list,
    same'.null_addr ∙ same.null_addr,
    same'.init_state ∙ same.init_state,
  )

  pub reduce_protected_memory-Beside :
      (s : State W)
      → Ensures
          (λ _ t.
            Spared env.page_size s.slots t.slots
            × (t.memory ≡ s.memory)
            × (t.settings ≡ s.settings)
            × (t.alloc_list ≡ s.alloc_list)
            × (t.null_addr ≡ s.null_addr)
            × (t.init_state ≡ s.init_state))
          (reduce_protected_memory env n s)
  unfolding reduce_protected_memory put_slots settle
  reduce_protected_memory-Beside s = Ensures-bind (reduce_ends-Spared s.slots 0 s) λ r t (same, sp).
      Ensures-if _ _ r.enough (returns (beside sp same)) (
        Ensures-bind (reduce_wholes-Spared r.slots r.amount (record t { slots = r.slots }))
          λ r' t' (same', sp').
            let end : Spared env.page_size s.slots r'.slots = Spared-trans env.page_size sp sp' in
            Ensures-if _ _ r'.enough (returns (beside_again end same same'))
              (returns (beside_again end same same')))

  -- Whenever `reduceProtectedMemory` returns, the table is as long as before, and only slots with freed
  -- memory that was kept protected have changed. One whose region was whole keeps all but its state and
  -- its size, which ends with the page of the user's address; or any such slot is empty and keeps but
  -- `protAddress`. No byte and no setting has changed.
  pub reduce_protected_memory-Spared :
      (s : State W)
      → Ensures
          (λ _ t.
            Spared env.page_size s.slots t.slots
            × (t.memory ≡ s.memory)
            × (t.settings ≡ s.settings))
          (reduce_protected_memory env n s)
  reduce_protected_memory-Spared s =
      Ensures-weaken (reduce_protected_memory-Beside s) λ _ t h. (h.0, h.1, h.2)
