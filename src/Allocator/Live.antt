-- ===== src/Allocator/Live.antt =====
-- The user's view of the slot table: the live buffers by their slots.
pub mod Steps
pub mod Answers
pub mod Regions
pub mod Allocation
pub mod Freeing
pub mod Growth
pub mod Calls
pub mod Moving
use duma.Prelude.{
  ◌∙◌, ℕ, ◌+◌, ◌<◌, ◌≡◌, ◌≢◌, inl, inr, refl, sym, arith, Bool, true, false, not, ◌&&◌, Option,
  none, some, List, [], ◌∷◌, ◌++◌, zero, suc, ◌==◌, if◌then◌else◌, Bool-cases, get_elem?, set,
  length, lt_of_get_elem?, Option-cases,
}
use duma.Slots.Types.{SlotState, Slot, internal, alloc_type, same_type, is_state}
use duma.Machine.State.{State}
use duma.Allocator.Update.{update_slot}
use duma.Allocator.Reduce.Spared.{Spared, done, as_before, given, cut, gone}
use duma.Allocator.Guard.Same.{Same}

-- A buffer of the user is a slot in use that is not the allocator's own.
abbrev pub is_buffer : Slot → Bool
is_buffer u = is_state SlotState.in_use u.state && not (same_type internal (alloc_type u.allocator))

abbrev pub as_buffer : Slot → Option Slot
as_buffer u = if is_buffer u then some u else none

-- The abstract view: the buffer at each place, if there is one.
abbrev pub buffer_at : List Slot → ℕ → Option Slot
buffer_at [] i = none
buffer_at (u ∷ us) zero = as_buffer u
buffer_at (u ∷ us) (suc i) = buffer_at us i

-- The view with one place changed.
abbrev pub update : (ℕ → Option Slot) → ℕ → Option Slot → ℕ → Option Slot
update f i o j = if j == i then o else f j

-- Tables with the same view.
abbrev pub Stay : List Slot → List Slot → Type 0
Stay us vs = (i : ℕ) → buffer_at vs i ≡ buffer_at us i

-- All buffers are where they were, with the settings.
pub record Kept {W : Type 0} (s t : State W) : Type 0 where
  pub settings : t.settings ≡ s.settings
  pub null_addr : t.null_addr ≡ s.null_addr
  pub init_state : t.init_state ≡ s.init_state
  pub table : 0 < s.alloc_list → 0 < t.alloc_list
  pub buffers : Stay s.slots t.slots

module _ {W : Type 0} where
  pub Kept-refl : (s : State W) → Kept s s
  Kept-refl s = record {
    settings = refl;
    null_addr = refl;
    init_state = refl;
    table = λ p. p;
    buffers = λ i. refl;
  }

  pub Kept-trans : {s t r : State W} → Kept s t → Kept t r → Kept s r
  Kept-trans p q = record {
    settings = q.settings ∙ p.settings;
    null_addr = q.null_addr ∙ p.null_addr;
    init_state = q.init_state ∙ p.init_state;
    table = λ h. q.table (p.table h);
    buffers = λ i. q.buffers i ∙ p.buffers i;
  }

  pub Same-Kept : {s t : State W} → Same s t → Kept s t
  Same-Kept {s} {t} p =
      let e = p.slots in
      record {
        settings = p.settings;
        null_addr = p.null_addr;
        init_state = p.init_state;
        table = λ h. ground (arith, p.alloc_list);
        buffers = λ i. rw e refl;
      }

-- Giving protected memory back concerns no buffer.
pub Spared-Stay : (page : ℕ) {us vs : List Slot} → Spared page us vs → Stay us vs
Spared-Stay page done i = refl
Spared-Stay page (as_before p) zero = refl
Spared-Stay page (as_before p) (suc i) = Spared-Stay page p i
Spared-Stay page (given (cut st e) p) zero = ground (arith, st, e)
Spared-Stay page (given (gone (inl st) e) p) zero = ground (arith, st, e)
Spared-Stay page (given (gone (inr st) e) p) zero = ground (arith, st, e)
Spared-Stay page (given g p) (suc i) = Spared-Stay page p i

-- A write to a slot changes the view there.
pub buffer_at-set :
    (slots : List Slot) (i : ℕ) (v : Slot) (j : ℕ)
    → i < length slots
    → buffer_at (set slots i v) j ≡ update (buffer_at slots) i (as_buffer v) j
buffer_at-set [] i v j lt = elim lt [ ]
buffer_at-set (x ∷ xs) zero v zero lt = refl
buffer_at-set (x ∷ xs) zero v (suc j) lt = ground arith
buffer_at-set (x ∷ xs) (suc i) v zero lt = ground arith
buffer_at-set (x ∷ xs) (suc i) v (suc j) lt = ground (arith, buffer_at-set xs i v j)

buffer_at-get :
    (slots : List Slot) (i : ℕ) {u : Slot}
    → get_elem? slots i ≡ some u
    → buffer_at slots i ≡ as_buffer u
buffer_at-get [] i e = cc
buffer_at-get (x ∷ xs) zero e = ground (arith, e)
buffer_at-get (x ∷ xs) (suc i) e = buffer_at-get xs i e

-- A write of no buffer to a slot that holds none.
pub set-Stay :
    (slots : List Slot) (i : ℕ) (v : Slot)
    → i < length slots
    → buffer_at slots i ≡ none
    → is_buffer v ≡ false
    → Stay slots (set slots i v)
set-Stay slots i v lt idle off j = elim (Bool-cases (j == i)) [
  | inl e ↦
      let same : j ≡ i = ground (arith, e) in rw same (ground (arith, buffer_at-set slots i v i lt))
  | inr e ↦ ground (arith, buffer_at-set slots i v j lt)
]

pub update_slot-Stay :
    (slots : List Slot) (i : ℕ) (f : Slot → Slot)
    → buffer_at slots i ≡ none
    → ((u : Slot) → get_elem? slots i ≡ some u → is_buffer (f u) ≡ false)
    → Stay slots (update_slot i f slots)
unfolding update_slot
update_slot-Stay slots i f idle off = elim (Option-cases (get_elem? slots i)) [
  | inl e ↦ rw (update_slot, e) (λ j. refl)
  | inr (x, e) ↦
      rw (update_slot, e) (set-Stay slots i (f x) (lt_of_get_elem? slots i e) idle (off x e))
]

-- More slots behind the table that hold no buffer.
pub append-Stay : (us vs : List Slot) → ((i : ℕ) → buffer_at vs i ≡ none) → Stay us (us ++ vs)
append-Stay [] vs off i = off i
append-Stay (x ∷ us) vs off zero = refl
append-Stay (x ∷ us) vs off (suc i) = append-Stay us vs off i
