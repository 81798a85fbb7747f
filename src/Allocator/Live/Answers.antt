-- ===== src/Allocator/Live/Answers.antt =====
-- How a request may end, in the user's view, and the places that the search finds.
use duma.Prelude.{
  ◌∙◌, ℕ, ◌<◌, ◌≡◌, refl, sym, ap, arith, false, Option, none, some, List, [], ◌∷◌, zero, suc, ◌==◌,
  if◌then◌else◌, get_elem?, length,
}
use duma.Slots.{search_slots}
use duma.Slots.BestFit.{Seen, nothing_found, search_slots-Seen}
use duma.Slots.Types.{SlotState, Slot}
use duma.Machine.State.{State}
use duma.Allocator.Request.{Request}
use duma.Allocator.Live.{buffer_at, as_buffer, is_buffer, update, Kept, Kept-trans}

pub no_buffer :
    (slots : List Slot) (i : ℕ)
    → ((u : Slot) → get_elem? slots i ≡ some u → is_buffer u ≡ false)
    → buffer_at slots i ≡ none
no_buffer [] i h = refl
no_buffer (x ∷ xs) zero h = ground (arith, h x refl)
no_buffer (x ∷ xs) (suc i) h = no_buffer xs i h

-- A place that may be there, and holds no buffer.
abbrev pub IsSpare : Option ℕ → List Slot → Type 0
IsSpare none slots = Unit
IsSpare (some i) slots = buffer_at slots i ≡ none

-- What a request has changed where a slot was put into use for it.
pub record Placed {W : Type 0} (r : Request) (a : ℕ) (s t : State W) : Type 0 where
  pub index : ℕ
  pub slot : Slot
  pub settings : t.settings ≡ s.settings
  pub null_addr : t.null_addr ≡ s.null_addr
  pub init_state : t.init_state ≡ s.init_state
  pub table : 0 < s.alloc_list → 0 < t.alloc_list
  pub before : buffer_at s.slots index ≡ none
  pub view : (j : ℕ) → buffer_at t.slots j ≡ update (buffer_at s.slots) index (as_buffer slot) j
  pub address : slot.user_address ≡ a
  pub size : slot.user_size ≡ r.user_size
  pub allocator : slot.allocator ≡ r.allocator
  pub state : slot.state ≡ SlotState.in_use

-- How a request may end: with NULL, with the address for no bytes, or with a buffer.
pub data Answered {W : Type 0} (r : Request) (a : ℕ) (s t : State W) : Type 0 where
  null : a ≡ 0 → Kept s t → Answered r a s t
  no_bytes : a ≡ s.null_addr → r.user_size ≡ 0 → Kept s t → Answered r a s t
  placed : Placed r a s t → Answered r a s t

module _ {W : Type 0} {r : Request} {a : ℕ} where
  pub Kept-Placed : {s t u : State W} → Kept s t → Placed r a t u → Placed r a s u
  Kept-Placed {s} {t} p q = record {
    index = q.index;
    slot = q.slot;
    settings = q.settings ∙ p.settings;
    null_addr = q.null_addr ∙ p.null_addr;
    init_state = q.init_state ∙ p.init_state;
    table = λ h. q.table (p.table h);
    before = sym (p.buffers q.index) ∙ q.before;
    view = λ j. q.view j ∙ ap (λ o. if j == q.index then as_buffer q.slot else o) (p.buffers j);
    address = q.address;
    size = q.size;
    allocator = q.allocator;
    state = q.state;
  }

  pub Placed-Kept : {s t u : State W} → Placed r a s t → Kept t u → Placed r a s u
  Placed-Kept p q = record {
    index = p.index;
    slot = p.slot;
    settings = q.settings ∙ p.settings;
    null_addr = q.null_addr ∙ p.null_addr;
    init_state = q.init_state ∙ p.init_state;
    table = λ h. q.table (p.table h);
    before = p.before;
    view = λ j. q.buffers j ∙ p.view j;
    address = p.address;
    size = p.size;
    allocator = p.allocator;
    state = p.state;
  }

  pub Kept-Answered : {s t u : State W} → Kept s t → Answered r a t u → Answered r a s u
  Kept-Answered p (null e q) = null e (Kept-trans p q)
  Kept-Answered p (no_bytes e n q) = no_bytes (e ∙ p.null_addr) n (Kept-trans p q)
  Kept-Answered p (placed q) = placed (Kept-Placed p q)

  pub Answered-Kept : {s t u : State W} → Answered r a s t → Kept t u → Answered r a s u
  Answered-Kept (null e p) q = null e (Kept-trans p q)
  Answered-Kept (no_bytes e n p) q = no_bytes e n (Kept-trans p q)
  Answered-Kept (placed p) q = placed (Placed-Kept p q)

-- The places of the search hold no buffer.
module _ (size : ℕ) (slots : List Slot) where
  seen : Seen size slots (length slots) (search_slots size slots 0 nothing_found)
  seen = search_slots-Seen size slots

  pub full_free :
      (k b : ℕ)
      → (search_slots size slots 0 nothing_found).full ≡ some (k, b)
      → buffer_at slots k ≡ none
  full_free k b e = no_buffer slots k λ u h. let free = (seen.chosen k b u e h).1 in rw free refl

  pub empty0_free :
      (k : ℕ) → (search_slots size slots 0 nothing_found).empty0 ≡ some k → buffer_at slots k ≡ none
  empty0_free k e = no_buffer slots k λ u h. let empty = seen.empty0 k u e h in rw empty refl

  pub empty1_free :
      (k : ℕ) → (search_slots size slots 0 nothing_found).empty1 ≡ some k → buffer_at slots k ≡ none
  empty1_free k e = no_buffer slots k λ u h. let empty = seen.empty1 k u e h in rw empty refl

  pub IsSpare-free :
      (o : Option ℕ) → (search_slots size slots 0 nothing_found).empty0 ≡ o → IsSpare o slots
  IsSpare-free none e = tt
  IsSpare-free (some k) e = empty0_free k e
