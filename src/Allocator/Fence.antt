-- ===== src/Allocator/Fence.antt =====
-- The pages of the regions in the slot table: which addresses the program may use.
pub mod Protection
pub mod Placing
pub mod Splitting
pub mod Ready
pub mod Claiming
pub mod Creating
pub mod Filling
pub mod Chunks
pub mod Serving
pub mod Allocating
pub mod Occupying
pub mod Order
pub mod Table
pub mod Surroundings
pub mod Reducing
pub mod Cutting
pub mod Reduction
pub mod Disposing
pub mod Freeing
mod Tests
use duma.Prelude.{
  sym, ◌∙◌, ℕ, ◌+◌, ◌%◌, ◌^◌, ◌≤◌, ◌<◌, ◌≡◌, ◌≢◌, ◌⊎◌, refl, true, some, List, get_elem?, arith,
}
use duma.Slots.Types.{SlotState, Slot, internal, alloc_type}
use duma.Machine.Env.{Access, unmapped, denied, granted}
use duma.Machine.State.{State}
use duma.Allocator.Reduce.Spared.{IsProtected}
use duma.Allocator.Live.{is_buffer}

-- The addresses of a slot's region.
abbrev pub Inside : Slot → ℕ → Type 0
Inside u x = (u.internal_address ≤ x) × (x < u.internal_address + u.internal_size)

-- Whole pages in the lower half of the address space.
pub record IsRegular (page : ℕ) (u : Slot) : Type 0 where
  pub aligned : u.internal_address % page ≡ 0
  pub whole : u.internal_size % page ≡ 0
  pub low : u.internal_address + u.internal_size < 2 ^ 63

-- A slot with a buffer or with freed memory.
abbrev pub IsHeld : Slot → Type 0
IsHeld u = (u.state ≡ SlotState.in_use) ⊎ IsProtected u

-- The user's address of a slot is NULL, or stands at the start of a region that is not used, or in one
-- that is.
pub data HasUser (u : Slot) : Type 0 where
  no_user : u.user_address ≡ 0 → HasUser u
  at_start : u.user_address ≡ u.internal_address → 0 < u.internal_size → HasUser u
  held : IsHeld u → HasUser u

-- Slots without freed memory stay where they are.
abbrev pub Keeps : List Slot → List Slot → Type 0
Keeps us vs =
    (i : ℕ) (u : Slot) → get_elem? us i ≡ some u → (IsProtected u → ⊥) → get_elem? vs i ≡ some u

module _ {W : Type 0} (look : W → ℕ → Access) (page : ℕ) where
  -- The addresses of a buffer, as far as they lie in its region.
  abbrev pub IsUsable : W → Slot → Type 0
  IsUsable w u =
      (x : ℕ)
      → Inside u x
      → u.user_address ≤ x
      → x < u.user_address + u.user_size
      → look w x ≡ granted

  -- A buffer of the user: it can be used, and the pages of its region behind it, or those before it,
  -- cannot. With no bytes the whole region cannot be used.
  pub data IsFenced (w : W) (u : Slot) : Type 0 where
    above :
        IsUsable w u
        → ((x : ℕ) → Inside u x → u.prot_address ≤ x → look w x ≡ denied)
        → u.internal_address ≤ u.user_address
        → u.user_address + u.user_size ≤ u.prot_address
        → u.prot_address < u.user_address + u.user_size + page
        → u.prot_address + page ≤ u.internal_address + u.internal_size
        → IsFenced w u
    below :
        IsUsable w u
        → ((x : ℕ) → Inside u x → x < u.user_address → look w x ≡ denied)
        → u.internal_address + page ≤ u.user_address
        → u.user_address + u.user_size ≤ u.internal_address + u.internal_size
        → IsFenced w u
    no_bytes : u.user_size ≡ 0 → ((x : ℕ) → Inside u x → look w x ≡ denied) → IsFenced w u

  -- A slot whose region and pages are as its state demands.
  pub record IsSound (w : W) (u : Slot) : Type 0 where
    pub regular : IsRegular page u
    pub mapped : (x : ℕ) → Inside u x → look w x ≢ unmapped
    pub hollow : u.state ≡ SlotState.empty → u.internal_size ≡ 0
    pub plain :
        (u.state ≡ SlotState.free) ⊎ (u.state ≡ SlotState.empty) → alloc_type u.allocator ≡ internal
    pub holds :
        IsHeld u
        → (u.internal_address ≤ u.user_address)
          × (u.user_address < u.internal_address + u.internal_size)
    pub user : HasUser u
    pub fence : is_buffer u ≡ true → IsFenced w u
    pub dead : IsProtected u → (x : ℕ) → Inside u x → look w x ≡ denied

  -- The slots of a table: each is sound, and no address lies in the regions of two.
  pub record Ordered (w : W) (us : List Slot) : Type 0 where
    pub sound : (i : ℕ) (u : Slot) → get_elem? us i ≡ some u → IsSound w u
    pub apart :
        (i j : ℕ) (u v : Slot) (x : ℕ)
        → get_elem? us i ≡ some u
        → get_elem? us j ≡ some v
        → Inside u x
        → Inside v x
        → i ≡ j

  -- The slot of the allocator's own that holds the table.
  pub record HasTable (a n : ℕ) (us : List Slot) : Type 0 where
    pub index : ℕ
    pub slot : Slot
    pub here : get_elem? us index ≡ some slot
    pub state : slot.state ≡ SlotState.in_use
    pub kind : alloc_type slot.allocator ≡ internal
    pub user : slot.user_address ≡ a
    pub aligned : a % page ≡ 0
    pub whole : n % page ≡ 0
    pub inside : (x : ℕ) → a ≤ x → x < a + n → Inside slot x

  pub record Tidy (s : State W) : Type 0 where
    pub ordered : Ordered s.world s.slots
    pub table : HasTable s.alloc_list s.alloc_list_size s.slots

  -- What concerns a slot are the addresses of its region only.
  IsFenced-move :
      (w w' : W) (u : Slot)
      → ((x : ℕ) → Inside u x → look w' x ≡ look w x)
      → IsFenced w u
      → IsFenced w' u
  IsFenced-move w w' u e (above p q a b c d) =
      above (λ x i lo hi. e x i ∙ p x i lo hi) (λ x i lo. e x i ∙ q x i lo) a b c d
  IsFenced-move w w' u e (below p q a b) =
      below (λ x i lo hi. e x i ∙ p x i lo hi) (λ x i lo. e x i ∙ q x i lo) a b
  IsFenced-move w w' u e (no_bytes z q) = no_bytes z (λ x i. e x i ∙ q x i)

  pub IsSound-move :
      (w w' : W) (u : Slot)
      → ((x : ℕ) → Inside u x → look w' x ≡ look w x)
      → IsSound w u
      → IsSound w' u
  IsSound-move w w' u e s = record {
    regular = s.regular;
    mapped = λ x i m. s.mapped x i (sym (e x i) ∙ m);
    hollow = s.hollow;
    plain = s.plain;
    holds = s.holds;
    user = s.user;
    fence = λ b. IsFenced-move w w' u e (s.fence b);
    dead = λ p x i. e x i ∙ s.dead p x i;
  }
