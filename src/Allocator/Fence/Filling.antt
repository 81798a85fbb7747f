-- ===== src/Allocator/Fence/Filling.antt =====
-- New memory from the system goes into an empty slot of the table.
use duma.Prelude.{
  ℕ, zero, suc, ◌%◌, ◌<◌, ◌≡◌, inl, inr, arith, refl, some, List, [], ◌∷◌, get_elem?, set, length,
}
use duma.Words.{IsPower}
use duma.Slots.Types.{SlotState, Slot}
use duma.Machine.Env.{Env, Access, IsOs}
use duma.Machine.State.{State}
use duma.Allocator.Reduce.Spared.{IsProtected}
use duma.Allocator.Fence.{HasUser, no_user, at_start, held, Keeps, IsSound, Ordered, HasTable, Tidy}
use duma.Allocator.Fence.Order.{take-Ordered}
use duma.Allocator.Fence.Table.{set_table, not_table}
use duma.Allocator.Fence.Creating.{IsFresh}

pub get_elem?-within :
    (us : List Slot) (i : ℕ) → i < length us → (u : Slot) × (get_elem? us i ≡ some u)
get_elem?-within [] i lt = absurd (omega arith)
get_elem?-within (u ∷ us) zero lt = (u, refl)
get_elem?-within (u ∷ us) (suc i) lt = get_elem?-within us i (omega arith)

module _ {W : Type 0} (env : Env W) (look : W → ℕ → Access) (os : IsOs env look)
    (power : IsPower env.page_size) where
  -- An empty slot at a place.
  pub record IsEmptyAt (i : ℕ) (s : State W) : Type 0 where
    pub slot : Slot
    pub here : get_elem? s.slots i ≡ some slot
    pub state : slot.state ≡ SlotState.empty

  not_freed : (u : Slot) → u.state ≡ SlotState.empty → IsProtected u → ⊥
  not_freed u e (inl p) = ground (arith, e, p)
  not_freed u e (inr p) = ground (arith, e, p)

  pub keep_empty : (i : ℕ) (s t : State W) → Keeps s.slots t.slots → IsEmptyAt i s → IsEmptyAt i t
  keep_empty i s t k e = record {
    slot = e.slot;
    here = k i e.slot e.here (not_freed e.slot e.state);
    state = e.state;
  }

  -- The slot of new memory.
  abbrev pub filled : ℕ → ℕ → Slot → Slot
  filled a n u = record u { internal_address = a; internal_size = n; state = SlotState.free }

  module _ (i n a : ℕ) (u : Slot) (s : State W) (tidy : Tidy look env.page_size s)
      (here : get_elem? s.slots i ≡ some u) (idle : u.state ≡ SlotState.empty)
      (whole : n % env.page_size ≡ 0) (fresh : IsFresh env look os power n a s) where
    -- An empty slot has no address for the user.
    unused_user :
        (v : Slot)
        → IsSound look env.page_size s.world v
        → v.state ≡ SlotState.empty
        → v.user_address ≡ 0
    unused_user v sound st = by_user v sound.user (sound.hollow st) st
      where
        by_user :
            (v : Slot)
            → HasUser v
            → v.internal_size ≡ 0
            → v.state ≡ SlotState.empty
            → v.user_address ≡ 0
        by_user v (no_user e) z st = e
        by_user v (at_start e pos) z st = absurd (omega arith)
        by_user v (held (inl p)) z st = absurd (ground (arith, p, st))
        by_user v (held (inr (inl p))) z st = absurd (ground (arith, p, st))
        by_user v (held (inr (inr p))) z st = absurd (ground (arith, p, st))

    filled-IsSound : IsSound look env.page_size s.world (filled a n u)
    filled-IsSound = record {
      regular = record { aligned = fresh.start; whole = whole; low = fresh.low };
      mapped = λ x i m. ground (arith, m, fresh.open_all x i.0 i.1);
      hollow = λ h. absurd (ground (arith, h));
      plain = λ _. (tidy.ordered.sound i u here).plain (inr idle);
      holds = λ h. absurd (ground (arith, h));
      user = no_user (unused_user u (tidy.ordered.sound i u here) idle);
      fence = λ b. absurd (ground (arith, b));
      dead = λ h. absurd (ground (arith, h));
    }

    pub filled-Ordered : Ordered look env.page_size s.world (set s.slots i (filled a n u))
    filled-Ordered =
        take-Ordered look env.page_size s.world s.world s.slots i (filled a n u) tidy.ordered
          (λ j y x h ne in1 in2. fresh.clear j y x h in1 in2.0 in2.1) (λ j y x h ne in1. refl)
          filled-IsSound

    pub filled-Table :
        HasTable look env.page_size s.alloc_list s.alloc_list_size (set s.slots i (filled a n u))
    filled-Table =
        set_table look env.page_size s.alloc_list s.alloc_list_size i (filled a n u) s.slots
          tidy.table
          (not_table look env.page_size s.alloc_list s.alloc_list_size i u s.slots tidy.table here
            (inl (λ h. ground (arith, h, idle))))
