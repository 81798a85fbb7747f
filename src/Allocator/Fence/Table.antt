-- ===== src/Allocator/Fence/Table.antt =====
-- The allocator's own slot, where the table lies, next to writes to other slots.
use duma.Prelude.{
  sym, ap, ◌∙◌, ℕ, ◌≡◌, ◌≢◌, ◌⊎◌, inl, inr, arith, some, List, get_elem?, set, get_elem?-set_ne,
}
use duma.Slots.Types.{SlotState, Slot, internal, alloc_type}
use duma.Machine.Env.{Access}
use duma.Allocator.Fence.{HasTable}

module _ {W : Type 0} (look : W → ℕ → Access) (page : ℕ) where
  pub set_table :
      (a n i : ℕ) (v : Slot) (us : List Slot) (table : HasTable look page a n us)
      → i ≢ table.index
      → HasTable look page a n (set us i v)
  set_table a n i v us table other = record {
    index = table.index;
    slot = table.slot;
    here = get_elem?-set_ne us v other ∙ table.here;
    state = table.state;
    kind = table.kind;
    user = table.user;
    aligned = table.aligned;
    whole = table.whole;
    inside = table.inside;
  }

  -- The slot of the table is in use, and is the allocator's own.
  pub not_table :
      (a n i : ℕ) (u : Slot) (us : List Slot) (table : HasTable look page a n us)
      → get_elem? us i ≡ some u
      → (u.state ≢ SlotState.in_use) ⊎ (alloc_type u.allocator ≢ internal)
      → i ≢ table.index
  not_table a n i u us table here what e =
      clash u table.slot (sym here ∙ ap (get_elem? us) e ∙ table.here) what table.state table.kind
    where
      clash :
          (x y : Slot)
          → some x ≡ some y
          → (x.state ≢ SlotState.in_use) ⊎ (alloc_type x.allocator ≢ internal)
          → y.state ≡ SlotState.in_use
          → alloc_type y.allocator ≡ internal
          → ⊥
      clash x y e (inl idle) st kind = ground (arith, e, idle, st)
      clash x y e (inr foreign) st kind = ground (arith, e, foreign, kind)
