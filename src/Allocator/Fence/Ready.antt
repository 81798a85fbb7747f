-- ===== src/Allocator/Fence/Ready.antt =====
-- `split_slot` and the pages of the regions: a free slot of the size that is needed is left.
use duma.Prelude.{
  ◌<◌, sym, ◌∙◌, ℕ, ◌%◌, ◌≤◌, ◌≡◌, ◌≢◌, inl, arith, refl, ltb, Option, none, some, List, get_elem?,
  set, get_elem?-set_ne, get_elem?-set_self, lt_of_get_elem?,
}
use duma.Words.{IsPower, IsPower-bounds}
use duma.Slots.Types.{SlotState, Slot}
use duma.Machine.Env.{Env, Access, IsOs}
use duma.Machine.State.{State}
use duma.Machine.Monad.{Ensures, returns, faults, Ensures-cases}
use duma.Allocator.Update.{update_slot}
use duma.Allocator.Request.{Request}
use duma.Allocator.Region.{split_slot}
use duma.Allocator.Fence.{IsSound, Tidy}
use duma.Allocator.Fence.Table.{set_table, not_table}
use duma.Allocator.Fence.Occupying.{Suits, whole_pages}
use duma.Allocator.Fence.Splitting.{update_slot_lem, front, back, distinct, split-Ordered}

module _ {W : Type 0} (env : Env W) (look : W → ℕ → Access) (os : IsOs env look)
    (power : IsPower env.page_size) (r : Request) (alignment needed : ℕ)
    (suits : Suits env.page_size r alignment needed) where
  -- An empty slot for the rest of a region.
  abbrev pub IsSpare : Option ℕ → List Slot → Type 0
  IsSpare spare us =
      (e : ℕ)
      → spare ≡ some e
      → (v : Slot) × (get_elem? us e ≡ some v) × (v.state ≡ SlotState.empty)

  -- A free region, of the size that is needed.
  pub record IsReady (i : ℕ) (a : ℕ) (s : State W) : Type 0 where
    pub tidy : Tidy look env.page_size s
    pub slot : Slot
    pub here : get_elem? s.slots i ≡ some slot
    pub state : slot.state ≡ SlotState.free
    pub size : slot.internal_size ≡ needed
    pub start : slot.internal_address ≡ a

  pub idle :
      (u : Slot) (x : SlotState) → u.state ≡ x → x ≢ SlotState.in_use → u.state ≢ SlotState.in_use
  idle u x st ne e = ne (sym st ∙ e)

  module _ (i e : ℕ) (u : Slot) (s : State W) (tidy : Tidy look env.page_size s)
      (here : get_elem? s.slots i ≡ some u) (st : u.state ≡ SlotState.free)
      (large : needed < u.internal_size) (spare : Slot)
      (spare_here : get_elem? s.slots e ≡ some spare)
      (spare_idle : spare.state ≡ SlotState.empty) where
    whole : needed % env.page_size ≡ 0
    whole = (whole_pages env look os power r alignment needed suits).0

    positive : 0 < needed
    positive =
        omega
          (arith, (whole_pages env look os power r alignment needed suits).1, IsPower-bounds power)

    sound : IsSound look env.page_size s.world u
    sound = tidy.ordered.sound i u here

    apart : i ≢ e
    apart =
        distinct env look power needed whole positive s.world u sound st large s.slots i e spare
          tidy.ordered here spare_here spare_idle

    still_here : get_elem? (set s.slots e (back needed u)) i ≡ some u
    still_here = get_elem?-set_ne s.slots (back needed u) (λ h. apart (sym h)) ∙ here

    slots_of :
        update_slot i
          (λ x. record x { internal_size = needed })
          (update_slot e (λ _. back needed u) s.slots)
        ≡ set (set s.slots e (back needed u)) i (front needed u)
    slots_of =
        let first = update_slot_lem s.slots e spare (λ _. back needed u) spare_here in
        rw first (
          update_slot_lem (set s.slots e (back needed u)) i u
            (λ x. record x { internal_size = needed }) still_here)

    split-IsReady :
        (t : State W)
        → t.slots ≡ set (set s.slots e (back needed u)) i (front needed u)
        → t.world ≡ s.world
        → t.alloc_list ≡ s.alloc_list
        → t.alloc_list_size ≡ s.alloc_list_size
        → IsReady i u.internal_address t
    split-IsReady t e1 e2 e3 e4 =
        let page = env.page_size in
        let us1 = set s.slots e (back needed u) in
        let table1 =
          set_table look page s.alloc_list s.alloc_list_size e (back needed u) s.slots tidy.table (
            not_table look page s.alloc_list s.alloc_list_size e spare s.slots tidy.table spare_here
              (inl (idle spare SlotState.empty spare_idle (λ h. ground (arith, h))))) in
        record {
          tidy = record {
            ordered =
                rw (e1, e2)
                  (split-Ordered env look power needed whole positive s.world u sound st large
                    s.slots i e spare tidy.ordered here spare_here spare_idle);
            table =
                rw (e1, e3, e4)
                  (set_table look page s.alloc_list s.alloc_list_size i (front needed u) us1 table1
                    (not_table look page s.alloc_list s.alloc_list_size i u us1 table1 still_here
                      (inl (idle u SlotState.free st (λ h. ground (arith, h))))));
          };
          slot = front needed u;
          here =
              rw e1 (get_elem?-set_self us1 i (front needed u) (lt_of_get_elem? us1 i still_here));
          state = st;
          size = refl;
          start = refl;
        }

  pub split_slot-IsReady :
      (i : ℕ) (spare : Option ℕ) (u : Slot) (s : State W)
      → Tidy look env.page_size s
      → get_elem? s.slots i ≡ some u
      → u.state ≡ SlotState.free
      → needed ≤ u.internal_size
      → IsSpare spare s.slots
      → Ensures (λ _ t. IsReady i u.internal_address t) (split_slot env needed i spare s)
  unfolding split_slot
  split_slot-IsReady i none u s tidy here st large rests =
      rw (split_slot, here)
        (Ensures-cases (ltb needed u.internal_size) (λ _. faults)
          (λ le. returns (record {
            tidy = tidy;
            slot = u;
            here = here;
            state = st;
            size = ground (arith, le, large);
            start = refl;
          })))
  split_slot-IsReady i (some e) u s tidy here st large rests =
      let (v, at_e, no_use) = rests e refl in
      rw (split_slot, here)
        (Ensures-cases (ltb needed u.internal_size)
          (λ lt.
            let larger : needed < u.internal_size = ground (arith, lt) in
            returns (
              split-IsReady i e u s tidy here st larger v at_e no_use _
                (slots_of i e u s tidy here st larger v at_e no_use) refl refl refl))
          (λ le. returns (record {
            tidy = tidy;
            slot = u;
            here = here;
            state = st;
            size = ground (arith, le, large);
            start = refl;
          })))
