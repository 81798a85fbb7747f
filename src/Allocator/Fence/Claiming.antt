-- ===== src/Allocator/Fence/Claiming.antt =====
-- A region of the table becomes a buffer: `use_region` and the pages of the regions.
use duma.Prelude.{
  ◌+◌, ◌<◌, ℕ, ◌≤◌, ◌≡◌, ◌≢◌, ◌⊎◌, inl, inr, arith, false, refl, ◌==◌, Option, some, get_elem?,
  get_elem?-set_self, lt_of_get_elem?,
}
use duma.Words.{IsPower}
use duma.Layout.{Placement}
use duma.Slots.Types.{SlotState, Slot}
use duma.Machine.Env.{Env, Access, IsOs}
use duma.Machine.State.{State}
use duma.Machine.Monad.{Ensures, returns, Ensures-bind, Ensures-cases}
use duma.Allocator.Request.{Request}
use duma.Allocator.Region.{commit, use_region, occupied}
use duma.Allocator.Fence.{Tidy}
use duma.Allocator.Fence.Order.{replace-Ordered}
use duma.Allocator.Fence.Table.{set_table, not_table}
use duma.Allocator.Fence.Surroundings.{WorldOnly-Same}
use duma.Allocator.Fence.Occupying.{Suits, IsOccupied, place-IsOccupied}
use duma.Allocator.Fence.Ready.{IsSpare, IsReady, idle, split_slot-IsReady}

module _ {W : Type 0} (env : Env W) (look : W → ℕ → Access) (os : IsOs env look)
    (power : IsPower env.page_size) (r : Request) (alignment needed : ℕ)
    (suits : Suits env.page_size r alignment needed) where
  -- The chosen slot: free and large enough, or without memory.
  pub record IsChosen (i : ℕ) (spare : Option ℕ) (s : State W) : Type 0 where
    pub slot : Slot
    pub here : get_elem? s.slots i ≡ some slot
    pub usable :
        (slot.internal_size ≡ 0) ⊎ ((slot.state ≡ SlotState.free) × (needed ≤ slot.internal_size))
    pub spares : IsSpare env look os power r alignment needed suits spare s.slots

  -- The slot of a buffer that was served; it is not the table's.
  pub record IsServed (a : ℕ) (t : State W) : Type 0 where
    pub index : ℕ
    pub slot : Slot
    pub here : get_elem? t.slots index ≡ some slot
    pub state : slot.state ≡ SlotState.in_use
    pub allocator : slot.allocator ≡ r.allocator
    pub user : slot.user_address ≡ a
    pub inside : slot.internal_address ≤ a
    pub fits : a + r.user_size ≤ slot.internal_address + slot.internal_size
    pub high :
        r.protect_below ≡ false
        → 0 < r.user_size
        → slot.internal_address + slot.internal_size < a + r.user_size + env.page_size + alignment
    pub other : t.alloc_list ≢ a

  -- NULL or such a buffer.
  abbrev pub Gives : ℕ → State W → Type 0
  Gives a t = (a ≡ 0) ⊎ IsServed a t

  not_the_table :
      (i a : ℕ) (p : Placement) (s t : State W)
      (ready : IsReady env look os power r alignment needed suits i a s)
      → IsOccupied env look os power r alignment needed suits ready.slot s p t
      → s.alloc_list ≢ p.user
  not_the_table i a p s t ready done same =
      let table = ready.tidy.table in
      let room =
        (ready.tidy.ordered.sound table.index table.slot table.here).holds (inl table.state) in
      let user = table.user in
      let size = ready.size in
      let mine = (done.sound.holds (inl refl)) in
      not_table look env.page_size s.alloc_list s.alloc_list_size i ready.slot s.slots table
        ready.here
        (inl (
          idle env look os power r alignment needed suits ready.slot SlotState.free ready.state
            (λ h. ground (arith, h))))
        (ready.tidy.ordered.apart i table.index ready.slot table.slot p.user ready.here table.here
          mine (omega (arith, room.0, user, same), omega (arith, room.1, user, same)))

  commit-Tidy :
      (i a : ℕ) (p : Placement) (s t : State W)
      (ready : IsReady env look os power r alignment needed suits i a s)
      → IsOccupied env look os power r alignment needed suits ready.slot s p t
      → Ensures (λ _ v. Tidy look env.page_size v × IsServed p.user v) (commit env r i p t)
  unfolding commit
  commit-Tidy i a p s t ready done =
      let same = WorldOnly-Same env look os s t done.rest in
      let e = same.slots in
      let here : get_elem? t.slots i ≡ some ready.slot = rw e ready.here in
      let page = env.page_size in
      let e1 = same.alloc_list in
      let e2 = same.alloc_list_size in
      let v = occupied env r p ready.slot in
      rw (commit, here)
        (returns (
          record {
            ordered = rw e (
                replace-Ordered look page s.world t.world s.slots i ready.slot v ready.tidy.ordered
                  ready.here (λ x in1. in1) done.elsewhere done.sound);
            table =
                rw (e, e1, e2)
                  (set_table look page s.alloc_list s.alloc_list_size i v s.slots ready.tidy.table (
                    not_table look page s.alloc_list s.alloc_list_size i ready.slot s.slots
                      ready.tidy.table ready.here
                      (inl (
                        idle env look os power r alignment needed suits ready.slot SlotState.free
                          ready.state (λ h. ground (arith, h))))));
          },
          record {
            index = i;
            slot = v;
            here = get_elem?-set_self t.slots i v (lt_of_get_elem? t.slots i here);
            state = refl;
            allocator = refl;
            user = refl;
            inside = done.inside;
            fits = omega (arith, done.fits, ready.size);
            high = λ b some_size. omega (arith, done.high b some_size, ready.size);
            other = rw e1 (not_the_table i a p s t ready done);
          },
        ))

  pub use_region-Tidy :
      (i : ℕ) (spare : Option ℕ) (s : State W)
      → Tidy look env.page_size s
      → IsChosen i spare s
      → Ensures
          (λ a t. Tidy look env.page_size t × Gives a t)
          (use_region env r alignment needed i spare s)
  unfolding use_region
  use_region-Tidy i spare s tidy chosen =
      let here = chosen.here in
      let u = chosen.slot in
      rw (use_region, here)
        (Ensures-cases (u.internal_size == 0) (λ _. returns {a = 0} (tidy, inl refl))
          λ some_memory.
            let (st, large) = free_and_large u chosen.usable some_memory in
            Ensures-bind
              (split_slot-IsReady env look os power r alignment needed suits i spare u s tidy here
                st large chosen.spares)
              λ _ s1 ready.
                let e = ready.start in
                Ensures-bind
                  (rw (← e) (
                    place-IsOccupied env look os power r alignment needed suits ready.slot s1
                      (ready.tidy.ordered.sound i ready.slot ready.here) ready.size))
                  λ p s2 done.
                    Ensures-bind (commit-Tidy i u.internal_address p s1 s2 ready done)
                      λ _ s3 (tidy3, served). returns {a = p.user} (tidy3, inr served))
    where
      free_and_large :
          (u : Slot)
          → (u.internal_size ≡ 0) ⊎ ((u.state ≡ SlotState.free) × (needed ≤ u.internal_size))
          → (u.internal_size == 0) ≡ false
          → (u.state ≡ SlotState.free) × (needed ≤ u.internal_size)
      free_and_large u (inl z) e = absurd (ground (arith, z, e))
      free_and_large u (inr q) e = q
