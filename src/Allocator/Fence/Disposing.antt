-- ===== src/Allocator/Fence/Disposing.antt =====
-- How `_duma_deallocate` protects a region or gives it back, and the pages of the regions.
use duma.Prelude.{ℕ, ◌+◌, ◌≡◌, ◌≢◌, inl, inr, refl, arith, some, get_elem?, set}
use duma.Prelude.Int.{ℤ}
use native.Mathlib.Decide.{dec_lt}
use duma.Words.{IsPower}
use duma.Slots.Types.{SlotState, Slot, internal, alloc_type}
use duma.Machine.Env.{Env, Access, denied, prot_none, IsOs}
use duma.Machine.State.{State}
use duma.Machine.Monad.{Ensures, returns, Ensures-bind, Ensures-if, Ensures-test}
use duma.Allocator.Update.{emptied}
use duma.Allocator.Reduce.{kilobytes}
use duma.Allocator.Reduce.Spared.{IsProtected}
use duma.Allocator.Deallocate.{kept, make_room, protect_region, delete_region, dispose, keeps}
use duma.Allocator.Deallocate.Twice.{kept-state}
use duma.Allocator.Fence.{held, Inside, IsSound, Tidy}
use duma.Allocator.Fence.Protection.{HasAccess, page_deny_access-HasAccess}
use duma.Allocator.Fence.Order.{replace-Ordered}
use duma.Allocator.Fence.Table.{set_table, not_table}
use duma.Allocator.Fence.Surroundings.{WorldOnly-Same}
use duma.Allocator.Fence.Reducing.{emptied-IsSound}
use duma.Allocator.Fence.Cutting.{delete_whole-IsCut}
use duma.Allocator.Fence.Reduction.{reduce_protected_memory-Tidy}

-- A slot takes the region of another over, as freed memory that is kept.
record IsKept (u v : Slot) : Type 0 where
  state : v.state ≡ SlotState.all_protected
  address : v.internal_address ≡ u.internal_address
  size : v.internal_size ≡ u.internal_size
  user : v.user_address ≡ u.user_address

module _ {W : Type 0} (env : Env W) (look : W → ℕ → Access) (os : IsOs env look)
    (power : IsPower env.page_size) where
  -- A live buffer of the user, in its place.
  pub record IsLive (i : ℕ) (u : Slot) (s : State W) : Type 0 where
    pub here : get_elem? s.slots i ≡ some u
    pub state : u.state ≡ SlotState.in_use
    pub kind : alloc_type u.allocator ≢ internal

  kept-IsSound :
      (w w' : W) (u v : Slot)
      → IsKept u v
      → u.state ≡ SlotState.in_use
      → IsSound look env.page_size w u
      → ((x : ℕ) → Inside u x → look w' x ≡ denied)
      → IsSound look env.page_size w' v
  kept-IsSound w w' u v k st sound off =
      let e = k.state in
      let e1 = k.address in
      let e2 = k.size in
      let e3 = k.user in
      let inner : (x : ℕ) → Inside v x → Inside u x = λ x (lo, hi). (omega arith, omega arith) in
      record {
        regular = record {
          aligned = rw e1 sound.regular.aligned;
          whole = rw e2 sound.regular.whole;
          low = omega (arith, sound.regular.low);
        };
        mapped = λ x i m. ground (arith, m, off x (inner x i));
        hollow = λ h. absurd (ground (arith, h, e));
        plain = λ h. absurd (ground (arith, h, e));
        holds =
            λ _. (omega (arith, (sound.holds (inl st)).0), omega (arith, (sound.holds (inl st)).1));
        user = held (inr (inl e));
        fence = λ b. absurd (ground (arith, b, e));
        dead = λ p x i. off x (inner x i);
      }

  kept-IsKept : (filename : ℕ) (lineno : ℤ) (u : Slot) → IsKept u (kept filename lineno u)
  kept-IsKept filename lineno u = record {
    state = kept-state filename lineno u;
    address = ground arith;
    size = ground arith;
    user = ground arith;
  }

  -- The slot of a freed buffer changes, with the pages of its region.
  replace-Tidy :
      (i : ℕ) (u v : Slot) (s t : State W)
      → Tidy look env.page_size s
      → IsLive i u s
      → t.slots ≡ set s.slots i v
      → t.alloc_list ≡ s.alloc_list
      → t.alloc_list_size ≡ s.alloc_list_size
      → ((x : ℕ) → Inside v x → Inside u x)
      → ((x : ℕ) → (Inside u x → ⊥) → look t.world x ≡ look s.world x)
      → IsSound look env.page_size t.world v
      → Tidy look env.page_size t
  replace-Tidy i u v s t tidy live e e1 e2 part same sound = record {
    ordered = rw e (
        replace-Ordered look env.page_size s.world t.world s.slots i u v tidy.ordered live.here part
          same sound);
    table =
        rw (e, e1, e2)
          (set_table look env.page_size s.alloc_list s.alloc_list_size i v s.slots tidy.table (
            not_table look env.page_size s.alloc_list s.alloc_list_size i u s.slots tidy.table
              live.here (inr live.kind)));
  }

  set_outside :
      (u : Slot) (s t : State W)
      → IsSound look env.page_size s.world u
      → HasAccess env look os prot_none u.internal_address u.internal_size s t
      → (x : ℕ) → (Inside u x → ⊥)
      → look t.world x ≡ look s.world x
  set_outside u s t sound q x out =
      let al = sound.regular.aligned in
      let wh = sound.regular.whole in
      elim (dec_lt x u.internal_address) [
        | yes lt ↦ q.outside al wh x (inl lt)
        | no ge ↦ elim (dec_lt x (u.internal_address + u.internal_size)) [
          | yes lt ↦ absurd (out (omega arith, lt))
          | no ge' ↦ q.outside al wh x (inr (omega arith))
        ]
      ]

  protect_region-Tidy :
      (i : ℕ) (u : Slot) (kb filename : ℕ) (lineno : ℤ) (s : State W)
      → Tidy look env.page_size s
      → IsLive i u s
      → Ensures (λ _ t. Tidy look env.page_size t) (protect_region env i u kb filename lineno s)
  unfolding protect_region
  protect_region-Tidy i u kb filename lineno s tidy live =
      let sound = tidy.ordered.sound i u live.here in
      Ensures-bind (page_deny_access-HasAccess env look os u.internal_address u.internal_size s)
        λ _ t q.
          let k = kept-IsKept filename lineno u in
          let e = k.address in
          let e' = k.size in
          let same = WorldOnly-Same env look os s t q.rest in
          let e2 = same.slots in
          returns (
            replace-Tidy i u (kept filename lineno u) s _ tidy live (rw e2 refl) same.alloc_list
              same.alloc_list_size (λ x (lo, hi). (omega arith, omega arith))
              (set_outside u s t sound q)
              (kept-IsSound s.world t.world u (kept filename lineno u) k live.state sound
                (λ x (lo, hi). q.inside x lo hi)))

  delete_region-Tidy :
      (i : ℕ) (u : Slot) (kb : ℕ) (s : State W)
      → Tidy look env.page_size s
      → IsLive i u s
      → Ensures (λ _ t. Tidy look env.page_size t) (delete_region env i u kb s)
  unfolding delete_region
  delete_region-Tidy i u kb s tidy live =
      Ensures-bind (delete_whole-IsCut env look os power 0 u s (tidy.ordered.sound i u live.here))
        λ _ t (out, rest).
          let same = WorldOnly-Same env look os s t rest in
          let e2 = same.slots in
          returns (
            replace-Tidy i u (emptied u) s _ tidy live (rw e2 refl) same.alloc_list
              same.alloc_list_size (λ x in1. absurd (omega arith)) out
              (emptied-IsSound look env.page_size t.world u))

  idle : (i : ℕ) (u : Slot) (s : State W) → IsLive i u s → IsProtected u → ⊥
  idle i u s live (inl p) = ground (arith, live.state, p)
  idle i u s live (inr p) = ground (arith, live.state, p)

  make_room-Tidy :
      (kb i : ℕ) (u : Slot) (s : State W)
      → Tidy look env.page_size s
      → IsLive i u s
      → Ensures (λ _ t. Tidy look env.page_size t × IsLive i u t) (make_room env kb s)
  unfolding make_room
  make_room-Tidy kb i u s tidy live =
      Ensures-test _
        (Ensures-bind (reduce_protected_memory-Tidy env look os power kb s tidy)
          λ _ t (tidy', keep). returns (
            tidy',
            record {
              here = keep i u live.here (idle i u s live);
              state = live.state;
              kind = live.kind;
            },
          ))
        (returns (tidy, live))

  pub dispose-Tidy :
      (i : ℕ) (u : Slot) (filename : ℕ) (lineno : ℤ) (s : State W)
      → Tidy look env.page_size s
      → IsLive i u s
      → Ensures (λ _ t. Tidy look env.page_size t) (dispose env i u filename lineno s)
  unfolding dispose
  dispose-Tidy i u filename lineno s tidy live =
      let kb : ℕ = kilobytes u.internal_size in
      Ensures-bind (make_room-Tidy kb i u s tidy live) λ _ t (tidy', live').
        Ensures-if {s = t} (protect_region env i u kb filename lineno) (delete_region env i u kb)
          (keeps env u kb t) (protect_region-Tidy i u kb filename lineno t tidy' live')
          (delete_region-Tidy i u kb t tidy' live')
