-- ===== src/Allocator/Live/Freeing.antt =====
-- What `_duma_deallocate` does to the user's buffers.
use duma.Prelude.{
  ◌∙◌, ℕ, ◌<◌, ◌≡◌, ◌⊎◌, inl, inr, refl, ap, arith, Bool, true, false, ◌||◌, none, some, List, [],
  ◌∷◌, zero, suc, ◌==◌, if◌then◌else◌, Bool-cases, Option-cases, get_elem?, set,
}
use duma.Prelude.Int.{ℤ}
use duma.Slots.{slot_for_user_address}
use duma.Slots.Search.{slot_for_user_address-IsFirst}
use duma.Slots.Types.{Slot, Allocator, alloc_type, same_type}
use duma.Machine.Env.{Env}
use duma.Machine.State.{State}
use duma.Machine.Monad.{
  ◌>>◌, Ensures, ensures, returns, aborts, Ensures-bind, Ensures-weaken, Ensures-if, Ensures-test,
}
use duma.Allocator.Guard.Same.{
  Same, Same-trans, enter-Same, leave-Same, check_now_and_then-Same, page_deny_access-Same,
  page_delete-Same,
}
use duma.Allocator.Guard.{leave}
use duma.Allocator.Reduce.{kilobytes}
use duma.Allocator.Deallocate.{
  find_slot, check_live, check_this, touch_user, count_dealloc, make_room, protect_region,
  delete_region, dispose, keeps, deallocate_block, deallocate,
}
use duma.Allocator.Deallocate.Twice.{check_this-state, kept-state}
use duma.Allocator.Live.{buffer_at, is_buffer, update, Kept, Kept-refl, Kept-trans, Same-Kept}
use duma.Allocator.Live.Steps.{Calm, then-Calm, reduce-Calm}

-- A write of no buffer empties its place in the view.
buffer_at-clear :
    (slots : List Slot) (i : ℕ) (v : Slot) (j : ℕ)
    → is_buffer v ≡ false
    → buffer_at (set slots i v) j ≡ update (buffer_at slots) i none j
buffer_at-clear [] i v j off = ground arith
buffer_at-clear (x ∷ xs) zero v zero off = ground (arith, off)
buffer_at-clear (x ∷ xs) zero v (suc j) off = ground arith
buffer_at-clear (x ∷ xs) (suc i) v zero off = ground arith
buffer_at-clear (x ∷ xs) (suc i) v (suc j) off = ground (arith, buffer_at-clear xs i v j off)

-- The view has lost what it had at one place.
pub record Removed {W : Type 0} (i : ℕ) (s t : State W) : Type 0 where
  pub settings : t.settings ≡ s.settings
  pub null_addr : t.null_addr ≡ s.null_addr
  pub init_state : t.init_state ≡ s.init_state
  pub table : 0 < s.alloc_list → 0 < t.alloc_list
  pub view : (j : ℕ) → buffer_at t.slots j ≡ update (buffer_at s.slots) i none j

-- How a call that returns has ended: nothing was to do, or the slot of the address was freed.
pub data Disposed {W : Type 0} (a : ℕ) (al : Allocator) (s t : State W) : Type 0 where
  nothing : (a ≡ 0) ⊎ (s.null_addr ≡ a) → Kept s t → Disposed a al s t
  removed :
      (i : ℕ) (u : Slot)
      → get_elem? s.slots i ≡ some u
      → u.user_address ≡ a
      → same_type (alloc_type u.allocator) (alloc_type al) ≡ true
      → Removed i s t
      → Disposed a al s t

pub Kept-Removed : {W : Type 0} {i : ℕ} {s t u : State W} → Kept s t → Removed i t u → Removed i s u
Kept-Removed {i} p q = record {
  settings = q.settings ∙ p.settings;
  null_addr = q.null_addr ∙ p.null_addr;
  init_state = q.init_state ∙ p.init_state;
  table = λ h. q.table (p.table h);
  view = λ j. q.view j ∙ ap (λ o. if j == i then none else o) (p.buffers j);
}

pub Removed-Kept : {W : Type 0} {i : ℕ} {s t u : State W} → Removed i s t → Kept t u → Removed i s u
Removed-Kept p q = record {
  settings = q.settings ∙ p.settings;
  null_addr = q.null_addr ∙ p.null_addr;
  init_state = q.init_state ∙ p.init_state;
  table = λ h. q.table (p.table h);
  view = λ j. q.buffers j ∙ p.view j;
}

module _ {W : Type 0} (env : Env W) where
  pub find_slot-IsFound :
      (a : ℕ) (s : State W)
      → Ensures
          (λ c t. (t ≡ s) × (get_elem? s.slots c.0 ≡ some c.1) × (c.1.user_address ≡ a))
          (find_slot env a s)
  unfolding find_slot
  find_slot-IsFound a s = ensures _ λ c t e. elim (Option-cases (slot_for_user_address s.slots a)) [
    | inl n ↦ ground (arith, e, n)
    | inr (i, n) ↦
        let f = slot_for_user_address-IsFirst s.slots a i n in ground (arith, e, n, f.here, f.holds)
  ]

  pub check_live-passed :
      (a : ℕ) (u : Slot) (al : Allocator) (s : State W)
      → Ensures
          (λ _ t. (t ≡ s) × (same_type (alloc_type u.allocator) (alloc_type al) ≡ true))
          (check_live env a u al s)
  unfolding check_live
  check_live-passed a u al s = ensures _ λ c t e. ground (arith, e)

  make_room-Calm : (kb : ℕ) (s : State W) → Calm s (make_room env kb s)
  unfolding make_room
  make_room-Calm kb s =
      Ensures-test _ (then-Calm (reduce-Calm env kb s) λ _ t _. returns (Kept-refl t))
        (returns (Kept-refl s))

  protect_region-Removed :
      (i : ℕ) (u : Slot) (kb filename : ℕ) (lineno : ℤ) (s : State W)
      → Ensures (λ _ t. Removed i s t) (protect_region env i u kb filename lineno s)
  unfolding protect_region
  protect_region-Removed i u kb filename lineno s =
      Ensures-bind (page_deny_access-Same env u.internal_address u.internal_size s) λ _ t same.
        returns (
          Kept-Removed (Same-Kept same) (record {
            settings = refl;
            null_addr = refl;
            init_state = refl;
            table = λ h. h;
            view =
                λ j. buffer_at-clear t.slots i _ j (ground (arith, kept-state filename lineno u));
          }))

  delete_region-Removed :
      (i : ℕ) (u : Slot) (kb : ℕ) (s : State W)
      → Ensures (λ _ t. Removed i s t) (delete_region env i u kb s)
  unfolding delete_region
  delete_region-Removed i u kb s =
      Ensures-bind (page_delete-Same env u.internal_address u.internal_size s) λ _ t same. returns (
        Kept-Removed (Same-Kept same) (record {
          settings = refl;
          null_addr = refl;
          init_state = refl;
          table = λ h. h;
          view = λ j. buffer_at-clear t.slots i _ j refl;
        }))

  dispose-Removed :
      (i : ℕ) (u : Slot) (filename : ℕ) (lineno : ℤ) (s : State W)
      → Ensures (λ _ t. Removed i s t) (dispose env i u filename lineno s)
  unfolding dispose
  dispose-Removed i u filename lineno s =
      let kb : ℕ = kilobytes u.internal_size in
      Ensures-bind (make_room-Calm kb s) λ _ t k.
        Ensures-weaken
          (Ensures-if {s = t} (protect_region env i u kb filename lineno) (delete_region env i u kb)
            (keeps env u kb t) (protect_region-Removed i u kb filename lineno t)
            (delete_region-Removed i u kb t))
          λ _ r q. Kept-Removed k q

  check_this-Calm : (u : Slot) (s : State W) → Calm s (check_this env u s)
  check_this-Calm u s = Ensures-weaken (check_this-state env u s) λ _ t e. rw e (Kept-refl s)

  touch_user-Calm : (u : Slot) (s : State W) → Calm s (touch_user env u s)
  unfolding touch_user
  touch_user-Calm u s =
      Ensures-test _
        (returns (record {
          settings = refl;
          null_addr = refl;
          init_state = refl;
          table = λ h. h;
          buffers = λ i. refl;
        }))
        (returns (Kept-refl s))

  count_dealloc-Calm : (s : State W) → Calm s (count_dealloc env s)
  unfolding count_dealloc
  count_dealloc-Calm s = returns (record {
    settings = refl;
    null_addr = refl;
    init_state = refl;
    table = λ h. h;
    buffers = λ i. refl;
  })

  -- The steps behind the tests.
  finish_removal :
      (b : Bool) (i : ℕ) (u : Slot) (filename : ℕ) (lineno : ℤ) (s : State W)
      → Ensures
          (λ _ t. Removed i s t)
          ((do
            count_dealloc env
            check_this env u
            touch_user env u
            dispose env i u filename lineno
            leave env b)
            s)
  finish_removal b i u filename lineno s = Ensures-bind (count_dealloc-Calm s) λ _ s1 k1.
      Ensures-bind (check_this-Calm u s1) λ _ s2 k2. Ensures-bind (touch_user-Calm u s2) λ _ s3 k3.
        Ensures-bind (dispose-Removed i u filename lineno s3) λ _ s4 q.
          Ensures-weaken (leave-Same env b s4) λ _ s5 same.
            Removed-Kept (Kept-Removed (Kept-trans k1 (Kept-trans k2 k3)) q) (Same-Kept same)

  deallocate_block-Disposed :
      (a : ℕ) (b : Bool) (al : Allocator) (filename : ℕ) (lineno : ℤ) (s : State W)
      → Ensures (λ _ t. Disposed a al s t) (deallocate_block env a b al filename lineno s)
  unfolding deallocate_block
  deallocate_block-Disposed a b al filename lineno s = Ensures-bind (enter-Same env b s) λ _ s1 e1.
      Ensures-bind (check_now_and_then-Same env s1) λ _ s2 e2.
        Ensures-bind (find_slot-IsFound a s2) λ (i, u) s3 (e3, here, address).
          Ensures-bind (check_live-passed a u al s3) λ _ s4 (e4, kind).
            let same : Same s s2 = Same-trans e1 e2 in
            let now : Kept s s4 = rw (e4, e3) (Same-Kept same) in
            let same_slots = same.slots in
            Ensures-weaken (finish_removal b i u filename lineno s4)
              λ _ s5 q. removed i u (rw (← same_slots) here) address kind (Kept-Removed now q)

  -- Whenever `_duma_deallocate` returns, the address was NULL or the block for no bytes and the buffers
  -- are as before, or a slot with the address, of the kind of allocator of the call, was freed: the
  -- user's view has lost this buffer and keeps all others, and the settings are as before.
  pub deallocate-Disposed :
      (a : ℕ) (b : Bool) (al : Allocator) (filename : ℕ) (lineno : ℤ) (s : State W)
      → Ensures (λ _ t. Disposed a al s t) (deallocate env a b al filename lineno s)
  unfolding deallocate
  deallocate-Disposed a b al filename lineno s = elim (Bool-cases (a == 0 || s.null_addr == a)) [
    | inl e ↦
        let why : (a ≡ 0) ⊎ (s.null_addr ≡ a) = ground (arith, e) in
        rw (deallocate, e)
          (Ensures-test (s.alloc_list == 0) aborts (returns (nothing why (Kept-refl s))))
    | inr e ↦
        rw (deallocate, e)
          (Ensures-test (s.alloc_list == 0) aborts
            (deallocate_block-Disposed a b al filename lineno s))
  ]
