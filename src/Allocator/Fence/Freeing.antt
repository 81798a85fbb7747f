-- ===== src/Allocator/Fence/Freeing.antt =====
-- `_duma_deallocate` and the pages of the regions.
use duma.Prelude.{
  ◌∙◌, ℕ, ◌+◌, ◌≡◌, ◌≢◌, ◌⊎◌, ◌||◌, ◌==◌, inl, inr, refl, arith, Bool, true, false, some, get_elem?,
}
use duma.Prelude.Int.{ℤ}
use duma.Words.{IsPower}
use duma.Slots.Types.{SlotState, Slot, Allocator, internal, alloc_type, same_type}
use duma.Machine.Env.{Env, Access, IsOs}
use duma.Machine.State.{State}
use duma.Machine.Monad.{
  ◌>>◌, Ensures, ensures, returns, aborts, Ensures-bind, Ensures-test, Ensures-both,
}
use duma.Allocator.Guard.{leave}
use duma.Allocator.Deallocate.{
  is_kept, check_live, touch_user, count_dealloc, check_this, dispose, deallocate_block, deallocate,
}
use duma.Allocator.Deallocate.Twice.{check_this-state}
use duma.Allocator.Live.Freeing.{find_slot-IsFound, check_live-passed}
use duma.Allocator.Fence.{IsSound, Tidy}
use duma.Allocator.Fence.Disposing.{IsLive, dispose-Tidy}
use duma.Allocator.Fence.Surroundings.{enter-Tidy, leave-Tidy, check-Tidy}

module _ {W : Type 0} (env : Env W) (look : W → ℕ → Access) (os : IsOs env look)
    (power : IsPower env.page_size) where
  touch_user-Tidy :
      (i : ℕ) (u : Slot) (s : State W)
      → Tidy look env.page_size s
      → IsLive env look os power i u s
      → Ensures
          (λ _ t. Tidy look env.page_size t × IsLive env look os power i u t)
          (touch_user env u s)
  unfolding touch_user
  touch_user-Tidy i u s tidy live =
      Ensures-test _
        (returns (
          record { ordered = tidy.ordered; table = tidy.table },
          record { here = live.here; state = live.state; kind = live.kind },
        ))
        (returns (tidy, live))

  finish-Tidy :
      (b : Bool) (i : ℕ) (u : Slot) (filename : ℕ) (lineno : ℤ) (s : State W)
      → Tidy look env.page_size s
      → IsLive env look os power i u s
      → Ensures
          (λ _ t. Tidy look env.page_size t)
          ((do
            count_dealloc env
            check_this env u
            touch_user env u
            dispose env i u filename lineno
            leave env b)
            s)
  unfolding count_dealloc
  finish-Tidy b i u filename lineno s tidy live =
      let s1 : State W = record s { num_deallocs = s.num_deallocs + 1 } in
      let tidy1 : Tidy look env.page_size s1 = record {
        ordered = tidy.ordered;
        table = tidy.table;
      } in
      let live1 : IsLive env look os power i u s1 = record {
        here = live.here;
        state = live.state;
        kind = live.kind;
      } in
      Ensures-bind (check_this-state env u s1) λ _ s2 e2.
        Ensures-bind (touch_user-Tidy i u s2 (rw e2 tidy1) (rw e2 live1)) λ _ s3 (tidy3, live3).
          Ensures-bind (dispose-Tidy env look os power i u filename lineno s3 tidy3 live3)
            λ _ s4 tidy4. leave-Tidy env look os b s4 tidy4

  check_live-state :
      (a : ℕ) (u : Slot) (al : Allocator) (s : State W)
      → Ensures (λ _ t. is_kept u.state ≡ false) (check_live env a u al s)
  unfolding check_live
  check_live-state a u al s = ensures _ λ c t e. ground (arith, e)

  by_state :
      (st : SlotState)
      → is_kept st ≡ false
      → ((st ≡ SlotState.free) ⊎ (st ≡ SlotState.empty) → ⊥)
      → st ≡ SlotState.in_use
  by_state SlotState.empty e no_room = absurd (no_room (inr refl))
  by_state SlotState.free e no_room = absurd (no_room (inl refl))
  by_state SlotState.in_use e no_room = refl
  by_state SlotState.all_protected e no_room = absurd (ground (arith, e))
  by_state SlotState.begin_protected e no_room = absurd (ground (arith, e))

  live_state :
      (w : W) (u : Slot)
      → IsSound look env.page_size w u
      → is_kept u.state ≡ false
      → alloc_type u.allocator ≢ internal
      → u.state ≡ SlotState.in_use
  live_state w u sound free kind = by_state u.state free (λ h. kind (sound.plain h))

  -- A slot that passes the tests is a live buffer of the user.
  passed-IsLive :
      (i : ℕ) (u : Slot) (al : Allocator) (s : State W)
      → Tidy look env.page_size s
      → same_type (alloc_type al) internal ≡ false
      → get_elem? s.slots i ≡ some u
      → is_kept u.state ≡ false
      → same_type (alloc_type u.allocator) (alloc_type al) ≡ true
      → IsLive env look os power i u s
  passed-IsLive i u al s tidy foreign here free same =
      let kind : alloc_type u.allocator ≢ internal = λ e. ground (arith, foreign, same, e) in
      record {
        here = here;
        state = live_state s.world u (tidy.ordered.sound i u here) free kind;
        kind = kind;
      }

  deallocate_block-Tidy :
      (a : ℕ) (b : Bool) (al : Allocator) (filename : ℕ) (lineno : ℤ) (s : State W)
      → Tidy look env.page_size s
      → same_type (alloc_type al) internal ≡ false
      → Ensures (λ _ t. Tidy look env.page_size t) (deallocate_block env a b al filename lineno s)
  unfolding deallocate_block
  deallocate_block-Tidy a b al filename lineno s tidy foreign =
      Ensures-bind (enter-Tidy env look os b s tidy) λ _ s1 tidy1.
        Ensures-bind (check-Tidy env look os s1 tidy1) λ _ s2 tidy2.
          Ensures-bind (find_slot-IsFound env a s2) λ (i, u) s3 (e3, here, address).
            Ensures-bind
              (Ensures-both (check_live-passed env a u al s3) (check_live-state a u al s3))
              λ _ s4 ((e4, kind), free).
                let same : s4 ≡ s2 = e4 ∙ e3 in
                finish-Tidy b i u filename lineno s4 (rw same tidy2)
                  (rw same (passed-IsLive i u al s2 tidy2 foreign here free kind))

  -- On a system that keeps the documented laws of its calls, `_duma_deallocate` for an allocator that
  -- is not the internal one keeps the table tidy, whenever it returns: each buffer in use, of the user,
  -- can still be used to its last byte, with the pages of its region behind it, or those before it,
  -- closed; freed memory that is kept is closed altogether; no address lies in the regions of two slots;
  -- and the table lies in a slot of the allocator's own.
  pub deallocate-Tidy :
      (a : ℕ) (b : Bool) (al : Allocator) (filename : ℕ) (lineno : ℤ) (s : State W)
      → Tidy look env.page_size s
      → same_type (alloc_type al) internal ≡ false
      → Ensures (λ _ t. Tidy look env.page_size t) (deallocate env a b al filename lineno s)
  unfolding deallocate
  deallocate-Tidy a b al filename lineno s tidy foreign = Ensures-test (s.alloc_list == 0) aborts (
      Ensures-test (a == 0 || s.null_addr == a) (returns tidy)
        (deallocate_block-Tidy a b al filename lineno s tidy foreign))
