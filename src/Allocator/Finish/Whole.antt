-- ===== src/Allocator/Finish/Whole.antt =====
-- Whether the whole of `_duma_allocate` and of `_duma_deallocate` comes to an end.
use duma.Prelude.{ℕ, ◌≢◌, arith, Bool, true, false, ◌==◌}
use duma.Prelude.Int.{ℤ, pos}
use duma.Words.Defs.{add64}
use duma.Slots.Types.{Slot, Allocator}
use duma.Machine.Env.{Env}
use duma.Machine.State.{State}
use duma.Machine.Monad.{out_of_fuel, M, when, pure, stop, Abort}
use duma.Allocator.Reduce.{kilobytes}
use duma.Allocator.Request.{Request, Plan, answer, region, plan, zero_plan, strategy}
use duma.Allocator.Allocate.{serve, allocate_with, fill_user, count_alloc}
use duma.Allocator.Grow.{allocate, allocate_more_slots, move_table, table_request}
use duma.Allocator.Deallocate.{
  find_slot, check_live, check_this, touch_user, count_dealloc, make_room, protect_region,
  delete_region, dispose, deallocate_block, deallocate, keeps,
}
use duma.Allocator.Finish.{
  InTime, InTime-bind, InTime-ok, InTime-abort, InTime-test, InTime-if, page_deny_access-InTime,
  page_delete-InTime, enter-InTime, leave-InTime, check_now_and_then-InTime, reduce-InTime,
}
use duma.Allocator.Finish.Regions.{find_region-InTime, use_region-InTime}

module _ {W : Type 0} (env : Env W) where
  when-InTime : (b : Bool) (m : M W (Unit {0})) (s : State W) → InTime (m s) → InTime (when b m s)
  when-InTime true m s h = h
  when-InTime false m s h = InTime-ok tt s

  zero_plan-InTime : (n alignment : ℕ) (s : State W) → InTime (zero_plan env n alignment s)
  unfolding zero_plan
  zero_plan-InTime n alignment s =
      InTime-test (n == 0) (InTime-abort _) (
        InTime-test (n == 1) (InTime-ok _ s) (InTime-test (n == 3) (InTime-ok _ s) (InTime-ok _ s)))

  plan-InTime : (r : Request) (s : State W) → InTime (plan env r s)
  unfolding plan
  plan-InTime r s =
      InTime-test (r.user_size == 0) (zero_plan-InTime (strategy env r s) r.alignment s)
        (InTime-test _ (InTime-ok _ s) (InTime-abort _))

  fill_user-InTime : (r : Request) (a : ℕ) (s : State W) → InTime (fill_user env r a s)
  unfolding fill_user
  fill_user-InTime r a s =
      InTime-test _ (InTime-ok tt s) (InTime-test _ (InTime-ok tt s) (InTime-ok tt _))

  count_alloc-InTime : (s : State W) → InTime (count_alloc env s)
  unfolding count_alloc
  count_alloc-InTime s = InTime-ok tt _

  module _ (grow : M W (Unit {0})) (ends : (s : State W) → InTime (grow s)) (r : Request) where
    serve-InTime :
        (alignment needed : ℕ) (s : State W) → InTime (serve env grow r alignment needed s)
    unfolding serve
    serve-InTime alignment needed s =
        InTime-bind _ (enter-InTime env r.protect_alloc_list s) λ _ s1.
          InTime-bind _ (check_now_and_then-InTime env s1) λ _ s2.
            InTime-bind _ (when-InTime _ grow s2 (ends s2)) λ _ s3.
              InTime-bind _ (find_region-InTime env r needed s3) λ (i, spare) s4.
                InTime-bind _ (use_region-InTime env r alignment needed i spare s4) λ a s5.
                  InTime-bind _ (leave-InTime env r.protect_alloc_list s5)
                    λ _ s6. InTime-bind _ (fill_user-InTime r a s6) λ _ s7. InTime-ok a s7

    go_on :
        (p : Plan) (s : State W)
        → InTime (
            (elim p as (λ p. M W ℕ) [
              | answer a ↦ pure a
              | region alignment needed ↦ serve env grow r alignment needed
            ])
              s)
    go_on (answer a) s = InTime-ok a s
    go_on (region alignment needed) s = serve-InTime alignment needed s

    allocate_with-InTime : (s : State W) → InTime (allocate_with env grow r s)
    unfolding allocate_with
    allocate_with-InTime s =
        InTime-bind _
          (when-InTime (s.alloc_list == 0) (stop Abort.assert_failed) s (InTime-abort _))
          λ _ s1.
            InTime-bind _ (count_alloc-InTime s1)
              λ _ s2. InTime-bind _ (plan-InTime r s2) λ p s3. go_on p s3

  find_slot-InTime : (a : ℕ) (s : State W) → InTime (find_slot env a s)
  unfolding find_slot
  find_slot-InTime a s = λ e. ground (arith, e)

  check_live-InTime :
      (a : ℕ) (u : Slot) (al : Allocator) (s : State W) → InTime (check_live env a u al s)
  unfolding check_live
  check_live-InTime a u al s = λ e. ground (arith, e)

  count_dealloc-InTime : (s : State W) → InTime (count_dealloc env s)
  unfolding count_dealloc
  count_dealloc-InTime s = InTime-ok tt _

  check_this-InTime : (u : Slot) (s : State W) → InTime (check_this env u s)
  unfolding check_this
  check_this-InTime u s = λ e. ground (arith, e)

  touch_user-InTime : (u : Slot) (s : State W) → InTime (touch_user env u s)
  unfolding touch_user
  touch_user-InTime u s = InTime-test _ (InTime-ok tt _) (InTime-ok tt s)

  make_room-InTime : (kb : ℕ) (s : State W) → InTime (make_room env kb s)
  unfolding make_room
  make_room-InTime kb s =
      InTime-test _ (InTime-bind _ (reduce-InTime env kb s) λ _ t. InTime-ok tt t) (InTime-ok tt s)

  dispose-InTime :
      (i : ℕ) (u : Slot) (filename : ℕ) (lineno : ℤ) (s : State W)
      → InTime (dispose env i u filename lineno s)
  unfolding dispose protect_region delete_region
  dispose-InTime i u filename lineno s =
      let kb : ℕ = kilobytes u.internal_size in
      InTime-bind _ (make_room-InTime kb s) λ _ t.
        InTime-if (protect_region env i u kb filename lineno) (delete_region env i u kb) t
          (keeps env u kb t)
          (InTime-bind _ (page_deny_access-InTime env _ _ t) λ _ v. InTime-ok tt _)
          (InTime-bind _ (page_delete-InTime env _ _ t) λ _ v. InTime-ok tt _)

  deallocate_block-InTime :
      (a : ℕ) (b : Bool) (al : Allocator) (filename : ℕ) (lineno : ℤ) (s : State W)
      → InTime (deallocate_block env a b al filename lineno s)
  unfolding deallocate_block
  deallocate_block-InTime a b al filename lineno s = InTime-bind _ (enter-InTime env b s) λ _ s1.
      InTime-bind _ (check_now_and_then-InTime env s1) λ _ s2.
        InTime-bind _ (find_slot-InTime a s2) λ (i, u) s3.
          InTime-bind _ (check_live-InTime a u al s3) λ _ s4.
            InTime-bind _ (count_dealloc-InTime s4) λ _ s5.
              InTime-bind _ (check_this-InTime u s5) λ _ s6.
                InTime-bind _ (touch_user-InTime u s6) λ _ s7.
                  InTime-bind _ (dispose-InTime i u filename lineno s7)
                    λ _ s8. leave-InTime env b s8

  -- No call of `_duma_deallocate` uses up the rounds that the model gives a loop.
  deallocate-InTime :
      (a : ℕ) (b : Bool) (al : Allocator) (filename : ℕ) (lineno : ℤ) (s : State W)
      → InTime (deallocate env a b al filename lineno s)
  unfolding deallocate
  deallocate-InTime a b al filename lineno s =
      InTime-test _ (InTime-abort _)
        (InTime-test _ (InTime-ok tt s) (deallocate_block-InTime a b al filename lineno s))

  allocate_more_slots-InTime : (s : State W) → InTime (allocate_more_slots env s)
  unfolding allocate_more_slots move_table
  allocate_more_slots-InTime s =
      let r : Request = table_request env (add64 s.alloc_list_size env.page_size) (pos 1233) in
      InTime-bind _ (allocate_with-InTime (pure tt) (λ t. InTime-ok tt t) r s) λ a t.
        InTime-if _ _ t (a == 0) (InTime-ok tt t)
          (deallocate-InTime s.alloc_list false Allocator.int_dealloc env.this_file (pos 1259) _)

  -- Every request to `_duma_allocate` comes to an end, with the table's growth, the search, the loop
  -- that gives protected memory back and the placement: the rounds that the model gives its loops are
  -- enough, from any state and for any behaviour of the system.
  pub allocate-ends_in_time : (r : Request) (s : State W) → allocate env r s ≢ out_of_fuel
  unfolding allocate
  allocate-ends_in_time r s =
      allocate_with-InTime (allocate_more_slots env) allocate_more_slots-InTime r s
