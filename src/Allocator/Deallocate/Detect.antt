-- ===== src/Allocator/Deallocate/Detect.antt =====
-- What `_duma_deallocate` detects before it changes anything.
use duma.Prelude.{
  ◌⊎◌, ◌∙◌, ℕ, ◌+◌, ◌<◌, ◌≡◌, ◌≢◌, inl, inr, refl, arith, Bool, true, false, some, List, Bool-cases,
  Option-cases, get_elem?, ◌==◌,
}
use mathlib.Core.Path.{subst}
use duma.Prelude.Int.{ℤ}
use duma.Slots.{slot_for_user_address, nearest_slot_for_user_address}
use duma.Slots.Search.{
  HasUser, IsFirst, slot_for_user_address-IsFirst, slot_for_user_address-none, nearest_slot-IsFirst,
}
use duma.Slots.Types.{SlotState, Allocator, AllocType, Slot, same_type, alloc_type}
use duma.Machine.Env.{Env}
use duma.Machine.State.{State}
use duma.Machine.Monad.{run-ok, ◌>>=◌, ◌>>◌, ok, abort, Abort, M, Ensures-ok}
use duma.Allocator.Slack.{check_slack, check_all_slacks}
use duma.Allocator.Slack.Laws.{Intact, check_slack_iff}
use duma.Allocator.Guard.{enter, leave, check_now_and_then}
use duma.Allocator.Guard.Same.{Same, Same-trans, enter-Same, check_now_and_then-Same}
use duma.Allocator.Deallocate.{
  find_slot, check_live, deallocate_block, deallocate, check_this, count_dealloc, touch_user,
  dispose,
}

IsFirst-lt :
    {P : Slot → Type 0} {slots : List Slot} {i j : ℕ}
    → IsFirst P slots i
    → IsFirst P slots j
    → i < j
    → ⊥
IsFirst-lt f g lt = g.earlier _ f.slot lt f.here f.holds

-- The search returns the first slot with the address.
pub IsFirst-slot_for_user_address :
    (slots : List Slot) (a i : ℕ)
    → IsFirst (HasUser a) slots i
    → slot_for_user_address slots a ≡ some i
IsFirst-slot_for_user_address slots a i f = elim (Option-cases (slot_for_user_address slots a)) [
  | inl e ↦ absurd (slot_for_user_address-none slots a e i f.slot f.here f.holds)
  | inr (j, e) ↦
      let g = slot_for_user_address-IsFirst slots a j e in
      let not_less : ¬ (i < j) = IsFirst-lt f g in
      let not_more : ¬ (j < i) = IsFirst-lt g f in let same : j ≡ i = ground arith in rw same at e
]

same_type-same : {x y : AllocType} → x ≡ y → same_type x y ≡ true
same_type-same {x} e = subst (λ y. same_type x y ≡ true) e (diagonal x)
  where
    diagonal : (x : AllocType) → same_type x x ≡ true
    diagonal x = ground arith

same_type-other : {x y : AllocType} → x ≢ y → same_type x y ≡ false
same_type-other {x} {y} other = elim (Bool-cases (same_type x y)) [
  | inl e ↦ absurd (other (eq_of x y e))
  | inr e ↦ e
]
  where
    eq_of : (x y : AllocType) → same_type x y ≡ true → x ≡ y
    eq_of x y e = ground arith

module _ {W : Type 0} (env : Env W) where
  pub find_slot_lem :
      (a i : ℕ) (s : State W) (f : IsFirst (HasUser a) s.slots i)
      → find_slot env a s ≡ ok (i, f.slot) s
  unfolding find_slot
  find_slot_lem a i s f =
      let e = IsFirst-slot_for_user_address s.slots a i f in let h = f.here in ground (arith, e, h)

  find_slot-unknown :
      (a : ℕ) (s : State W)
      → ((i : ℕ) (u : Slot) → get_elem? s.slots i ≡ some u → u.user_address ≢ a)
      → (e : Abort) × (find_slot env a s ≡ abort e)
  unfolding find_slot
  find_slot-unknown a s none_here = elim (Option-cases (slot_for_user_address s.slots a)) [
    | inr (i, e) ↦
        let f = slot_for_user_address-IsFirst s.slots a i e in
        absurd (none_here i f.slot f.here f.holds)
    | inl e ↦ elim (Option-cases (nearest_slot_for_user_address s.slots a)) [
      | inl e' ↦ (Abort.not_from_duma a, ground (arith, e, e'))
      | inr (i, e') ↦
          let f = nearest_slot-IsFirst s.slots a i e' in
          let h = f.here in
          (Abort.corrupted a f.slot.user_address f.slot.file_source, ground (arith, e, e', h))
    ]
  ]

  check_this-abort :
      (u : Slot) (s : State W) (e : Abort)
      → check_slack s.settings.slackfill u s.memory ≡ some e
      → check_this env u s ≡ abort e
  unfolding check_this
  check_this-abort u s e h = rw (check_this, h) refl

  -- The steps for a live buffer.
  unfoldable pub finish : Bool → ℕ → Slot → ℕ → ℤ → M W (Unit {0})
  finish b i u filename lineno = do
    check_this env u
    touch_user env u
    dispose env i u filename lineno
    leave env b

  -- A call with an address that is neither NULL nor the block for no bytes, once it has the lock.
  pub record Locks (address : ℕ) (b : Bool) (s t : State W) : Type 0 where
    pub table : 0 < s.alloc_list
    pub real : 0 < address
    pub not_null : s.null_addr ≢ address
    pub entered : enter env b s ≡ ok tt t

  -- The same past the regular check of DUMA_CHECK_FREQ: none is due, or it has found nothing.
  pub record Enters (address : ℕ) (b : Bool) (s t : State W) : Type 0 where
    pub before : State W
    pub locks : Locks address b s before
    pub checked : check_now_and_then env before ≡ ok tt t

  module _ {a : ℕ} {b : Bool} {s t : State W} (into : Enters a b s t) where
    same : Same s t
    same =
        Same-trans (Ensures-ok (enter-Same env b s) into.locks.entered)
          (Ensures-ok (check_now_and_then-Same env into.before) into.checked)

    -- The first slot of the address, in the table behind the lock.
    found : {i : ℕ} → IsFirst (HasUser a) s.slots i → IsFirst (HasUser a) t.slots i
    found f =
        let e = same.slots in
        record {
          slot = f.slot;
          here = rw e f.here;
          holds = f.holds;
          earlier = λ j u lt g. f.earlier j u lt (rw e at g);
        }

    -- With the table there, the call with the address of a slot whose freed memory is still protected,
    -- neither NULL nor the block for no bytes, once it has the lock and where the regular check is not
    -- due or finds nothing, ends in the abort for memory that is already freed.
    pub deallocate-already_freed :
        (i : ℕ) (f : IsFirst (HasUser a) s.slots i) (al : Allocator) (filename : ℕ) (lineno : ℤ)
        → (f.slot.state ≡ SlotState.all_protected) ⊎ (f.slot.state ≡ SlotState.begin_protected)
        → deallocate env a b al filename lineno s ≡ abort (Abort.already_freed a f.slot.file_source)
    unfolding deallocate deallocate_block check_live
    deallocate-already_freed i f al filename lineno k =
        let e0 = into.locks in
        let e1 = into.locks.entered in
        let e2 = into.checked in
        let e3 = find_slot_lem a i t (found f) in ground (arith, e1, e2, e3)

    -- With the table there, the call for a buffer in use, other than the block for no bytes, by a
    -- function that belongs to another kind of allocator, once it has the lock and where the regular
    -- check is not due or finds nothing, ends in the abort for a mismatch.
    pub deallocate-mismatch :
        (i : ℕ) (f : IsFirst (HasUser a) s.slots i) (al : Allocator) (filename : ℕ) (lineno : ℤ)
        → f.slot.state ≡ SlotState.in_use
        → alloc_type f.slot.allocator ≢ alloc_type al
        → deallocate env a b al filename lineno s ≡ abort (Abort.free_mismatch f.slot.file_source)
    unfolding deallocate deallocate_block check_live
    deallocate-mismatch i f al filename lineno k other =
        let e0 = into.locks in
        let e1 = into.locks.entered in
        let e2 = into.checked in
        let e3 = find_slot_lem a i t (found f) in
        let e4 = same_type-other other in ground (arith, e1, e2, e3, e4)

    checked-unknown :
        (al : Allocator) (filename : ℕ) (lineno : ℤ)
        → ((i : ℕ) (u : Slot) → get_elem? s.slots i ≡ some u → u.user_address ≢ a)
        → (e : Abort) × (deallocate env a b al filename lineno s ≡ abort e)
    unfolding deallocate deallocate_block
    checked-unknown al filename lineno none_here =
        let e0 = into.locks in
        let e1 = into.locks.entered in
        let e2 = into.checked in
        let e4 = same.slots in
        let (e, e3) = find_slot-unknown a t (λ i u g. none_here i u (rw (← e4) g)) in
        (e, ground (arith, e1, e2, e3))

    -- The tests before the first change of state, with what comes after them.
    tests_pass :
        (next : ℕ → Slot → M W (Unit {0})) (i : ℕ) (f : IsFirst (HasUser a) s.slots i)
        (al : Allocator)
        → f.slot.state ≡ SlotState.in_use
        → alloc_type f.slot.allocator ≡ alloc_type al
        → (do
          enter env b
          check_now_and_then env
          (i, u) ← find_slot env a
          check_live env a u al
          count_dealloc env
          next i u)
            s
          ≡ next i f.slot (record t { num_deallocs = t.num_deallocs + 1 })
    unfolding check_live count_dealloc found
    tests_pass next i f al k kind =
        let live : check_live env a f.slot al t ≡ ok tt t = rw (k, same_type-same kind) refl in
        run-ok _ into.locks.entered
        ∙ run-ok _ into.checked
        ∙ run-ok _ (find_slot_lem a i t (found f))
        ∙ run-ok _ live

    into_block :
        (al : Allocator) (filename : ℕ) (lineno : ℤ)
        → deallocate env a b al filename lineno s ≡ deallocate_block env a b al filename lineno s
    unfolding deallocate
    into_block al filename lineno =
        let e1 = into.locks.table in
        let e2 = into.locks.real in let e3 = into.locks.not_null in ground arith

    -- What is left of the call for a live buffer of the right kind.
    pub deallocate-live :
        (i : ℕ) (f : IsFirst (HasUser a) s.slots i) (al : Allocator) (filename : ℕ) (lineno : ℤ)
        → f.slot.state ≡ SlotState.in_use
        → alloc_type f.slot.allocator ≡ alloc_type al
        → deallocate env a b al filename lineno s
          ≡ finish b i f.slot filename lineno (record t { num_deallocs = t.num_deallocs + 1 })
    unfolding deallocate_block finish
    deallocate-live i f al filename lineno k kind =
        into_block al filename lineno
        ∙ tests_pass (λ i u. finish b i u filename lineno) i f al k kind

    checked-overwritten :
        (i : ℕ) (f : IsFirst (HasUser a) s.slots i) (al : Allocator) (filename : ℕ) (lineno : ℤ)
        → f.slot.state ≡ SlotState.in_use
        → alloc_type f.slot.allocator ≡ alloc_type al
        → 0 < f.slot.user_size
        → 0 < f.slot.internal_address
        → ¬ Intact s.settings.slackfill f.slot s.memory
        → (e : Abort) × (deallocate env a b al filename lineno s ≡ abort e)
    unfolding finish
    checked-overwritten i f al filename lineno k kind sized based broken =
        let e4 = deallocate-live i f al filename lineno k kind in
        let e5 = same.settings in
        let e6 = same.memory in
        elim (Option-cases (check_slack t.settings.slackfill f.slot t.memory)) [
          | inl e ↦ absurd (
              broken (
                (check_slack_iff s.settings.slackfill f.slot s.memory sized based).0
                  (rw (e5, e6) at e)))
          | inr (e, h) ↦
              let e7 =
                check_this-abort f.slot (record t { num_deallocs = t.num_deallocs + 1 }) e h in
              (e, ground (arith, e4, e7))
        ]

  -- The regular check ends in an abort, or the call goes on.
  check_now_and_then-cases :
      (t : State W)
      → ((e : Abort) × (check_now_and_then env t ≡ abort e))
        ⊎ ((u : State W) × (check_now_and_then env t ≡ ok tt u))
  unfolding check_now_and_then
  check_now_and_then-cases t = elim (Bool-cases (t.settings.check_freq == 0)) [
    | inl off ↦ rw (check_now_and_then, off) (inr (t, refl))
    | inr on ↦ elim (Bool-cases (t.check_freq_counter + 1 == t.settings.check_freq)) [
      | inr early ↦ rw (check_now_and_then, on, early) (inr (_, refl))
      | inl due ↦ elim (Option-cases (check_all_slacks t.settings.slackfill t.slots t.memory)) [
        | inl clean ↦ rw (check_now_and_then, on, due, clean) (inr (_, refl))
        | inr (e, found_one) ↦ rw (check_now_and_then, on, due, found_one) (inl (e, refl))
      ]
    ]
  ]

  module _ {a : ℕ} {b : Bool} {s t : State W} (locks : Locks a b s t) where
    -- Where the regular check aborts, so does the call.
    check-abort :
        (e : Abort) (al : Allocator) (filename : ℕ) (lineno : ℤ)
        → check_now_and_then env t ≡ abort e
        → deallocate env a b al filename lineno s ≡ abort e
    unfolding deallocate deallocate_block
    check-abort e al filename lineno h =
        let e1 = locks.entered in
        let e2 = locks.table in
        let e3 = locks.real in let e4 = locks.not_null in ground (arith, e1, h)

    -- With the table there, once it has the lock, the call with an address other than NULL and that of the
    -- block for no bytes, which no slot holds, ends in an abort.
    pub deallocate-unknown :
        (al : Allocator) (filename : ℕ) (lineno : ℤ)
        → ((i : ℕ) (u : Slot) → get_elem? s.slots i ≡ some u → u.user_address ≢ a)
        → (e : Abort) × (deallocate env a b al filename lineno s ≡ abort e)
    deallocate-unknown al filename lineno none_here = elim (check_now_and_then-cases t) [
      | inl (e, h) ↦ (e, check-abort e al filename lineno h)
      | inr (u, h) ↦
          checked-unknown (record { before = t; locks = locks; checked = h }) al filename lineno
            none_here
    ]

    -- With the table there, once it has the lock, the call for a buffer in use, of at least a byte and
    -- other than the block for no bytes, by a function of the right kind, ends in an abort if a byte of
    -- the no man's land around it differs from the fill value.
    pub deallocate-overwritten :
        (i : ℕ) (f : IsFirst (HasUser a) s.slots i) (al : Allocator) (filename : ℕ) (lineno : ℤ)
        → f.slot.state ≡ SlotState.in_use
        → alloc_type f.slot.allocator ≡ alloc_type al
        → 0 < f.slot.user_size
        → 0 < f.slot.internal_address
        → ¬ Intact s.settings.slackfill f.slot s.memory
        → (e : Abort) × (deallocate env a b al filename lineno s ≡ abort e)
    deallocate-overwritten i f al filename lineno k kind sized based broken =
        elim (check_now_and_then-cases t) [
          | inl (e, h) ↦ (e, check-abort e al filename lineno h)
          | inr (u, h) ↦
              checked-overwritten (record { before = t; locks = locks; checked = h }) i f al
                filename lineno k kind sized based broken
        ]
