-- ===== src/Allocator/Deallocate/Twice.antt =====
-- Two calls of `_duma_deallocate` with one address, under a negative DUMA_PROTECT_FREE.
use duma.Prelude.{
  inl, ℕ, ◌+◌, ◌≡◌, refl, sym, ap, ◌∙◌, arith, Bool, true, false, ◌&&◌, List, if◌then◌else◌, set,
  get_elem?-set_self, get_elem?-set_ne, lt_of_get_elem?,
}
use duma.Prelude.Int.{ℤ, pos, negsuc, ltb_ℤ}
use duma.Slots.Search.{HasUser, IsFirst}
use duma.Slots.Types.{SlotState, Allocator, Slot, alloc_type, is_internal}
use duma.Machine.Env.{Env}
use duma.Machine.State.{State}
use duma.Machine.Monad.{
  run-ok, ok, abort, Abort, Ensures, returns, ensures, Ensures-bind, Ensures-weaken, Ensures-ok,
}
use duma.Allocator.Reduce.{kilobytes}
use duma.Allocator.Guard.{enter, check_now_and_then}
use duma.Allocator.Guard.Same.{
  Same-trans, check_now_and_then-Same, enter-Same, leave-Same, page_deny_access-Same,
}
use duma.Allocator.Deallocate.{
  check_this, touch_user, dispose, make_room, keeps, kept, deallocate, protect_region,
  delete_region,
}
use duma.Allocator.Deallocate.Detect.{finish, Enters, deallocate-live, deallocate-already_freed}

-- A state whose table differs in one slot.
pub record Keeps {W : Type 0} (i : ℕ) (u : Slot) (s t : State W) : Type 0 where
  pub slots : t.slots ≡ set s.slots i u
  pub settings : t.settings ≡ s.settings
  pub alloc_list : t.alloc_list ≡ s.alloc_list
  pub null_addr : t.null_addr ≡ s.null_addr

skip : {A : Type 0} (a b c d : Bool) (x y : A) → a ≡ false → (if a && b && c && d then x else y) ≡ y
skip a b c d x y e = rw e refl

module _ {W : Type 0} (env : Env W) where
  pub check_this-state : (u : Slot) (s : State W) → Ensures (λ _ t. t ≡ s) (check_this env u s)
  unfolding check_this
  check_this-state u s = ensures _ (λ r t e. ground (arith, e))

  touch_user-state :
      (u : Slot) (s : State W)
      → Ensures
          (λ _ t.
            (t.slots ≡ s.slots)
            × (t.settings ≡ s.settings)
            × (t.alloc_list ≡ s.alloc_list)
            × (t.null_addr ≡ s.null_addr))
          (touch_user env u s)
  unfolding touch_user
  touch_user-state u s = ensures _ (λ r t e. ground (arith, e))

  module _ (u : Slot) (s : State W) (n : ℕ) (e : s.settings.protect_free ≡ negsuc n) where
    no_room : (kb : ℕ) → make_room env kb s ≡ ok tt s
    unfolding make_room
    no_room kb =
        let off : ltb_ℤ (pos 0) s.settings.protect_free ≡ false = ground arith in
        skip _ _ _ _ _ _ off

    keeps-true : (kb : ℕ) → is_internal u.allocator ≡ false → keeps env u kb s ≡ true
    unfolding keeps
    keeps-true kb k = ground arith

    protect_region-Keeps :
        (i kb filename : ℕ) (lineno : ℤ)
        → Ensures
            (λ _ t. Keeps i (kept filename lineno u) s t)
            (protect_region env i u kb filename lineno s)
    unfolding protect_region
    protect_region-Keeps i kb filename lineno =
        Ensures-bind (page_deny_access-Same env u.internal_address u.internal_size s)
          λ _ t same. returns (ground (arith, same))

    dispose-Keeps :
        (i filename : ℕ) (lineno : ℤ)
        → is_internal u.allocator ≡ false
        → Ensures (λ _ t. Keeps i (kept filename lineno u) s t) (dispose env i u filename lineno s)
    unfolding dispose
    dispose-Keeps i filename lineno k =
        let kb : ℕ = kilobytes u.internal_size in
        let e1 =
          run-ok
            (λ _ t.
              (if keeps env u kb t
                  then protect_region env i u kb filename lineno
                  else delete_region env i u kb)
                t)
            (no_room kb) in
        rw (e1, keeps-true kb k) (protect_region-Keeps i kb filename lineno)

module _ {W : Type 0} (env : Env W) (b : Bool) (u : Slot) {s : State W} {n : ℕ}
    (e : s.settings.protect_free ≡ negsuc n) (k : is_internal u.allocator ≡ false) where
  finish-Keeps :
      (i filename : ℕ) (lineno : ℤ)
      → Ensures (λ _ t. Keeps i (kept filename lineno u) s t) (finish env b i u filename lineno s)
  unfolding finish
  finish-Keeps i filename lineno = Ensures-bind (check_this-state env u s) λ _ s1 same1.
      Ensures-bind (touch_user-state env u s1) λ _ s2 same2.
        Ensures-bind (dispose-Keeps env u s2 n (ground (arith, same2)) i filename lineno k)
          λ _ s3 now.
            Ensures-weaken (leave-Same env b s3) λ _ s4 same4. ground (arith, now, same2, same4)

kept-user :
    (filename : ℕ) (lineno : ℤ) (u : Slot) → (kept filename lineno u).user_address ≡ u.user_address
kept-user filename lineno u = ground arith

-- The slot of the freed buffer is still the first with its address.
abbrev kept-IsFirst :
    {a i : ℕ} {slots slots' : List Slot} (filename : ℕ) (lineno : ℤ)
    (f : IsFirst (HasUser a) slots i)
    → slots' ≡ set slots i (kept filename lineno f.slot)
    → IsFirst (HasUser a) slots' i
kept-IsFirst {i} {slots} filename lineno f same = record {
  slot = kept filename lineno f.slot;
  here = rw same (get_elem?-set_self slots i _ (lt_of_get_elem? slots i f.here));
  holds = kept-user filename lineno f.slot ∙ f.holds;
  earlier = λ j u lt g.
      f.earlier j u lt
        (sym (get_elem?-set_ne slots _ (λ (e : i ≡ j). omega arith)) ∙ (rw same at g));
}

pub kept-state :
    (filename : ℕ) (lineno : ℤ) (u : Slot)
    → (kept filename lineno u).state ≡ SlotState.all_protected
kept-state filename lineno u = ground arith

module _ {W : Type 0} (env : Env W) {a : ℕ} {b : Bool} {s t s' u' t' : State W} where
  -- With the table there and freed memory kept without limit, a buffer in use of the user, other than
  -- the block for no bytes, that was freed cannot be freed again: once the first call has returned, a
  -- second call directly behind it that gets past the lock, and whose regular check is not due or
  -- finds nothing, ends in the abort for memory that is already freed.
  pub deallocate-deallocate :
      {n : ℕ}
      → s.settings.protect_free ≡ negsuc n
      → (into : Enters env a b s t)
      → (i : ℕ) (f : IsFirst (HasUser a) s.slots i) (al al' : Allocator) (filename filename' : ℕ)
        (lineno lineno' : ℤ)
      → f.slot.state ≡ SlotState.in_use
      → is_internal f.slot.allocator ≡ false
      → alloc_type f.slot.allocator ≡ alloc_type al
      → deallocate env a b al filename lineno s ≡ ok tt s'
      → enter env b s' ≡ ok tt u'
      → check_now_and_then env u' ≡ ok tt t'
      → deallocate env a b al' filename' lineno' s'
        ≡ abort (Abort.already_freed a (kept filename lineno f.slot).file_source)
  deallocate-deallocate e into i f al al' filename filename' lineno lineno' live other kind done
        entered checked =
      let first = into.locks in
      let same =
        Same-trans (Ensures-ok (enter-Same env b s) first.entered)
          (Ensures-ok (check_now_and_then-Same env into.before) into.checked) in
      let same_settings = same.settings in
      let done' = sym (deallocate-live env into i f al filename lineno live kind) ∙ done in
      let e' : t.settings.protect_free ≡ _ = ap (λ x. x.protect_free) same_settings ∙ e in
      let now' : Keeps i (kept filename lineno f.slot)
          (record t { num_deallocs = t.num_deallocs + 1 }) s' =
        Ensures-ok (finish-Keeps env b f.slot e' other i filename lineno) done' in
      let now : Keeps i (kept filename lineno f.slot) s s' = ground (arith, same, now') in
      let into' : Enters env a b s' t' = record {
        before = u';
        locks = record {
          table = ground (arith, first, now);
          real = first.real;
          not_null = ground (arith, first, now);
          entered = entered;
        };
        checked = checked;
      } in
      deallocate-already_freed env into' i (kept-IsFirst filename lineno f now.slots) al' filename'
        lineno' (inl (kept-state filename lineno f.slot))
