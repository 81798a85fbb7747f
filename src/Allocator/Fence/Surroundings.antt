-- ===== src/Allocator/Fence/Surroundings.antt =====
-- The lock, the table's own pages and the regular check, around the work on the regions.
use duma.Prelude.{
  sym, ap, ◌∙◌, ℕ, ◌+◌, ◌≤◌, ◌<◌, ◌≡◌, ◌≢◌, ◌⊎◌, inl, inr, arith, Bool, true, false, some, List,
  Option-cases, get_elem?,
}
use native.Mathlib.Decide.{dec_lt}
use duma.Slots.Types.{SlotState, Slot, internal, alloc_type}
use duma.Machine.Env.{Env, Access, unmapped, Protection, access_of, prot_none, read_write, IsOs}
use duma.Machine.State.{State}
use duma.Machine.Monad.{Ensures, ensures, returns, Ensures-bind, Ensures-weaken, Ensures-both}
use duma.Machine.Lock.{get_sem, rel_sem}
use duma.Machine.Paging.{page_allow_access, page_deny_access}
use duma.Allocator.Guard.{enter, leave, check_now_and_then}
use duma.Allocator.Guard.Same.{Same, get_sem-Same, rel_sem-Same, check_now_and_then-Same}
use duma.Allocator.Live.{is_buffer}
use duma.Allocator.Reduce.Spared.{IsProtected}
use duma.Allocator.Fence.{Inside, IsSound-move, IsFenced-move, Ordered, HasTable, Tidy}
use duma.Allocator.Fence.Protection.{
  WorldOnly, HasAccess, page_allow_access-HasAccess, page_deny_access-HasAccess,
}

module _ {W : Type 0} (env : Env W) (look : W → ℕ → Access) (os : IsOs env look) where
  -- Worlds with the same pages.
  abbrev pub Alike : W → W → Type 0
  Alike w w' = (x : ℕ) → look w' x ≡ look w x

  pub Ordered-Alike :
      (w w' : W) (us : List Slot)
      → Alike w w'
      → Ordered look env.page_size w us
      → Ordered look env.page_size w' us
  Ordered-Alike w w' us e o = record {
    sound = λ i u h. IsSound-move look env.page_size w w' u (λ x _. e x) (o.sound i u h);
    apart = o.apart;
  }

  get_sem-Alike : (s : State W) → Ensures (λ _ t. Alike s.world t.world) (get_sem env s)
  unfolding get_sem
  get_sem-Alike s = elim (Option-cases (env.mutex_lock (env.mutex_trylock s.world).0)) [
    | inl n ↦ ensures _ λ a t e x. ground (arith, e, n, os.trylock_same s.world x)
    | inr (w, n) ↦ ensures _ λ a t e x.
        ground
          (arith, e, n, os.trylock_same s.world x, os.lock_same (env.mutex_trylock s.world).0 w x n)
  ]

  rel_sem-Alike : (s : State W) → Ensures (λ _ t. Alike s.world t.world) (rel_sem env s)
  unfolding rel_sem
  rel_sem-Alike s = ensures _ λ a t e x. ground (arith, e, os.unlock_same s.world x)

  pub WorldOnly-Same : (s t : State W) → WorldOnly s t → Same s t
  WorldOnly-Same s t e = record {
    slots = ap {A = State W} (λ v. v.slots) e;
    memory = ap {A = State W} (λ v. v.memory) e;
    settings = ap {A = State W} (λ v. v.settings) e;
    alloc_list = ap {A = State W} (λ v. v.alloc_list) e;
    alloc_list_size = ap {A = State W} (λ v. v.alloc_list_size) e;
    null_addr = ap {A = State W} (λ v. v.null_addr) e;
    init_state = ap {A = State W} (λ v. v.init_state) e;
    num_allocs = ap {A = State W} (λ v. v.num_allocs) e;
    num_deallocs = ap {A = State W} (λ v. v.num_deallocs) e;
    unused_slots = ap {A = State W} (λ v. v.unused_slots) e;
    slots_per_page = ap {A = State W} (λ v. v.slots_per_page) e;
    sum_allocated = ap {A = State W} (λ v. v.sum_allocated) e;
    sum_protected = ap {A = State W} (λ v. v.sum_protected) e;
  }

  pub Tidy-Same :
      (s t : State W)
      → Same s t
      → Ordered look env.page_size t.world s.slots
      → Tidy look env.page_size s
      → Tidy look env.page_size t
  Tidy-Same s t same o tidy =
      let e = same.slots in
      let e1 = same.alloc_list in
      let e2 = same.alloc_list_size in
      record { ordered = rw e o; table = rw (e, e1, e2) tidy.table }

  -- Only the buffers of the user and freed memory say more of their pages than that they are there.
  module _ (p : Protection) (a n : ℕ) (s t : State W) (us : List Slot)
      (table : HasTable look env.page_size a n us) (set : HasAccess env look os p a n s t)
      (o : Ordered look env.page_size s.world us) where
    beyond : (x : ℕ) → ((a ≤ x) × (x < a + n) → ⊥) → look t.world x ≡ look s.world x
    beyond x out = elim (dec_lt x a) [
      | yes lt ↦ set.outside table.aligned table.whole x (inl lt)
      | no ge ↦ elim (dec_lt x (a + n)) [
        | yes lt ↦ absurd (out (omega arith, lt))
        | no ge' ↦ set.outside table.aligned table.whole x (inr (omega arith))
      ]
    ]

    not_table :
        (i : ℕ) (u : Slot)
        → get_elem? us i ≡ some u
        → (is_buffer u ≡ true) ⊎ IsProtected u
        → (x : ℕ) → Inside u x
        → look t.world x ≡ look s.world x
    not_table i u h mine x in1 = beyond x λ (lo, hi).
        let same = o.apart i table.index u table.slot x h table.here in1 (table.inside x lo hi) in
        let e : some u ≡ some table.slot = sym h ∙ ap (get_elem? us) same ∙ table.here in
        other u table.slot e table.state table.kind mine
      where
        other :
            (u v : Slot)
            → some u ≡ some v
            → v.state ≡ SlotState.in_use
            → alloc_type v.allocator ≡ internal
            → (is_buffer u ≡ true) ⊎ IsProtected u
            → ⊥
        other u v e st kind (inl b) = ground (arith, e, st, kind, b)
        other u v e st kind (inr (inl b)) = ground (arith, e, st, kind, b)
        other u v e st kind (inr (inr b)) = ground (arith, e, st, kind, b)

    granted_or_denied : access_of p ≢ unmapped
    granted_or_denied e = ground (arith, e)

    still_mapped :
        (i : ℕ) (u : Slot)
        → get_elem? us i ≡ some u
        → (x : ℕ) → Inside u x
        → look t.world x ≢ unmapped
    still_mapped i u h x in1 e = elim (dec_lt x a) [
      | yes lt ↦
          (o.sound i u h).mapped x in1 (sym (set.outside table.aligned table.whole x (inl lt)) ∙ e)
      | no ge ↦ elim (dec_lt x (a + n)) [
        | yes lt ↦ granted_or_denied (sym (set.inside x (omega arith) lt) ∙ e)
        | no ge' ↦
            (o.sound i u h).mapped x in1
              (sym (set.outside table.aligned table.whole x (inr (omega arith))) ∙ e)
      ]
    ]

    table_set-Ordered : Ordered look env.page_size t.world us
    table_set-Ordered = record {
      sound = λ i u h.
          let old = o.sound i u h in
          record {
            regular = old.regular;
            mapped = still_mapped i u h;
            hollow = old.hollow;
            plain = old.plain;
            holds = old.holds;
            user = old.user;
            fence = λ b.
                IsFenced-move look env.page_size s.world t.world u (not_table i u h (inl b))
                  (old.fence b);
            dead = λ p x in1. not_table i u h (inr p) x in1 ∙ old.dead p x in1;
          };
      apart = o.apart;
    }

  allow_table-Tidy :
      (s : State W)
      → Tidy look env.page_size s
      → Ensures
          (λ _ t. Tidy look env.page_size t)
          (page_allow_access env s.alloc_list s.alloc_list_size s)
  allow_table-Tidy s tidy =
      Ensures-weaken (page_allow_access-HasAccess env look os s.alloc_list s.alloc_list_size s)
        λ _ t q.
          Tidy-Same s t (WorldOnly-Same s t q.rest)
            (table_set-Ordered read_write s.alloc_list s.alloc_list_size s t s.slots tidy.table q
              tidy.ordered)
            tidy

  deny_table-Tidy :
      (s : State W)
      → Tidy look env.page_size s
      → Ensures
          (λ _ t. Tidy look env.page_size t)
          (page_deny_access env s.alloc_list s.alloc_list_size s)
  deny_table-Tidy s tidy =
      Ensures-weaken (page_deny_access-HasAccess env look os s.alloc_list s.alloc_list_size s)
        λ _ t q.
          Tidy-Same s t (WorldOnly-Same s t q.rest)
            (table_set-Ordered prot_none s.alloc_list s.alloc_list_size s t s.slots tidy.table q
              tidy.ordered)
            tidy

  Alike-Tidy :
      (s t : State W)
      → Same s t
      → Alike s.world t.world
      → Tidy look env.page_size s
      → Tidy look env.page_size t
  Alike-Tidy s t same e tidy =
      Tidy-Same s t same (Ordered-Alike s.world t.world s.slots e tidy.ordered) tidy

  pub enter-Tidy :
      (b : Bool) (s : State W)
      → Tidy look env.page_size s
      → Ensures (λ _ t. Tidy look env.page_size t) (enter env b s)
  unfolding enter
  enter-Tidy false s tidy = returns tidy
  enter-Tidy true s tidy =
      Ensures-bind (Ensures-both (get_sem-Same env s) (get_sem-Alike s))
        λ _ t (same, e). allow_table-Tidy t (Alike-Tidy s t same e tidy)

  pub leave-Tidy :
      (b : Bool) (s : State W)
      → Tidy look env.page_size s
      → Ensures (λ _ t. Tidy look env.page_size t) (leave env b s)
  unfolding leave
  leave-Tidy false s tidy = returns tidy
  leave-Tidy true s tidy = Ensures-bind (deny_table-Tidy s tidy) λ _ t tidy'.
      Ensures-weaken (Ensures-both (rel_sem-Same env t) (rel_sem-Alike t))
        λ _ u (same, e). Alike-Tidy t u same e tidy'

  check-Alike : (s : State W) → Ensures (λ _ t. Alike s.world t.world) (check_now_and_then env s)
  unfolding check_now_and_then
  check-Alike s = ensures _ λ a t e x. ground (arith, e)

  pub check-Tidy :
      (s : State W)
      → Tidy look env.page_size s
      → Ensures (λ _ t. Tidy look env.page_size t) (check_now_and_then env s)
  check-Tidy s tidy =
      Ensures-weaken (Ensures-both (check_now_and_then-Same env s) (check-Alike s))
        λ _ t (same, e). Alike-Tidy s t same e tidy
