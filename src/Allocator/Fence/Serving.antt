-- ===== src/Allocator/Fence/Serving.antt =====
-- `_duma_allocate` and the pages of the regions.
use duma.Prelude.{
  ◌∙◌, ℕ, ◌≡◌, inl, inr, arith, Bool, true, false, refl, not, ◌&&◌, ltb, some, Option-cases,
}
use duma.Words.{IsPower}
use duma.Slots.{search_slots}
use duma.Slots.BestFit.{nothing_found, search_slots-Seen}
use duma.Slots.Types.{internal, alloc_type, same_type}
use duma.Machine.Env.{Env, Access, IsOs}
use duma.Machine.State.{State}
use duma.Machine.Monad.{M, Ensures, returns, aborts, Ensures-bind, Ensures-both, Ensures-test, when}
use duma.Allocator.Request.{Request}
use duma.Allocator.Allocate.{find_region, fill_user, serve}
use duma.Allocator.Guard.Same.{enter-Same, check_now_and_then-Same}
use duma.Allocator.Fence.{Tidy}
use duma.Allocator.Fence.Occupying.{Suits}
use duma.Allocator.Fence.Claiming.{IsChosen, use_region-Tidy}
use duma.Allocator.Fence.Filling.{get_elem?-within, IsEmptyAt}
use duma.Allocator.Fence.Chunks.{create_chunk-IsChosen}
use duma.Allocator.Fence.Surroundings.{enter-Tidy, leave-Tidy, check-Tidy}

module _ {W : Type 0} (env : Env W) (look : W → ℕ → Access) (os : IsOs env look)
    (power : IsPower env.page_size) (r : Request) where
  abbrev is_short : State W → Bool
  is_short s = not (same_type internal (alloc_type r.allocator)) && ltb s.unused_slots 7

  -- Where the table grows, it is tidy again.
  abbrev pub Grows : M W (Unit {0}) → ℕ → Type 0
  Grows grow n =
      (s : State W)
      → Tidy look env.page_size s
      → s.unused_slots ≡ n
      → is_short s ≡ true
      → Ensures (λ _ t. Tidy look env.page_size t) (grow s)

  module _ (alignment needed : ℕ) (suits : Suits env.page_size r alignment needed) where
    empty0-IsEmptyAt :
        (s : State W) (i : ℕ)
        → (search_slots needed s.slots 0 nothing_found).empty0 ≡ some i
        → IsEmptyAt env look os power i s
    empty0-IsEmptyAt s i e =
        let seen = search_slots-Seen needed s.slots in
        let (u, here) = get_elem?-within s.slots i (seen.empty0_lt i e).1 in
        record { slot = u; here = here; state = seen.empty0 i u e here }

    empty1-IsEmptyAt :
        (s : State W) (i : ℕ)
        → (search_slots needed s.slots 0 nothing_found).empty1 ≡ some i
        → IsEmptyAt env look os power i s
    empty1-IsEmptyAt s i e =
        let seen = search_slots-Seen needed s.slots in
        let (u, here) = get_elem?-within s.slots i (seen.empty1_lt i e).1 in
        record { slot = u; here = here; state = seen.empty1 i u e here }

    full-IsChosen :
        (s : State W) (i b : ℕ)
        → (search_slots needed s.slots 0 nothing_found).full ≡ some (i, b)
        → IsChosen env look os power r alignment needed suits i
            (search_slots needed s.slots 0 nothing_found).empty0
            s
    full-IsChosen s i b e =
        let seen = search_slots-Seen needed s.slots in
        let (u, here) = get_elem?-within s.slots i (seen.chosen_lt i b e) in
        let (lt, st, size, large) = seen.chosen i b u e here in
        record {
          slot = u;
          here = here;
          usable = inr (st, omega arith);
          spares = λ k h. let at_k = empty0-IsEmptyAt s k h in (at_k.slot, at_k.here, at_k.state);
        }

    find_region-IsChosen :
        (s : State W)
        → Tidy look env.page_size s
        → Ensures
            (λ c t.
              Tidy look env.page_size t
              × IsChosen env look os power r alignment needed suits c.0 c.1 t)
            (find_region env r needed s)
    unfolding find_region
    find_region-IsChosen s tidy =
        let f = search_slots needed s.slots 0 nothing_found in
        elim (Option-cases f.full) [
          | inr (p, e) ↦ rw (find_region, e) (returns (tidy, full-IsChosen s p.0 p.1 e))
          | inl e ↦ elim (Option-cases f.empty0) [
            | inl e0 ↦ rw (find_region, e, e0) aborts
            | inr (i, e0) ↦ elim (Option-cases f.empty1) [
              | inl e1 ↦ rw (find_region, e, e0, e1) aborts
              | inr (i', e1) ↦
                  let lt = (search_slots-Seen needed s.slots).apart i i' e0 e1 in
                  rw (find_region, e, e0, e1)
                    (Ensures-bind
                      (create_chunk-IsChosen env look os power r alignment needed suits i i'
                        r.fail_env s tidy (empty0-IsEmptyAt s i e0) (empty1-IsEmptyAt s i' e1)
                        (λ h. omega arith))
                      λ _ t q. returns q)
            ]
          ]
        ]

    fill_user-Tidy :
        (a : ℕ) (s : State W)
        → Tidy look env.page_size s
        → Ensures (λ _ t. Tidy look env.page_size t) (fill_user env r a s)
    unfolding fill_user
    fill_user-Tidy a s tidy = Ensures-test _ (returns tidy) (
        Ensures-test _ (returns tidy)
          (returns (record { ordered = tidy.ordered; table = tidy.table })))

    when-Tidy :
        (b : Bool) (m : M W (Unit {0})) (s : State W)
        → Tidy look env.page_size s
        → (b ≡ true → Ensures (λ _ t. Tidy look env.page_size t) (m s))
        → Ensures (λ _ t. Tidy look env.page_size t) (when b m s)
    when-Tidy true m s tidy h = h refl
    when-Tidy false m s tidy h = returns tidy

    pub serve-Tidy :
        (grow : M W (Unit {0})) (s : State W)
        → Grows grow s.unused_slots
        → Tidy look env.page_size s
        → Ensures (λ _ t. Tidy look env.page_size t) (serve env grow r alignment needed s)
    unfolding serve
    serve-Tidy grow s grown tidy =
        Ensures-bind
          (Ensures-both (enter-Tidy env look os r.protect_alloc_list s tidy)
            (enter-Same env r.protect_alloc_list s))
          λ _ s1 (tidy1, same1).
            Ensures-bind
              (Ensures-both (check-Tidy env look os s1 tidy1) (check_now_and_then-Same env s1))
              λ _ s2 (tidy2, same2).
                Ensures-bind
                  (when-Tidy (is_short s2) grow s2 tidy2
                    (grown s2 tidy2 (same2.unused_slots ∙ same1.unused_slots)))
                  λ _ s3 tidy3.
                    Ensures-bind (find_region-IsChosen s3 tidy3) λ (i, spare) s4 (tidy4, chosen).
                      Ensures-bind
                        (use_region-Tidy env look os power r alignment needed suits i spare s4 tidy4
                          chosen)
                        λ a s5 (tidy5, _).
                          Ensures-bind (leave-Tidy env look os r.protect_alloc_list s5 tidy5)
                            λ _ s6 tidy6.
                              Ensures-bind (fill_user-Tidy a s6 tidy6)
                                λ _ s7 tidy7. returns {a = a} tidy7
