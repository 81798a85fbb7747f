-- ===== src/Allocator/Live/Regions.antt =====
-- A region is found and becomes a buffer, in the user's view.
use duma.Prelude.{
  ◌∙◌, ℕ, ◌≡◌, inl, inr, refl, arith, false, Option, none, some, List, ◌==◌, Option-cases,
  get_elem?, lt_of_get_elem?, ltb,
}
use duma.Slots.{search_slots}
use duma.Slots.BestFit.{nothing_found}
use duma.Slots.Types.{Slot}
use duma.Machine.Paging.{page_allow_access, page_deny_access}
use duma.Allocator.Update.{update_slot}
use duma.Layout.{Placement}
use duma.Machine.Env.{Env}
use duma.Machine.State.{State}
use duma.Machine.Monad.{
  Ensures, returns, aborts, faults, Ensures-bind, Ensures-weaken, Ensures-if, Ensures-test,
}
use duma.Allocator.Guard.Same.{page_allow_access-Same, page_deny_access-Same}
use duma.Allocator.Request.{Request}
use duma.Allocator.Region.{split_slot, place, commit, use_region, occupied}
use duma.Allocator.Allocate.{find_region}
use duma.Allocator.Live.{
  buffer_at, is_buffer, Stay, Kept, Kept-refl, Kept-trans, Same-Kept, update_slot-Stay,
  buffer_at-get, buffer_at-set,
}
use duma.Allocator.Live.Steps.{Calm, then-Calm, create_chunk-Calm}
use duma.Allocator.Live.Answers.{
  Placed, Answered, null, placed, IsSpare, full_free, empty0_free, empty1_free, IsSpare-free,
  Kept-Answered,
}

module _ {W : Type 0} (env : Env W) where
  -- What the search leaves.
  abbrev pub Chosen : State W → ℕ × Option ℕ → State W → Type 0
  Chosen s c t = Kept s t × (buffer_at t.slots c.0 ≡ none) × IsSpare c.1 t.slots

  pub find_region-Chosen :
      (r : Request) (needed : ℕ) (s : State W)
      → Ensures (λ c t. Chosen s c t) (find_region env r needed s)
  unfolding find_region
  find_region-Chosen r needed s =
      let f = search_slots needed s.slots 0 nothing_found in
      elim (Option-cases f.full) [
        | inr (p, e) ↦
            rw (find_region, e)
              (returns (
                Kept-refl s,
                full_free needed s.slots p.0 p.1 e,
                IsSpare-free needed s.slots f.empty0 refl,
              ))
        | inl e ↦ elim (Option-cases f.empty0) [
          | inl e0 ↦ rw (find_region, e, e0) aborts
          | inr (i, e0) ↦ elim (Option-cases f.empty1) [
            | inl e1 ↦ rw (find_region, e, e0, e1) aborts
            | inr (i', e1) ↦
                let idle = empty0_free needed s.slots i e0 in
                let idle' = empty1_free needed s.slots i' e1 in
                rw (find_region, e, e0, e1)
                  (Ensures-bind (create_chunk-Calm env needed r.user_size r.fail_env i s idle)
                    λ _ t k. returns (k, k.buffers i ∙ idle, k.buffers i' ∙ idle'))
          ]
        ]
      ]

  not_buffer :
      (slots : List Slot) (i : ℕ) (u : Slot)
      → buffer_at slots i ≡ none
      → get_elem? slots i ≡ some u
      → is_buffer u ≡ false
  not_buffer slots i u idle e = let view = buffer_at-get slots i e in ground (arith, view, idle)

  -- Both halves of a region that holds no buffer hold none.
  halves :
      (i e needed : ℕ) (rest : Slot) (slots : List Slot)
      → buffer_at slots i ≡ none
      → buffer_at slots e ≡ none
      → is_buffer rest ≡ false
      → Stay slots (
          update_slot i
            (λ u. record u { internal_size = needed })
            (update_slot e (λ _. rest) slots))
  halves i e needed rest slots idle idle' plain j =
      let first = update_slot-Stay slots e (λ _. rest) idle' (λ u h. plain) in
      let slots' : List Slot = update_slot e (λ _. rest) slots in
      let idle2 : buffer_at slots' i ≡ none = first i ∙ idle in
      update_slot-Stay slots' i (λ u. record u { internal_size = needed }) idle2
        (λ u h. not_buffer slots' i u idle2 h) j
      ∙ first j

  split_slot-Calm :
      (needed i : ℕ) (spare : Option ℕ) (s : State W)
      → buffer_at s.slots i ≡ none
      → IsSpare spare s.slots
      → Calm s (split_slot env needed i spare s)
  unfolding split_slot
  split_slot-Calm needed i none s idle idle' = elim (Option-cases (get_elem? s.slots i)) [
    | inl e ↦ rw (split_slot, e) faults
    | inr (t, e) ↦
        rw (split_slot, e)
          (Ensures-test (ltb needed t.internal_size) faults (returns (Kept-refl s)))
  ]
  split_slot-Calm needed i (some k) s idle idle' = elim (Option-cases (get_elem? s.slots i)) [
    | inl e ↦ rw (split_slot, e) faults
    | inr (t, e) ↦
        let plain = not_buffer s.slots i t idle e in
        rw (split_slot, e)
          (Ensures-test (ltb needed t.internal_size)
            (returns (record {
              settings = refl;
              null_addr = refl;
              init_state = refl;
              table = λ h. h;
              buffers = halves i k needed _ s.slots idle idle' plain;
            }))
            (returns (Kept-refl s)))
  ]

  allow : (a n : ℕ) (s : State W) → Calm s (page_allow_access env a n s)
  allow a n s = Ensures-weaken (page_allow_access-Same env a n s) λ _ t same. Same-Kept same

  deny : (a n : ℕ) (s : State W) → Calm s (page_deny_access env a n s)
  deny a n s = Ensures-weaken (page_deny_access-Same env a n s) λ _ t same. Same-Kept same

  place-Calm :
      (r : Request) (alignment needed a : ℕ) (s : State W)
      → Calm s (place env r alignment needed a s)
  unfolding place
  place-Calm r alignment needed a s =
      Ensures-if _ _ (r.user_size == 0) (then-Calm (deny _ _ s) λ _ t k. returns (Kept-refl t)) (
        Ensures-if _ _ r.protect_below
          (then-Calm (allow _ _ s) λ _ t k. then-Calm (deny _ _ t) λ _ u k'. returns (Kept-refl u))
          (then-Calm (allow _ _ s) λ _ t k. then-Calm (deny _ _ t) λ _ u k'. returns (Kept-refl u)))

  commit-Placed :
      (r : Request) (i : ℕ) (p : Placement) (s : State W)
      → buffer_at s.slots i ≡ none
      → Ensures (λ _ t. Placed r p.user s t) (commit env r i p s)
  unfolding commit
  commit-Placed r i p s idle = elim (Option-cases (get_elem? s.slots i)) [
    | inl e ↦ rw (commit, e) faults
    | inr (t, e) ↦
        rw (commit, e)
          (returns (record {
            index = i;
            slot = occupied env r p t;
            settings = refl;
            null_addr = refl;
            init_state = refl;
            table = λ h. h;
            before = idle;
            view = λ j. buffer_at-set s.slots i _ j (lt_of_get_elem? s.slots i e);
            address = refl;
            size = refl;
            allocator = refl;
            state = refl;
          }))
  ]

  pub use_region-Answered :
      (r : Request) (alignment needed i : ℕ) (spare : Option ℕ) (s : State W)
      → buffer_at s.slots i ≡ none
      → IsSpare spare s.slots
      → Ensures (λ a t. Answered r a s t) (use_region env r alignment needed i spare s)
  unfolding use_region
  use_region-Answered r alignment needed i spare s idle idle' =
      elim (Option-cases (get_elem? s.slots i)) [
        | inl e ↦ rw (use_region, e) faults
        | inr (t, e) ↦
            rw (use_region, e)
              (Ensures-test (t.internal_size == 0) (returns (null refl (Kept-refl s))) (
                Ensures-bind (split_slot-Calm needed i spare s idle idle') λ _ s1 k1.
                  Ensures-bind (place-Calm r alignment needed t.internal_address s1) λ p s2 k2.
                    Ensures-bind (commit-Placed r i p s2 (k2.buffers i ∙ k1.buffers i ∙ idle))
                      λ _ s3 q. returns (Kept-Answered (Kept-trans k1 k2) (placed q))))
      ]
