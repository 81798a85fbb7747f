-- ===== src/Allocator/Finish/Regions.antt =====
-- Whether the search for a region and its use come to an end.
use duma.Prelude.{ℕ, inl, inr, arith, Bool, false, ◌==◌, Option, Option-cases, get_elem?}
use duma.Slots.{search_slots}
use duma.Slots.BestFit.{nothing_found}
use duma.Layout.{Placement}
use duma.Machine.Env.{Env}
use duma.Machine.State.{State}
use duma.Machine.Paging.{page_create}
use duma.Allocator.Reduce.{reduce_protected_memory}
use duma.Allocator.Request.{Request}
use duma.Allocator.Region.{split_slot, place, commit, use_region}
use duma.Allocator.Chunk.{obtain, first_try, stay_below_limit, take_chunk, create_chunk}
use duma.Allocator.Allocate.{find_region}
use duma.Allocator.Finish.{
  InTime, InTime-bind, InTime-ok, InTime-abort, InTime-test, InTime-if, page_create-InTime,
  page_allow_access-InTime, page_deny_access-InTime, reduce-InTime, obtain-InTime,
}

module _ {W : Type 0} (env : Env W) where
  stay_below_limit-InTime : (kb : ℕ) (s : State W) → InTime (stay_below_limit env kb s)
  unfolding stay_below_limit
  stay_below_limit-InTime kb s =
      InTime-test _
        (InTime-bind (reduce_protected_memory env kb s) (reduce-InTime env kb s)
          λ _ t. InTime-ok tt t)
        (InTime-ok tt s)

  first_try-InTime : (chunk size : ℕ) (s : State W) → InTime (first_try env chunk size s)
  unfolding first_try
  first_try-InTime chunk size s = InTime-test _ (InTime-ok _ s) (
      InTime-test _ (InTime-abort _) (
        InTime-bind (page_create env _ false false s) (page_create-InTime env _ false false s)
          λ a t. InTime-ok _ t))

  take_chunk-InTime :
      (i chunk count a : ℕ) (s : State W) → InTime (take_chunk env i chunk count a s)
  unfolding take_chunk
  take_chunk-InTime i chunk count a s = InTime-test _ (InTime-ok tt s) (InTime-ok tt _)

  create_chunk-InTime :
      (needed size : ℕ) (b : Bool) (i : ℕ) (s : State W)
      → InTime (create_chunk env needed size b i s)
  unfolding create_chunk
  create_chunk-InTime needed size b i s =
      InTime-bind (stay_below_limit env _ s) (stay_below_limit-InTime _ s) λ _ s1.
        InTime-bind (first_try env _ size s1) (first_try-InTime _ size s1) λ (count, a) s2.
          InTime-bind (obtain env _ count b _ a s2) (obtain-InTime env _ count b _ a s2)
            λ c s3. take_chunk-InTime i _ count c s3

  pub find_region-InTime :
      (r : Request) (needed : ℕ) (s : State W) → InTime (find_region env r needed s)
  unfolding find_region
  find_region-InTime r needed s =
      let f = search_slots needed s.slots 0 nothing_found in
      elim (Option-cases f.full) [
        | inr (p, e) ↦ rw (find_region, e) (InTime-ok _ s)
        | inl e ↦ elim (Option-cases f.empty0) [
          | inl e0 ↦ rw (find_region, e, e0) (λ e'. cc)
          | inr (i, e0) ↦ elim (Option-cases f.empty1) [
            | inl e1 ↦ rw (find_region, e, e0, e1) (λ e'. cc)
            | inr (i', e1) ↦
                rw (find_region, e, e0, e1)
                  (InTime-bind (create_chunk env needed r.user_size r.fail_env i s)
                    (create_chunk-InTime needed r.user_size r.fail_env i s) λ _ t. InTime-ok _ t)
          ]
        ]
      ]

  split_slot-InTime :
      (needed i : ℕ) (spare : Option ℕ) (s : State W) → InTime (split_slot env needed i spare s)
  unfolding split_slot
  split_slot-InTime needed i spare s = λ e. ground (arith, e)

  place-InTime :
      (r : Request) (alignment needed a : ℕ) (s : State W)
      → InTime (place env r alignment needed a s)
  unfolding place
  place-InTime r alignment needed a s =
      InTime-if _ _ s (r.user_size == 0)
        (InTime-bind _ (page_deny_access-InTime env _ _ s) λ _ t. InTime-ok _ t)
        (InTime-if _ _ s r.protect_below
          (InTime-bind _ (page_allow_access-InTime env _ _ s)
            λ _ t. InTime-bind _ (page_deny_access-InTime env _ _ t) λ _ u. InTime-ok _ u)
          (InTime-bind _ (page_allow_access-InTime env _ _ s)
            λ _ t. InTime-bind _ (page_deny_access-InTime env _ _ t) λ _ u. InTime-ok _ u))

  commit-InTime : (r : Request) (i : ℕ) (p : Placement) (s : State W) → InTime (commit env r i p s)
  unfolding commit
  commit-InTime r i p s = elim (Option-cases (get_elem? s.slots i)) [
    | inl e ↦ rw (commit, e) (λ e'. cc)
    | inr (t, e) ↦ rw (commit, e) (InTime-ok _ _)
  ]

  pub use_region-InTime :
      (r : Request) (alignment needed i : ℕ) (spare : Option ℕ) (s : State W)
      → InTime (use_region env r alignment needed i spare s)
  unfolding use_region
  use_region-InTime r alignment needed i spare s = elim (Option-cases (get_elem? s.slots i)) [
    | inl e ↦ rw (use_region, e) (λ e'. cc)
    | inr (t, e) ↦
        rw (use_region, e)
          (InTime-test (t.internal_size == 0) (InTime-ok 0 s) (
            InTime-bind _ (split_slot-InTime needed i spare s) λ _ s1.
              InTime-bind _ (place-InTime r alignment needed t.internal_address s1)
                λ p s2. InTime-bind _ (commit-InTime r i p s2) λ _ s3. InTime-ok _ s3))
  ]
