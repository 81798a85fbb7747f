-- ===== src/Allocator/Fence/Chunks.antt =====
-- `create_chunk` and the pages of the regions.
use duma.Prelude.{
  sym, ◌∙◌, ℕ, ◌*◌, ◌%◌, ◌^◌, ◌≤◌, ◌<◌, ◌≡◌, ◌≢◌, ◌⊎◌, inl, inr, arith, Bool, refl, ltb, ◌==◌,
  Option, some, get_elem?, Bool-cases, get_elem?-set_self, get_elem?-set_ne, lt_of_get_elem?,
}
use duma.Words.{IsPower, IsPower-bounds, round_up-IsFloor}
use duma.Words.Defs.{u64}
use duma.Layout.{internal_size}
use duma.Layout.Size.{Fits, IsSized, internal_size-IsSized}
use duma.Slots.Types.{SlotState, Slot}
use duma.Machine.Env.{Env, Access, IsOs}
use duma.Machine.State.{State}
use duma.Machine.Monad.{Ensures, returns, Ensures-bind, Ensures-weaken, Ensures-cases}
use duma.Allocator.Request.{Request}
use duma.Allocator.Chunk.{memory_creation_size, chunk_size, obtain, take_chunk, create_chunk}
use duma.Allocator.Fence.{Tidy}
use duma.Allocator.Fence.Occupying.{Suits, whole_pages}
use duma.Allocator.Fence.Splitting.{update_slot_lem}
use duma.Allocator.Fence.Claiming.{IsChosen}
use duma.Allocator.Fence.Filling.{IsEmptyAt, keep_empty, filled, filled-Ordered, filled-Table}
use duma.Allocator.Fence.Creating.{
  IsFresh, IsObtained, stay_below_limit-Tidy, obtain-IsObtained, first_try-IsObtained,
}

module _ {W : Type 0} (env : Env W) (look : W → ℕ → Access) (os : IsOs env look)
    (power : IsPower env.page_size) where
  module _ (r : Request) (alignment needed : ℕ)
      (suits : Suits env.page_size r alignment needed) where
    abbrev Chosen : ℕ → Option ℕ → State W → Type 0
    Chosen = IsChosen env look os power r alignment needed suits

    chunk-bounds :
        (chunk_size env needed % env.page_size ≡ 0)
        × (needed ≤ chunk_size env needed)
        × (chunk_size env needed < 2 ^ 31)
    unfolding chunk_size
    chunk-bounds = elim (Bool-cases (ltb memory_creation_size needed)) [
      | inl e ↦
          let floor = round_up-IsFloor power needed (omega (arith, suits.small)) in
          rw (chunk_size, e)
            (floor.multiple, omega (arith, floor.near), omega (arith, floor.below, suits.small))
      | inr e ↦
          let floor = round_up-IsFloor power memory_creation_size (
            omega
              (arith, suits.small, (whole_pages env look os power r alignment needed suits).1)) in
          let le : needed ≤ memory_creation_size = ground (arith, e) in
          rw (chunk_size, e)
            (
              floor.multiple,
              omega (arith, floor.near, le),
              omega (
                arith,
                floor.below,
                suits.small,
                (whole_pages env look os power r alignment needed suits).1,
              ),
            )
    ]

    -- The chosen slot behind the call for new memory.
    IsFilled : ℕ → State W → State W → Type 0
    IsFilled i s t =
        Tidy look env.page_size t
        × ((u : Slot) × (get_elem? t.slots i ≡ some u)
            × ((u.internal_size ≡ 0) ⊎ ((u.state ≡ SlotState.free) × (needed ≤ u.internal_size))))
        × ((j : ℕ) → j ≢ i → get_elem? t.slots j ≡ get_elem? s.slots j)

    take_chunk-IsFilled :
        (i n a : ℕ) (s : State W)
        → Tidy look env.page_size s
        → IsEmptyAt env look os power i s
        → n % env.page_size ≡ 0
        → needed ≤ n
        → n < 2 ^ 31
        → (0 < a → IsFresh env look os power n a s)
        → Ensures (λ _ t. IsFilled i s t) (take_chunk env i n 1 a s)
    unfolding take_chunk IsFilled
    take_chunk-IsFilled i n a s tidy empty whole large small fresh =
        let e : u64 (n * 1) ≡ n = omega (arith, small) in
        let u = empty.slot in
        let here = empty.here in
        let slots_of =
          update_slot_lem s.slots i u (λ t. filled env look os power a (u64 (n * 1)) t) here in
        Ensures-cases (a == 0)
          (λ _.
            returns (
              tidy,
              (u, here, inl ((tidy.ordered.sound i u here).hollow empty.state)),
              λ j ne. refl,
            ))
          λ some_memory.
            let new = fresh (ground (arith, some_memory)) in
            returns (
              record {
                ordered =
                    rw (slots_of, e)
                      (filled-Ordered env look os power i n a u s tidy here empty.state whole new);
                table =
                    rw (slots_of, e)
                      (filled-Table env look os power i n a u s tidy here empty.state whole new);
              },
              (
                filled env look os power a n u,
                rw (slots_of, e)
                    (get_elem?-set_self s.slots i (filled env look os power a n u)
                      (lt_of_get_elem? s.slots i here)),
                inr (refl, large),
              ),
              λ j ne.
                  rw (slots_of, e)
                    (get_elem?-set_ne s.slots (filled env look os power a n u) (λ h. ne (sym h))),
            )

    size-bound : r.user_size ≤ needed
    size-bound = by_size suits.sized
      where
        by_size :
            ((r.user_size ≡ 0) × (needed ≡ env.page_size))
              ⊎ (Fits env.page_size alignment r.user_size
                  × (needed ≡ internal_size env.page_size alignment r.user_size))
            → r.user_size ≤ needed
        by_size (inl (z, e)) = omega (arith, z)
        by_size (inr (f, e)) =
            let big : IsSized env.page_size alignment r.user_size needed =
              rw e (internal_size-IsSized f) in
            omega (arith, big.holds)

    IsFilled-IsChosen :
        (i j : ℕ) (s t : State W)
        → IsEmptyAt env look os power j s
        → i ≢ j
        → IsFilled i s t
        → Tidy look env.page_size t × Chosen i (some j) t
    unfolding IsFilled
    IsFilled-IsChosen i j s t spare ne (tidy, (u, here, usable), others) = (
      tidy,
      record {
        slot = u;
        here = here;
        usable = usable;
        spares = λ e h.
            let same : j ≡ e = ground (arith, h) in
            (spare.slot, rw (← same) (others j (λ k. ne (sym k)) ∙ spare.here), spare.state);
      },
    )

    with_count :
        (i j count b : ℕ) (s t : State W)
        → count ≡ 1
        → IsEmptyAt env look os power i s
        → IsEmptyAt env look os power j s
        → i ≢ j
        → IsObtained env look os power (chunk_size env needed) s b t
        → Ensures
            (λ _ u. Tidy look env.page_size u × Chosen i (some j) u)
            (take_chunk env i (chunk_size env needed) count b t)
    with_count i j count b s t one at_i at_j ne o =
        let (whole, large, small) = chunk-bounds in
        rw one (
          Ensures-weaken
            (take_chunk-IsFilled i (chunk_size env needed) b t o.tidy
              (keep_empty env look os power i s t o.keeps at_i) whole large small o.fresh)
            λ _ u filled_in.
              IsFilled-IsChosen i j t u (keep_empty env look os power j s t o.keeps at_j) ne
                filled_in)

    get_chunk :
        (count a : ℕ) (b b' : Bool) (s t : State W)
        → count ≡ 1
        → IsObtained env look os power (chunk_size env needed) s a t
        → Ensures
            (IsObtained env look os power (chunk_size env needed) s)
            (obtain env (chunk_size env needed) count b b' a t)
    get_chunk count a b b' s t one o = rw one (
        obtain-IsObtained env look os power (chunk_size env needed) chunk-bounds.2 chunk-bounds.0 b
          b' a s t o)

    pub create_chunk-IsChosen :
        (i j : ℕ) (b : Bool) (s : State W)
        → Tidy look env.page_size s
        → IsEmptyAt env look os power i s
        → IsEmptyAt env look os power j s
        → i ≢ j
        → Ensures
            (λ _ t. Tidy look env.page_size t × Chosen i (some j) t)
            (create_chunk env needed r.user_size b i s)
    unfolding create_chunk
    create_chunk-IsChosen i j b s tidy at_i at_j ne =
        let (whole, large, small) = chunk-bounds in
        let positive = (IsPower-bounds power).0 in
        let page_fits = (whole_pages env look os power r alignment needed suits).1 in
        Ensures-bind (stay_below_limit-Tidy env look os power _ s tidy) λ _ s1 (tidy1, keep).
          Ensures-bind
            (first_try-IsObtained env look os power (chunk_size env needed) small whole r.user_size
              s1 tidy1 (omega (arith, size-bound)) (omega arith))
            λ (count, a) s2 (one, o).
              Ensures-bind (get_chunk count a b s2.settings.malloc_failexit s1 s2 one o) λ c s3 o'.
                with_count i j count c s1 s3 one (keep_empty env look os power i s s1 keep at_i)
                  (keep_empty env look os power j s s1 keep at_j) ne o'
