-- ===== src/Allocator/Fence/Occupying.antt =====
-- A free region becomes a buffer, in the address space.
use duma.Prelude.{
  false, refl, ℕ, ◌+◌, ◌/◌, ◌%◌, ◌^◌, ◌≤◌, ◌<◌, ◌≡◌, ◌⊎◌, inl, inr, arith, true, ◌==◌,
}
use native.Mathlib.Nat.{mod_self}
use native.Mathlib.Decide.{dec_lt}
use duma.Words.Defs.{word, add64, sub64}
use duma.Words.{IsPower, IsPower-bounds}
use duma.Layout.{Placement, internal_size}
use duma.Layout.Size.{Fits, IsSized, internal_size-IsSized}
use duma.Slots.Types.{Slot}
use duma.Machine.Env.{Env, Access, prot_none, IsOs}
use duma.Machine.State.{State}
use duma.Machine.Monad.{Ensures, returns, Ensures-bind, Ensures-weaken, Ensures-branches}
use duma.Allocator.Request.{Request}
use duma.Allocator.Region.{place, occupied}
use duma.Allocator.Fence.{held, above, below, no_bytes, IsFenced, Inside, IsSound}
use duma.Allocator.Fence.Protection.{WorldOnly, Stays, HasAccess-Stays, page_deny_access-HasAccess}
use duma.Allocator.Fence.Placing.{dead_above, dead_below, IsPlaced, place-IsPlaced}

-- A region's size and an alignment that suit a request: a page for no bytes, else what `internalSize`
-- demands, less than 2^31 in all; with DUMA_PROTECT_BELOW the alignment is a page's at most.
pub record Suits (page : ℕ) (r : Request) (alignment needed : ℕ) : Type 0 where
  pub sized :
      ((r.user_size ≡ 0) × (needed ≡ page))
      ⊎ (Fits page alignment r.user_size × (needed ≡ internal_size page alignment r.user_size))
  pub small : needed + page + alignment < 2 ^ 31
  pub low : r.protect_below ≡ true → alignment ≤ page

module _ {W : Type 0} (env : Env W) (look : W → ℕ → Access) (os : IsOs env look)
    (power : IsPower env.page_size) (r : Request) (alignment needed : ℕ)
    (suits : Suits env.page_size r alignment needed) where
  pub whole_pages : (needed % env.page_size ≡ 0) × (env.page_size ≤ needed)
  whole_pages = by_size suits.sized
    where
      by_size :
          ((r.user_size ≡ 0) × (needed ≡ env.page_size))
            ⊎ (Fits env.page_size alignment r.user_size
                × (needed ≡ internal_size env.page_size alignment r.user_size))
          → (needed % env.page_size ≡ 0) × (env.page_size ≤ needed)
      by_size (inl (z, e)) = (rw e (mod_self env.page_size), omega arith)
      by_size (inr (f, e)) =
          let big : IsSized env.page_size alignment r.user_size needed =
            rw e (internal_size-IsSized f) in
          (big.whole, omega (arith, big.holds))

  -- A free region of that size and the slot of the buffer in it.
  pub record IsOccupied (t : Slot) (s : State W) (p : Placement) (u : State W) : Type 0 where
    pub sound : IsSound look env.page_size u.world (occupied env r p t)
    pub inside : t.internal_address ≤ p.user
    pub fits : p.user + r.user_size ≤ t.internal_address + needed
    pub high :
        r.protect_below ≡ false
        → 0 < r.user_size
        → t.internal_address + needed < p.user + r.user_size + env.page_size + alignment
    pub elsewhere : (x : ℕ) → (Inside t x → ⊥) → look u.world x ≡ look s.world x
    pub rest : WorldOnly s u

  module _ (t : Slot) (s : State W) (sound : IsSound look env.page_size s.world t)
      (size : t.internal_size ≡ needed) where
    fenced-IsSound :
        (p : Placement) (u : State W)
        → Stays env look os s u
        → t.internal_address ≤ p.user
        → p.user < t.internal_address + needed
        → IsFenced look env.page_size u.world (occupied env r p t)
        → IsSound look env.page_size u.world (occupied env r p t)
    fenced-IsSound p u stays lo hi fence = record {
      regular = record {
        aligned = sound.regular.aligned;
        whole = sound.regular.whole;
        low = sound.regular.low;
      };
      mapped = λ x i. stays x (sound.mapped x i);
      hollow = λ h. absurd (ground (arith, h));
      plain = λ h. absurd (ground (arith, h));
      holds = λ _. (lo, omega arith);
      user = held (inl refl);
      fence = λ _. fence;
      dead = λ h. absurd (ground (arith, h));
    }

    beside :
        (x : ℕ) → (Inside t x → ⊥) → (x < t.internal_address) ⊎ (t.internal_address + needed ≤ x)
    beside x out = elim (dec_lt x t.internal_address) [
      | yes lt ↦ inl lt
      | no ge ↦ elim (dec_lt x (t.internal_address + needed)) [
        | yes lt ↦ absurd (out (omega arith, omega arith))
        | no ge' ↦ inr (omega arith)
      ]
    ]

    placed-IsOccupied :
        (f : Fits env.page_size alignment r.user_size)
        (e : needed ≡ internal_size env.page_size alignment r.user_size)
        (room : t.internal_address + needed + env.page_size + alignment ≤ word) (p : Placement)
        (u : State W)
        → IsPlaced env look os r alignment needed t.internal_address f e sound.regular.aligned room
            s p u
        → IsOccupied t s p u
    placed-IsOccupied f e room p u (dead_above b use_it off g out stays rest) = record {
      sound =
          fenced-IsSound p u stays g.inside
            (omega (arith, g.guard_behind, g.guard_page, f.positive))
            (above (λ x i lo hi. use_it x lo hi) (λ x i lo. off x lo (omega (arith, i.1))) g.inside
              g.guard_behind g.guard_near (omega (arith, g.guard_page)));
      inside = g.inside;
      fits = omega (arith, g.guard_behind, g.guard_page);
      high = λ _ _. g.high;
      elsewhere = λ x o. out x (beside x o);
      rest = rest;
    }
    placed-IsOccupied f e room p u (dead_below b use_it off g out stays rest) = record {
      sound =
          fenced-IsSound p u stays (omega (arith, g.inside, g.guard_page))
            (omega (arith, g.fits, f.positive))
            (below (λ x i lo hi. use_it x lo hi) (λ x i hi. off x i.0 hi)
              (omega (arith, g.inside, g.guard_page)) (omega (arith, g.fits)));
      inside = omega (arith, g.inside, g.guard_page);
      fits = g.fits;
      high = λ b'. absurd (ground (arith, b, b'));
      elsewhere = λ x o. out (suits.low b) x (beside x o);
      rest = rest;
    }

    no_bytes-IsOccupied :
        r.user_size ≡ 0
        → needed ≡ env.page_size
        → Ensures (IsOccupied t s) (place env r alignment needed t.internal_address s)
    unfolding place
    no_bytes-IsOccupied z e =
        let a = t.internal_address in
        let room = sound.regular.low in
        let size_of : sub64 (add64 a needed) a ≡ needed = omega (arith, room, suits.small) in
        let pos = (IsPower-bounds power).0 in
        let middle : add64 a (env.page_size / 2) ≡ a + env.page_size / 2 =
          omega (arith, room, suits.small) in
        let whole : sub64 (add64 a needed) a % env.page_size ≡ 0 = rw size_of whole_pages.0 in
        Ensures-branches _ _ (r.user_size == 0)
          (λ _.
            Ensures-bind (page_deny_access-HasAccess env look os a (sub64 (add64 a needed) a) s)
              λ _ u q. returns (record {
                sound =
                    fenced-IsSound _ u
                      (HasAccess-Stays env look os prot_none a _ s u sound.regular.aligned whole q)
                      (omega (arith, middle)) (omega (arith, middle))
                      (no_bytes z (λ x i. q.inside x i.0 (omega (arith, i.1, size_of))));
                inside = omega (arith, middle);
                fits = omega (arith, middle, z);
                high = λ _ some_size. absurd (omega (arith, z, some_size));
                elsewhere =
                    λ x out. q.outside sound.regular.aligned whole x (beside' x (beside x out));
                rest = q.rest;
              }))
          (λ n. absurd (ground (arith, n, z)))
      where
        beside' :
            (x : ℕ)
            → (x < t.internal_address) ⊎ (t.internal_address + needed ≤ x)
            → (x < t.internal_address)
              ⊎ (t.internal_address + sub64 (add64 t.internal_address needed) t.internal_address
                  ≤ x)
        beside' x (inl lt) = inl lt
        beside' x (inr ge) = inr (omega (arith, sound.regular.low, suits.small))

    pub place-IsOccupied :
        Ensures (IsOccupied t s) (place env r alignment needed t.internal_address s)
    place-IsOccupied = by_size suits.sized
      where
        by_size :
            ((r.user_size ≡ 0) × (needed ≡ env.page_size))
              ⊎ (Fits env.page_size alignment r.user_size
                  × (needed ≡ internal_size env.page_size alignment r.user_size))
            → Ensures (IsOccupied t s) (place env r alignment needed t.internal_address s)
        by_size (inr (f, e)) =
            Ensures-weaken
              (place-IsPlaced env look os r alignment needed t.internal_address f e
                sound.regular.aligned (omega (arith, sound.regular.low, suits.small)) s)
              (placed-IsOccupied f e (omega (arith, sound.regular.low, suits.small)))
        by_size (inl (z, e)) = no_bytes-IsOccupied z e
