-- ===== src/Allocator/Fence/Placing.antt =====
-- The placement of a buffer in its region, with the protection of its pages.
use duma.Prelude.{◌⊎◌, ◌∙◌, ℕ, ◌+◌, ◌-◌, ◌%◌, ◌≤◌, ◌<◌, ◌≡◌, arith, inl, inr, true, false, ◌==◌}
use native.Mathlib.Nat.{mod_self}
use duma.Words.Defs.{word, add64, sub64}
use duma.Words.{IsPower-bounds, multiple_add, multiple_sub}
use duma.Layout.{Placement, internal_size, place_above, place_below, live_size_below}
use duma.Layout.Size.{Fits, IsSized, internal_size-IsSized}
use duma.Layout.Above.{IsAbove, place_above-IsAbove}
use duma.Layout.Below.{IsBelow, place_below-IsBelow, place_below-IsStart}
use duma.Machine.Env.{Env, Access, denied, granted, prot_none, read_write, IsOs}
use duma.Machine.State.{State}
use duma.Machine.Monad.{M, Ensures, returns, Ensures-bind, Ensures-branches, pure, ◌>>◌}
use duma.Machine.Paging.{page_allow_access, page_deny_access}
use duma.Allocator.Request.{Request}
use duma.Allocator.Region.{place}
use duma.Allocator.Fence.Protection.{
  WorldOnly, WorldOnly-trans, Stays, HasAccess-Stays, page_allow_access-HasAccess,
  page_deny_access-HasAccess,
}

module _ {W : Type 0} (env : Env W) (look : W → ℕ → Access) (os : IsOs env look) (r : Request)
    (alignment needed a : ℕ) (f : Fits env.page_size alignment r.user_size)
    (sized : needed ≡ internal_size env.page_size alignment r.user_size)
    (start : a % env.page_size ≡ 0) (room : a + needed + env.page_size + alignment ≤ word) where
  big_enough : IsSized env.page_size alignment r.user_size needed
  big_enough = rw sized (internal_size-IsSized f)

  page_pos : 0 < env.page_size
  page_pos = (IsPower-bounds f.page_power).0

  -- The pages beside the region are as before.
  abbrev pub Elsewhere : State W → State W → Type 0
  Elsewhere s t = (x : ℕ) → (x < a) ⊎ (a + needed ≤ x) → look t.world x ≡ look s.world x

  -- What the placement has done to the pages of the region.
  pub data IsPlaced (s : State W) (p : Placement) (t : State W) : Type 0 where
    dead_above :
        r.protect_below ≡ false
        → ((x : ℕ) → p.user ≤ x → x < p.user + r.user_size → look t.world x ≡ granted)
        → ((x : ℕ) → p.prot ≤ x → x < a + needed → look t.world x ≡ denied)
        → IsAbove env.page_size alignment r.user_size needed a p
        → Elsewhere s t
        → Stays env look os s t
        → WorldOnly s t
        → IsPlaced s p t
    dead_below :
        r.protect_below ≡ true
        → ((x : ℕ) → p.user ≤ x → x < p.user + r.user_size → look t.world x ≡ granted)
        → ((x : ℕ) → a ≤ x → x < p.user → look t.world x ≡ denied)
        → IsBelow env.page_size alignment r.user_size needed a p
        → (alignment ≤ env.page_size → Elsewhere s t)
        → Stays env look os s t
        → WorldOnly s t
        → IsPlaced s p t

  above_pages : Placement → M W Placement
  unfolding page_allow_access page_deny_access
  above_pages p = do
    page_allow_access env a (sub64 p.prot a)
    page_deny_access env p.prot (sub64 (add64 a needed) p.prot)
    pure p

  before_or_behind :
      (p : Placement) (x : ℕ)
      → IsAbove env.page_size alignment r.user_size needed a p
      → (x < a) ⊎ (a + needed ≤ x)
      → (x < p.prot) ⊎ (p.prot + sub64 (add64 a needed) p.prot ≤ x)
  before_or_behind p x g (inl lt) = inl (omega (arith, g.inside, g.guard_behind))
  before_or_behind p x g (inr ge) = inr (omega (arith, room, g.guard_page))

  beside_front :
      (p : Placement) (x : ℕ)
      → IsAbove env.page_size alignment r.user_size needed a p
      → (x < a) ⊎ (a + needed ≤ x)
      → (x < a) ⊎ (a + sub64 p.prot a ≤ x)
  beside_front p x g (inl lt) = inl lt
  beside_front p x g (inr ge) = inr (omega (arith, room, g.guard_page, g.inside, g.guard_behind))

  above_pages-IsPlaced :
      (p : Placement) (s : State W)
      → r.protect_below ≡ false
      → IsAbove env.page_size alignment r.user_size needed a p
      → Ensures (IsPlaced s) (above_pages p s)
  unfolding above_pages
  above_pages-IsPlaced p s e g =
      let front : sub64 p.prot a ≡ p.prot - a =
        omega (arith, room, g.guard_page, g.inside, g.guard_behind) in
      let back : sub64 (add64 a needed) p.prot ≡ a + needed - p.prot =
        omega (arith, room, g.guard_page) in
      let region_end = multiple_add env.page_size a needed page_pos start big_enough.whole in
      let whole =
        multiple_sub env.page_size (a + needed) p.prot page_pos region_end g.guard_whole
          (omega (arith, g.guard_page)) in
      let front_whole =
        multiple_sub env.page_size p.prot a page_pos g.guard_whole start
          (omega (arith, g.inside, g.guard_behind)) in
      Ensures-bind (page_allow_access-HasAccess env look os a (sub64 p.prot a) s) λ _ t1 q1.
        Ensures-bind
          (page_deny_access-HasAccess env look os p.prot (sub64 (add64 a needed) p.prot) t1)
          λ _ t2 q2. returns {a = p} (
            dead_above e
              (λ x lo hi.
                q2.outside g.guard_whole (rw back whole) x (inl (omega (arith, g.guard_behind)))
                ∙ q1.inside x (omega (arith, g.inside))
                    (omega (arith, front, g.guard_behind, g.inside)))
              (λ x lo hi. q2.inside x lo (omega (arith, back))) g
              (λ x out.
                q2.outside g.guard_whole (rw back whole) x (before_or_behind p x g out)
                ∙ q1.outside start (rw front front_whole) x (beside_front p x g out))
              (λ x m.
                HasAccess-Stays env look os prot_none p.prot _ t1 t2 g.guard_whole (rw back whole)
                  q2 x
                  (HasAccess-Stays env look os read_write a _ s t1 start (rw front front_whole) q1 x
                    m))
              (WorldOnly-trans s t1 t2 q1.rest q2.rest))

  below_pages : Placement → M W Placement
  unfolding page_allow_access page_deny_access live_size_below
  below_pages p = do
    page_allow_access env p.user (live_size_below needed p)
    page_deny_access env a (sub64 p.user a)
    pure p

  beside_page :
      (p : Placement) (x : ℕ)
      → IsBelow env.page_size alignment r.user_size needed a p
      → (x < a) ⊎ (a + needed ≤ x)
      → (x < a) ⊎ (a + sub64 p.user a ≤ x)
  beside_page p x g (inl lt) = inl lt
  beside_page p x g (inr ge) = inr (omega (arith, room, g.guard_page, g.inside, g.fits))

  beside_rest :
      (p : Placement) (x : ℕ)
      → IsBelow env.page_size alignment r.user_size needed a p
      → p.user ≡ a + env.page_size
      → (x < a) ⊎ (a + needed ≤ x)
      → (x < p.user) ⊎ (p.user + live_size_below needed p ≤ x)
  unfolding live_size_below
  beside_rest p x g first (inl lt) = inl (omega arith)
  beside_rest p x g first (inr ge) =
      inr (omega (arith, room, g.guard_page, g.inside, g.fits, big_enough))

  below_pages-IsPlaced :
      (p : Placement) (s : State W)
      → r.protect_below ≡ true
      → IsBelow env.page_size alignment r.user_size needed a p
      → (alignment ≤ env.page_size → p.user ≡ a + env.page_size)
      → Ensures (IsPlaced s) (below_pages p s)
  unfolding below_pages live_size_below
  below_pages-IsPlaced p s e g first =
      let live : live_size_below needed p ≡ needed - env.page_size =
        omega (arith, room, g.guard_page, g.inside, g.fits, big_enough) in
      let front : sub64 p.user a ≡ p.user - a =
        omega (arith, room, g.guard_page, g.inside, g.fits) in
      let user_whole : p.user % env.page_size ≡ 0 = rw (← g.guard_page) (
        multiple_add env.page_size p.prot env.page_size page_pos g.guard_whole
          (mod_self env.page_size)) in
      let whole =
        multiple_sub env.page_size p.user a page_pos user_whole start
          (omega (arith, g.guard_page, g.inside)) in
      let live_whole =
        multiple_sub env.page_size needed env.page_size page_pos big_enough.whole
          (mod_self env.page_size) (omega (arith, big_enough.holds)) in
      Ensures-bind (page_allow_access-HasAccess env look os p.user (live_size_below needed p) s)
        λ _ t1 q1.
          Ensures-bind (page_deny_access-HasAccess env look os a (sub64 p.user a) t1) λ _ t2 q2.
            returns {a = p} (
              dead_below e
                (λ x lo hi.
                  q2.outside start (rw front whole) x
                    (inr (omega (arith, front, g.inside, g.guard_page)))
                  ∙ q1.inside x lo (omega (arith, live, big_enough.holds)))
                (λ x lo hi. q2.inside x lo (omega (arith, front))) g
                (λ small x out.
                  q2.outside start (rw front whole) x (beside_page p x g out)
                  ∙ q1.outside user_whole (rw live live_whole) x
                      (beside_rest p x g (first small) out))
                (λ x m.
                  HasAccess-Stays env look os prot_none a _ t1 t2 start (rw front whole) q2 x (
                    HasAccess-Stays env look os read_write p.user _ s t1 user_whole
                      (rw live live_whole) q1 x m))
                (WorldOnly-trans s t1 t2 q1.rest q2.rest))

  -- On a system that keeps the documented laws of its calls, in a region at a page that is as large as
  -- `internalSize` demands and ends below the top of memory: whenever the placement of a buffer with
  -- bytes returns, each byte of the buffer can be used, the pages from the protected address to the end
  -- of the region, or with DUMA_PROTECT_BELOW those from its start to the buffer, cannot, the addresses
  -- are those of the layout, nothing is unmapped, and nothing but the address space has changed, there
  -- only the region, with DUMA_PROTECT_BELOW where the alignment is a page's at most.
  pub place-IsPlaced : (s : State W) → Ensures (IsPlaced s) (place env r alignment needed a s)
  unfolding place above_pages below_pages
  place-IsPlaced s =
      Ensures-branches _ _ (r.user_size == 0) (λ z. absurd (ground (arith, f.positive)))
        λ _.
          Ensures-branches (below_pages (place_below env.page_size alignment a))
            (above_pages (place_above env.page_size alignment needed a r.user_size)) r.protect_below
            (λ e.
              below_pages-IsPlaced _ s e (place_below-IsBelow a f sized start room)
                (place_below-IsStart a f sized start room).first)
            λ e.
              above_pages-IsPlaced _ s e
                (place_above-IsAbove a f sized start (omega (arith, page_pos)))
