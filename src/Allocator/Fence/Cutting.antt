-- ===== src/Allocator/Fence/Cutting.antt =====
-- What `reduceProtectedMemory` does to one region, in the address space.
use duma.Prelude.{refl, sym, ◌∙◌, ℕ, ◌+◌, ◌-◌, ◌%◌, ◌≤◌, ◌<◌, ◌≡◌, inl, inr, arith}
use native.Mathlib.Decide.{dec_lt}
use duma.Words.{
  IsPower, IsPower-bounds, round_down-IsFloor, multiple_gap, multiple_sub, multiple_add, IsFloor,
}
use duma.Words.Defs.{add64, sub64}
use duma.Slots.Types.{SlotState, Slot}
use duma.Machine.Env.{Env, Access, IsOs}
use duma.Machine.State.{State}
use duma.Machine.Monad.{Ensures, returns, Ensures-bind, Ensures-weaken}
use duma.Machine.Paging.{page_delete}
use duma.Allocator.Reduce.{kept_size, shortened, cut_end}
use duma.Allocator.Reduce.Spared.{IsProtected}
use duma.Allocator.Fence.{held, Inside, IsSound}
use duma.Allocator.Fence.Protection.{WorldOnly, page_delete-IsGone}
use duma.Allocator.Fence.Reducing.{IsCut}

module _ {W : Type 0} (env : Env W) (look : W → ℕ → Access) (os : IsOs env look)
    (power : IsPower env.page_size) (n : ℕ) where
  page_pos : 0 < env.page_size
  page_pos = (IsPower-bounds power).0

  abbrev Sound : W → Slot → Type 0
  Sound = IsSound look env.page_size

  abbrev Cut : Slot → Slot → State W → State W → Type 0
  Cut = IsCut env look os power

  -- The kept part ends with the page of the user's address, and is no longer than the region.
  pub kept_size-bounds :
      (w : W) (u : Slot)
      → Sound w u
      → IsProtected u
      → (kept_size env.page_size u % env.page_size ≡ 0)
        × (kept_size env.page_size u ≤ u.internal_size)
        × (u.user_address < u.internal_address + kept_size env.page_size u)
  unfolding kept_size
  kept_size-bounds w u sound p =
      let (lo, hi) = sound.holds (inr p) in
      let low = sound.regular.low in
      let bounds = IsPower-bounds power in
      let e : add64 (sub64 u.user_address u.internal_address) env.page_size
          ≡ u.user_address - u.internal_address + env.page_size =
        omega arith in
      let floor : IsFloor (u.user_address - u.internal_address + env.page_size) env.page_size
          (kept_size env.page_size u) =
        rw (← e) (round_down-IsFloor power _ (omega arith)) in
      let small : kept_size env.page_size u ≤ u.internal_size =
        elim (dec_lt u.internal_size (kept_size env.page_size u)) [
          | yes lt ↦ absurd (
              omega (
                arith,
                multiple_gap env.page_size u.internal_size (kept_size env.page_size u) page_pos
                    sound.regular.whole floor.multiple lt,
                floor.below,
              ))
          | no ge ↦ omega arith
        ] in
      (floor.multiple, small, omega (arith, floor.near))

  shortened-IsSound :
      (w w' : W) (u : Slot)
      → Sound w u
      → IsProtected u
      → ((x : ℕ) → Inside (shortened env.page_size u) x → look w' x ≡ look w x)
      → Sound w' (shortened env.page_size u)
  shortened-IsSound w w' u sound p same =
      let (whole, small, room) = kept_size-bounds w u sound p in
      let inner : (x : ℕ) → Inside (shortened env.page_size u) x → Inside u x =
        λ x (lo, hi). (lo, omega arith) in
      record {
        regular = record {
          aligned = sound.regular.aligned;
          whole = whole;
          low = omega (arith, sound.regular.low, small);
        };
        mapped = λ x i m. sound.mapped x (inner x i) (sym (same x i) ∙ m);
        hollow = λ h. absurd (ground (arith, h));
        plain = λ h. absurd (ground (arith, h));
        holds = λ _. ((sound.holds (inr p)).0, room);
        user = held (inr (inr refl));
        fence = λ b. absurd (ground (arith, b));
        dead = λ _ x i. same x i ∙ sound.dead p x (inner x i);
      }

  -- The end of a region goes.
  pub cut_end-IsCut :
      (u : Slot) (k : ℕ) (s : State W)
      → Sound s.world u
      → u.state ≡ SlotState.all_protected
      → Ensures (λ _ t. Cut u (shortened env.page_size u) s t) (cut_end env n u k s)
  unfolding cut_end
  cut_end-IsCut u k s sound st =
      let (whole, small, room) = kept_size-bounds s.world u sound (inl st) in
      let a = u.internal_address + kept_size env.page_size u in
      let gone : sub64 u.internal_size (kept_size env.page_size u)
          ≡ u.internal_size - kept_size env.page_size u =
        omega (arith, sound.regular.low, small) in
      let al =
        multiple_add env.page_size u.internal_address (kept_size env.page_size u) page_pos
          sound.regular.aligned whole in
      let wh =
        multiple_sub env.page_size u.internal_size (kept_size env.page_size u) page_pos
          sound.regular.whole whole small in
      Ensures-bind
        (page_delete-IsGone env look os a (sub64 u.internal_size (kept_size env.page_size u)) s)
        λ _ t q.
          let inner : (x : ℕ)
              → Inside (shortened env.page_size u) x
              → look t.world x ≡ look s.world x =
            λ x (lo, hi). q.outside al (rw gone wh) x (inl hi) in
          returns (record {
            part = λ x (lo, hi). (lo, omega (arith, small));
            elsewhere = λ x out. elim (dec_lt x u.internal_address) [
              | yes lt ↦ q.outside al (rw gone wh) x (inl (omega arith))
              | no ge ↦ elim (dec_lt x (u.internal_address + u.internal_size)) [
                | yes lt ↦ absurd (out (omega arith, lt))
                | no ge' ↦ q.outside al (rw gone wh) x (inr (omega (arith, gone, small)))
              ]
            ];
            sound = shortened-IsSound s.world t.world u sound (inl st) inner;
            kept = λ idle. absurd (idle (inl st));
            rest = q.rest;
          })

  -- A whole region goes.
  pub delete_whole-IsCut :
      (u : Slot) (s : State W)
      → Sound s.world u
      → Ensures
          (λ _ t. ((x : ℕ) → (Inside u x → ⊥) → look t.world x ≡ look s.world x) × WorldOnly s t)
          (page_delete env u.internal_address u.internal_size s)
  delete_whole-IsCut u s sound =
      Ensures-weaken (page_delete-IsGone env look os u.internal_address u.internal_size s) λ _ t q.
        (
          λ x out. elim (dec_lt x u.internal_address) [
            | yes lt ↦ q.outside sound.regular.aligned sound.regular.whole x (inl lt)
            | no ge ↦ elim (dec_lt x (u.internal_address + u.internal_size)) [
              | yes lt ↦ absurd (out (omega arith, lt))
              | no ge' ↦ q.outside sound.regular.aligned sound.regular.whole x (inr (omega arith))
            ]
          ],
          q.rest,
        )
