-- ===== src/Allocator/Fence/Splitting.antt =====
-- A free region is split: the first part is for a buffer, the rest stays free in an empty slot.
use duma.Prelude.{
  inl, inr, sym, ap, ◌∙◌, ℕ, zero, suc, ◌+◌, ◌-◌, ◌%◌, ◌≤◌, ◌<◌, ◌≡◌, ◌≢◌, arith, refl, some, List,
  [], ◌∷◌, get_elem?, set,
}
use duma.Words.Defs.{add64, sub64}
use duma.Words.{IsPower, IsPower-bounds, multiple_add, multiple_sub}
use duma.Slots.Types.{SlotState, Slot}
use duma.Machine.Env.{Env, Access}
use duma.Allocator.Update.{update_slot}
use duma.Allocator.Fence.{HasUser, no_user, at_start, held, Inside, IsSound, Ordered}
use duma.Allocator.Fence.Order.{Written, new, old, get-set, replace-Ordered, take-Ordered}

pub update_slot_lem :
    (us : List Slot) (i : ℕ) (u : Slot) (f : Slot → Slot)
    → get_elem? us i ≡ some u
    → update_slot i f us ≡ set us i (f u)
unfolding update_slot
update_slot_lem us i u f e = rw (update_slot, e) refl

set-set_ne :
    (us : List Slot) (i j : ℕ) (u v : Slot) → i ≢ j → set (set us j v) i u ≡ set (set us i u) j v
set-set_ne [] i j u v ne = refl
set-set_ne (x ∷ us) zero zero u v ne = absurd (ne refl)
set-set_ne (x ∷ us) zero (suc j) u v ne = refl
set-set_ne (x ∷ us) (suc i) zero u v ne = refl
set-set_ne (x ∷ us) (suc i) (suc j) u v ne =
    ap (λ ws. x ∷ ws) (set-set_ne us i j u v (λ e. ne (ap suc e)))

-- The two parts of a region.
abbrev pub front : ℕ → Slot → Slot
front needed u = record u { internal_size = needed }

abbrev pub back : ℕ → Slot → Slot
back needed u = record u {
  internal_address = add64 u.internal_address needed;
  internal_size = sub64 u.internal_size needed;
  user_address = add64 u.internal_address needed;
  user_size = sub64 u.internal_size needed;
}

module _ {W : Type 0} (env : Env W) (look : W → ℕ → Access) (power : IsPower env.page_size)
    (needed : ℕ) (whole : needed % env.page_size ≡ 0) (positive : 0 < needed) where
  page_pos : 0 < env.page_size
  page_pos = (IsPower-bounds power).0

  module _ (w : W) (u : Slot) (sound : IsSound look env.page_size w u)
      (st : u.state ≡ SlotState.free) (larger : needed < u.internal_size) where
    large : needed ≤ u.internal_size
    large = omega arith

    starts : add64 u.internal_address needed ≡ u.internal_address + needed
    starts = omega (arith, sound.regular.low)

    size_of : sub64 u.internal_size needed ≡ u.internal_size - needed
    size_of = omega (arith, sound.regular.low)

    front-Inside : (x : ℕ) → Inside (front needed u) x → Inside u x
    front-Inside x (lo, hi) = (lo, omega arith)

    back-Inside : (x : ℕ) → Inside (back needed u) x → Inside u x
    back-Inside x (lo, hi) = (omega (arith, starts), omega (arith, starts, size_of))

    front_user : (v : Slot) → HasUser v → v.state ≡ SlotState.free → HasUser (front needed v)
    front_user v (no_user e) h = no_user e
    front_user v (at_start e pos) h = at_start e positive
    front_user v (held (inl p)) h = absurd (ground (arith, p, h))
    front_user v (held (inr (inl p))) h = absurd (ground (arith, p, h))
    front_user v (held (inr (inr p))) h = absurd (ground (arith, p, h))

    pub front-IsSound : IsSound look env.page_size w (front needed u)
    front-IsSound = record {
      regular = record {
        aligned = sound.regular.aligned;
        whole = whole;
        low = omega (arith, sound.regular.low);
      };
      mapped = λ x i. sound.mapped x (front-Inside x i);
      hollow = λ h. absurd (ground (arith, h, st));
      plain = sound.plain;
      holds = λ h. ground (arith, h, st);
      user = front_user u sound.user st;
      fence = λ b. absurd (ground (arith, b, st));
      dead = λ h. ground (arith, h, st);
    }

    back-IsSound : IsSound look env.page_size w (back needed u)
    back-IsSound = record {
      regular = record {
        aligned = rw starts (
            multiple_add env.page_size u.internal_address needed page_pos sound.regular.aligned
              whole);
        whole = rw size_of (
            multiple_sub env.page_size u.internal_size needed page_pos sound.regular.whole whole
              large);
        low = omega (arith, starts, size_of, sound.regular.low);
      };
      mapped = λ x i. sound.mapped x (back-Inside x i);
      hollow = λ h. absurd (ground (arith, h, st));
      plain = sound.plain;
      holds = λ h. ground (arith, h, st);
      user = at_start refl (omega (arith, size_of));
      fence = λ b. absurd (ground (arith, b, st));
      dead = λ h. ground (arith, h, st);
    }

    module _ (us : List Slot) (i e : ℕ) (v : Slot) (o : Ordered look env.page_size w us)
        (here : get_elem? us i ≡ some u) (spare : get_elem? us e ≡ some v)
        (idle : v.state ≡ SlotState.empty) where
      pub distinct : i ≢ e
      distinct same = clash u v (sym here ∙ ap (get_elem? us) same ∙ spare) st idle
        where
          clash :
              (x y : Slot)
              → some x ≡ some y
              → x.state ≡ SlotState.free
              → y.state ≡ SlotState.empty
              → ⊥
          clash x y p q r = ground (arith, p, q, r)

      pub split-Ordered :
          Ordered look env.page_size w (set (set us e (back needed u)) i (front needed u))
      split-Ordered =
          let o1 =
            replace-Ordered look env.page_size w w us i u (front needed u) o here front-Inside
              (λ x out. refl) front-IsSound in
          let swap = set-set_ne us i e (front needed u) (back needed u) distinct in
          rw swap (
            take-Ordered look env.page_size w w (set us i (front needed u)) e (back needed u) o1
              (λ j y x h ne in1 in2. clear j y x (get-set us i j (front needed u) y h) in1 in2)
              (λ j y x h ne in1. refl) back-IsSound)
        where
          clear :
              (j : ℕ) (y : Slot) (x : ℕ)
              → Written us i (front needed u) j y
              → Inside y x
              → Inside (back needed u) x
              → ⊥
          clear j y x (new a b) in1 in2 = omega (arith, (rw b at in1).1, in2.0, starts)
          clear j y x (old a b) in1 in2 = a (o.apart j i y u x b here in1 (back-Inside x in2))
