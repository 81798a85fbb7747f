-- ===== src/Allocator/Fence/Reducing.antt =====
-- A table before and behind a loop that gives regions back, in the address space.
use duma.Prelude.{ap, ◌∙◌, ℕ, zero, suc, ◌<◌, ◌≡◌, refl, arith, some, List, ◌∷◌, get_elem?}
use native.Mathlib.Nat.{zero-mod}
use duma.Words.{IsPower, IsPower-bounds}
use duma.Slots.Types.{Slot}
use duma.Machine.Env.{Env, Access, IsOs}
use duma.Machine.State.{State}
use duma.Allocator.Update.{emptied}
use duma.Allocator.Reduce.Spared.{IsProtected}
use duma.Allocator.Fence.{no_user, Inside, IsSound, IsSound-move, Ordered}
use duma.Allocator.Fence.Protection.{WorldOnly, WorldOnly-trans}

pub emptied-IsSound :
    {W : Type 0} (look : W → ℕ → Access) (page : ℕ) (w : W) (u : Slot)
    → IsSound look page w (emptied u)
emptied-IsSound look page w u = record {
  regular = record { aligned = zero-mod page; whole = zero-mod page; low = omega arith };
  mapped = λ x i. absurd (omega arith);
  hollow = λ _. refl;
  plain = λ _. refl;
  holds = λ h. absurd (ground (arith, h));
  user = no_user refl;
  fence = λ b. absurd (ground (arith, b));
  dead = λ p x i. absurd (omega arith);
}

module _ {W : Type 0} (env : Env W) (look : W → ℕ → Access) (os : IsOs env look)
    (power : IsPower env.page_size) where
  page_pos : 0 < env.page_size
  page_pos = (IsPower-bounds power).0

  -- A part of the table before and behind a loop.
  pub record IsReduced (s t : State W) (us vs : List Slot) : Type 0 where
    pub ordered : Ordered look env.page_size t.world vs
    pub part :
        (i : ℕ) (v : Slot)
        → get_elem? vs i ≡ some v
        → (u : Slot) × (get_elem? us i ≡ some u) × ((x : ℕ) → Inside v x → Inside u x)
    pub elsewhere :
        (x : ℕ)
        → ((i : ℕ) (u : Slot) → get_elem? us i ≡ some u → Inside u x → ⊥)
        → look t.world x ≡ look s.world x
    pub kept :
        (i : ℕ) (u : Slot) → get_elem? us i ≡ some u → (IsProtected u → ⊥) → get_elem? vs i ≡ some u
    pub rest : WorldOnly s t

  pub IsReduced-refl :
      (s : State W) (us : List Slot) → Ordered look env.page_size s.world us → IsReduced s s us us
  IsReduced-refl s us o = record {
    ordered = o;
    part = λ i v h. (v, h, λ x in1. in1);
    elsewhere = λ x out. refl;
    kept = λ i u h st. h;
    rest = refl;
  }

  -- What happens to one slot.
  pub record IsCut (u v : Slot) (s t : State W) : Type 0 where
    pub part : (x : ℕ) → Inside v x → Inside u x
    pub elsewhere : (x : ℕ) → (Inside u x → ⊥) → look t.world x ≡ look s.world x
    pub sound : IsSound look env.page_size t.world v
    pub kept : (IsProtected u → ⊥) → v ≡ u
    pub rest : WorldOnly s t

  pub tail-Ordered :
      (w w' : W) (u : Slot) (us : List Slot)
      → Ordered look env.page_size w (u ∷ us)
      → ((x : ℕ) → (Inside u x → ⊥) → look w' x ≡ look w x)
      → Ordered look env.page_size w' us
  tail-Ordered w w' u us o same = record {
    sound = λ i v h.
        IsSound-move look env.page_size w w' v
          (λ x in1.
            same x (λ in2. let e = o.apart zero (suc i) u v x refl h in2 in1 in omega arith))
          (o.sound (suc i) v h);
    apart = λ i j v v' x h h' in1 in2.
        let e = o.apart (suc i) (suc j) v v' x h h' in1 in2 in omega arith;
  }

  module _ (u v : Slot) (us vs : List Slot) (s t1 t2 : State W)
      (o : Ordered look env.page_size s.world (u ∷ us)) (cut : IsCut u v s t1)
      (rest : IsReduced t1 t2 us vs) where
    not_in_tail :
        (x : ℕ) → Inside u x → (i : ℕ) (y : Slot) → get_elem? us i ≡ some y → Inside y x → ⊥
    not_in_tail x in1 i y h in2 = let e = o.apart zero (suc i) u y x refl h in1 in2 in omega arith

    IsSound-at :
        (i : ℕ) (y : Slot) → get_elem? (v ∷ vs) i ≡ some y → IsSound look env.page_size t2.world y
    IsSound-at zero y h =
        let e : v ≡ y = ground (arith, h) in
        rw (← e) (
          IsSound-move look env.page_size t1.world t2.world v
            (λ x in1. rest.elsewhere x (not_in_tail x (cut.part x in1))) cut.sound)
    IsSound-at (suc i) y h = rest.ordered.sound i y h

    head_apart : (i : ℕ) (z : Slot) (x : ℕ) → get_elem? vs i ≡ some z → Inside v x → Inside z x → ⊥
    head_apart i z x h in1 in2 =
        let (y, h', inside) = rest.part i z h in
        not_in_tail x (cut.part x in1) i y h' (inside x in2)

    apart_at :
        (i j : ℕ) (y z : Slot) (x : ℕ)
        → get_elem? (v ∷ vs) i ≡ some y
        → get_elem? (v ∷ vs) j ≡ some z
        → Inside y x
        → Inside z x
        → i ≡ j
    apart_at zero zero y z x h h' in1 in2 = refl
    apart_at zero (suc j) y z x h h' in1 in2 =
        let e : y ≡ v = ground (arith, h) in absurd (head_apart j z x h' (rw e at in1) in2)
    apart_at (suc i) zero y z x h h' in1 in2 =
        let e : z ≡ v = ground (arith, h') in absurd (head_apart i y x h (rw e at in2) in1)
    apart_at (suc i) (suc j) y z x h h' in1 in2 = ap suc (rest.ordered.apart i j y z x h h' in1 in2)

    part_at :
        (i : ℕ) (y : Slot)
        → get_elem? (v ∷ vs) i ≡ some y
        → (z : Slot) × (get_elem? (u ∷ us) i ≡ some z) × ((x : ℕ) → Inside y x → Inside z x)
    part_at zero y h =
        let e : v ≡ y = ground (arith, h) in (u, refl, λ x in1. cut.part x (rw (← e) at in1))
    part_at (suc i) y h = rest.part i y h

    kept_at :
        (i : ℕ) (y : Slot)
        → get_elem? (u ∷ us) i ≡ some y
        → (IsProtected y → ⊥)
        → get_elem? (v ∷ vs) i ≡ some y
    kept_at zero y h st = let e : u ≡ y = ground (arith, h) in ap some (cut.kept (rw e st)) ∙ h
    kept_at (suc i) y h st = rest.kept i y h st

    pub cons-IsReduced : IsReduced s t2 (u ∷ us) (v ∷ vs)
    cons-IsReduced = record {
      ordered = record { sound = IsSound-at; apart = apart_at };
      part = part_at;
      elsewhere =
          λ x out. rest.elsewhere x (λ i y h. out (suc i) y h) ∙ cut.elsewhere x (out zero u refl);
      kept = kept_at;
      rest = WorldOnly-trans s t1 t2 cut.rest rest.rest;
    }
