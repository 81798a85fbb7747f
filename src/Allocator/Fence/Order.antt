-- ===== src/Allocator/Fence/Order.antt =====
-- Changes of single slots in an ordered table.
use duma.Prelude.{
  sym, ap, ◌∙◌, ℕ, zero, suc, ◌≡◌, ◌≢◌, refl, some, List, [], ◌∷◌, get_elem?, set, arith,
}
use duma.Slots.Types.{Slot}
use duma.Machine.Env.{Access}
use duma.Allocator.Fence.{Inside, IsSound, IsSound-move, Ordered}

-- What stands at a place behind a write.
pub data Written (us : List Slot) (i : ℕ) (v : Slot) (j : ℕ) (y : Slot) : Type 0 where
  new : j ≡ i → y ≡ v → Written us i v j y
  old : j ≢ i → get_elem? us j ≡ some y → Written us i v j y

pub get-set :
    (us : List Slot) (i j : ℕ) (v y : Slot) → get_elem? (set us i v) j ≡ some y → Written us i v j y
get-set [] i j v y e = absurd (ground (arith, e))
get-set (x ∷ xs) zero zero v y e = new refl (ground (arith, e))
get-set (x ∷ xs) zero (suc j) v y e = old (λ h. omega arith) e
get-set (x ∷ xs) (suc i) zero v y e = old (λ h. omega arith) e
get-set (x ∷ xs) (suc i) (suc j) v y e = later (get-set xs i j v y e)
  where
    later : Written xs i v j y → Written (x ∷ xs) (suc i) v (suc j) y
    later (new a b) = new (ap suc a) b
    later (old a b) = old (λ h. a (omega arith)) b

module _ {W : Type 0} (look : W → ℕ → Access) (page : ℕ) where
  -- A slot takes over a part of its own region, and the pages elsewhere stay as they are.
  pub replace-Ordered :
      (w w' : W) (us : List Slot) (i : ℕ) (u v : Slot)
      → Ordered look page w us
      → get_elem? us i ≡ some u
      → ((x : ℕ) → Inside v x → Inside u x)
      → ((x : ℕ) → (Inside u x → ⊥) → look w' x ≡ look w x)
      → IsSound look page w' v
      → Ordered look page w' (set us i v)
  replace-Ordered w w' us i u v o here part same fresh = record {
    sound = λ j y e. sound_at j y (get-set us i j v y e);
    apart = λ j k y z x e e' in1 in2.
        apart_at j k y z x (get-set us i j v y e) (get-set us i k v z e') in1 in2;
  }
    where
      sound_at : (j : ℕ) (y : Slot) → Written us i v j y → IsSound look page w' y
      sound_at j y (new a b) = rw b fresh
      sound_at j y (old a b) =
          IsSound-move look page w w' y
            (λ x in1. same x (λ in2. a (o.apart j i y u x b here in1 in2))) (o.sound j y b)

      apart_at :
          (j k : ℕ) (y z : Slot) (x : ℕ)
          → Written us i v j y
          → Written us i v k z
          → Inside y x
          → Inside z x
          → j ≡ k
      apart_at j k y z x (new a b) (new a' b') in1 in2 = a ∙ sym a'
      apart_at j k y z x (new a b) (old a' b') in1 in2 =
          absurd (a' (o.apart k i z u x b' here in2 (part x (rw b at in1))))
      apart_at j k y z x (old a b) (new a' b') in1 in2 =
          absurd (a (o.apart j i y u x b here in1 (part x (rw b' at in2))))
      apart_at j k y z x (old a b) (old a' b') in1 in2 = o.apart j k y z x b b' in1 in2

  -- A slot takes a region that no other slot has, and the regions of the others stay as they are.
  pub take-Ordered :
      (w w' : W) (us : List Slot) (i : ℕ) (v : Slot)
      → Ordered look page w us
      → ((j : ℕ) (y : Slot) (x : ℕ) → get_elem? us j ≡ some y → j ≢ i → Inside y x → Inside v x → ⊥)
      → ((j : ℕ) (y : Slot) (x : ℕ)
          → get_elem? us j ≡ some y
          → j ≢ i
          → Inside y x
          → look w' x ≡ look w x)
      → IsSound look page w' v
      → Ordered look page w' (set us i v)
  take-Ordered w w' us i v o clear same fresh = record {
    sound = λ j y e. IsSound-at j y (get-set us i j v y e);
    apart = λ j k y z x e e' in1 in2.
        apart_at j k y z x (get-set us i j v y e) (get-set us i k v z e') in1 in2;
  }
    where
      IsSound-at : (j : ℕ) (y : Slot) → Written us i v j y → IsSound look page w' y
      IsSound-at j y (new a b) = rw b fresh
      IsSound-at j y (old a b) =
          IsSound-move look page w w' y (λ x in1. same j y x b a in1) (o.sound j y b)

      apart_at :
          (j k : ℕ) (y z : Slot) (x : ℕ)
          → Written us i v j y
          → Written us i v k z
          → Inside y x
          → Inside z x
          → j ≡ k
      apart_at j k y z x (new a b) (new a' b') in1 in2 = a ∙ sym a'
      apart_at j k y z x (new a b) (old a' b') in1 in2 =
          absurd (clear k z x b' a' in2 (rw b at in1))
      apart_at j k y z x (old a b) (new a' b') in1 in2 = absurd (clear j y x b a in1 (rw b' at in2))
      apart_at j k y z x (old a b) (old a' b') in1 in2 = o.apart j k y z x b b' in1 in2
