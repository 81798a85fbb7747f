-- ===== src/Memory/Laws.antt =====
-- What the byte loops leave in memory.
use duma.Prelude.{
  ℕ, zero, suc, ◌+◌, ◌≤◌, ◌<◌, ◌≡◌, ◌⊎◌, ◌↔◌, refl, true, ◌&&◌, arith, ltb, leb, if◌then◌else◌,
}
use duma.Memory.{Memory, store, fill, all_bytes, copy_up, copy_down, moved}

pub fill_lem :
    (n a v : ℕ) (m : Memory) (x : ℕ)
    → fill n a v m x ≡ (if leb a x && ltb x (a + n) then v else m x)
unfolding fill
fill_lem zero a v m x = ground arith
fill_lem (suc n) a v m x = ground (arith, fill_lem n (a + 1) v (store m a v) x)

pub all_bytes_iff :
    (n a v : ℕ) (m : Memory) → (all_bytes n a v m ≡ true) ↔ ((x : ℕ) → a ≤ x → x < a + n → m x ≡ v)
unfolding all_bytes
all_bytes_iff n a v m = (to n a, from n a)
  where
    to : (k b : ℕ) → all_bytes k b v m ≡ true → (x : ℕ) → b ≤ x → x < b + k → m x ≡ v
    to zero b h x lo hi = absurd (omega arith)
    to (suc k) b h x lo hi = ground (
      arith,
      λ (e : all_bytes k (b + 1) v m ≡ true) (l : b + 1 ≤ x). to k (b + 1) e x l (omega arith),
    )

    from : (k b : ℕ) → ((x : ℕ) → b ≤ x → x < b + k → m x ≡ v) → all_bytes k b v m ≡ true
    from zero b h = refl
    from (suc k) b h = ground (
      arith,
      h b (omega arith) (omega arith),
      from k (b + 1) (λ x lo hi. h x (omega arith) (omega arith)),
    )

-- Copying upwards moves a block down or onto itself, and any block that it does not overlap.
pub copy_up-moved :
    (n d s : ℕ) (m : Memory) (x : ℕ) → (d ≤ s) ⊎ (s + n ≤ d) → copy_up n d s m x ≡ moved n d s m x
unfolding copy_up
copy_up-moved zero d s m x apart = ground arith
copy_up-moved (suc n) d s m x apart =
    ground (arith, copy_up-moved n (d + 1) (s + 1) (store m d (m s)) x)

-- Copying downwards moves a block up or onto itself, and any block that it does not overlap.
pub copy_down-moved :
    (n d s : ℕ) (m : Memory) (x : ℕ) → (s ≤ d) ⊎ (d + n ≤ s) → copy_down n d s m x ≡ moved n d s m x
unfolding copy_down
copy_down-moved zero d s m x apart = ground arith
copy_down-moved (suc n) d s m x apart =
    ground (arith, copy_down-moved n d s (store m (d + n) (m (s + n))) x)
