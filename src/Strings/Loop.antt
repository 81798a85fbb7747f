-- ===== src/Strings/Loop.antt =====
-- The loops of the copies.
use duma.Prelude.{
  ℕ, zero, suc, ◌+◌, ◌-◌, ◌≤◌, ◌<◌, ◌≡◌, ◌≢◌, ◌⊎◌, inl, inr, refl, arith, true, false, ◌&&◌,
  Bool-cases, ltb, leb, ◌==◌, if◌then◌else◌, ◌%◌,
}
use native.Mathlib.Nat.{mod-eq_of_lt}
use duma.Memory.{Memory, store, copy_up}
use duma.Memory.Laws.{fill_lem}
use duma.Strings.{copied, copy_loop, strnlen, copy_padded}

-- The loop ends with the bytes copied upwards.
pub copy_loop-copy_up :
    (k f wrap i n d s : ℕ) (m : Memory)
    → n < wrap
    → i + k ≡ n
    → k < f
    → copy_loop f wrap i n d s m ≡ copied (copy_up k (d + i) (s + i) m)
unfolding copy_loop copy_up
copy_loop-copy_up k zero wrap i n d s m small at lt = absurd (omega arith)
copy_loop-copy_up zero (suc f) wrap i n d s m small at lt =
    let e : ltb i n ≡ false = ground arith in rw (copy_loop, e) refl
copy_loop-copy_up (suc k) (suc f) wrap i n d s m small at lt =
    let e : ltb i n ≡ true = ground arith in
    let next : (i + 1) % wrap ≡ i + 1 = mod-eq_of_lt (omega arith) in
    let rest =
      copy_loop-copy_up k f wrap (i + 1) n d s (store m (d + i) (m (s + i))) small (omega arith)
        (omega arith) in
    let at_d : d + (i + 1) ≡ d + i + 1 = omega arith in
    let at_s : s + (i + 1) ≡ s + i + 1 = omega arith in
    rw (copy_loop, e, next) (rw (at_d, at_s) at rest)

-- The number of bytes before the first zero, among `n`.
pub strnlen-le : (a n : ℕ) (m : Memory) → strnlen a n m ≤ n
unfolding strnlen
strnlen-le a zero m = omega arith
strnlen-le a (suc n) m = ground (arith, strnlen-le (a + 1) n m)

pub strnlen-before : (a n : ℕ) (m : Memory) (x : ℕ) → a ≤ x → x < a + strnlen a n m → m x ≢ 0
unfolding strnlen
strnlen-before a zero m x lo hi = absurd (omega arith)
strnlen-before a (suc n) m x lo hi = ground (arith, strnlen-before (a + 1) n m x)

pub strnlen-end : (a n : ℕ) (m : Memory) (x : ℕ) → x ≡ a + strnlen a n m → x < a + n → m x ≡ 0
unfolding strnlen
strnlen-end a zero m x at lt = absurd (omega arith)
strnlen-end a (suc n) m x at lt = ground (arith, strnlen-end (a + 1) n m x)

-- A byte that the search does not read has no effect on it.
strnlen-store :
    (a n x v : ℕ) (m : Memory)
    → (x < a) ⊎ (a + strnlen a n m < x) ⊎ (a + n ≤ x)
    → strnlen a n (store m x v) ≡ strnlen a n m
unfolding strnlen
strnlen-store a zero x v m out = refl
strnlen-store a (suc n) x v m out = elim (Bool-cases (m a == 0)) [
  | inl e ↦ ground arith
  | inr e ↦ ground (arith, strnlen-store (a + 1) n x v m)
]

-- What `copy_padded` leaves.
abbrev pub padded : ℕ → ℕ → ℕ → Memory → Memory
padded n d s m x =
    if leb d x && ltb x (d + n)
    then (if ltb (x - d) (strnlen s n m) then m (s + (x - d)) else 0)
    else m x

pub copy_padded-padded :
    (n d s : ℕ) (m : Memory) (x : ℕ)
    → (d ≤ s) ⊎ (s + strnlen s n m < d) ⊎ (s + n ≤ d)
    → copy_padded n d s m x ≡ padded n d s m x
unfolding copy_padded strnlen
copy_padded-padded zero d s m x apart = ground arith
copy_padded-padded (suc n) d s m x apart = elim (Bool-cases (m s == 0)) [
  | inl e ↦ ground (arith, fill_lem (suc n) d 0 m x)
  | inr e ↦
      let same = strnlen-store (s + 1) n d (m s) m in
      let rest = copy_padded-padded n (d + 1) (s + 1) (store m d (m s)) x in
      ground (arith, same, rest)
]
