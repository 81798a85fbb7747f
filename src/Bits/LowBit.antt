-- ===== src/Bits/LowBit.antt =====
-- `a & (a - 1)` and `a & -a`, as the loop for an alignment and the tests of a power of two use them.
use Prim.Native.Nat.{bit_and}
use native.Mathlib.Nat.{pow-suc, one-le-pow}
use native.Mathlib.Decide.{ℕ_discrete}
use duma.Prelude.{
  ℕ, zero, suc, ◌+◌, ◌-◌, ◌*◌, ◌/◌, ◌%◌, ◌^◌, ◌≤◌, ◌<◌, ◌≡◌, ◌⊎◌, inl, inr, sym, ap, ◌∙◌, arith,
}
use mathlib.Core.Path.{ap₂}
use duma.Bits.Step.{zero-bit_and, bit_and_step}

bit_and_self_fuel : (f a : ℕ) → a ≤ f → bit_and a a ≡ a
bit_and_self_fuel f zero h = zero-bit_and 0
bit_and_self_fuel zero (suc a) h = absurd (omega arith)
bit_and_self_fuel (suc f) (suc a) h =
    omega (arith, bit_and_step (suc a) (suc a), bit_and_self_fuel f (suc a / 2))

pub bit_and_self : (a : ℕ) → bit_and a a ≡ a
bit_and_self a = bit_and_self_fuel a a (omega arith)

-- An odd number loses its last bit.
pub clear_odd : (q : ℕ) → bit_and (2 * q + 1) (2 * q) ≡ 2 * q
clear_odd q =
    let e : (2 * q + 1) / 2 ≡ q = omega arith in
    let d : 2 * q / 2 ≡ q = omega arith in
    omega (arith, bit_and_step (2 * q + 1) (2 * q), ap₂ bit_and e d, bit_and_self q)

-- An even number is cleared in its half.
pub clear_even : (q : ℕ) → 0 < q → bit_and (2 * q) (2 * q - 1) ≡ 2 * bit_and q (q - 1)
clear_even q h =
    let e : 2 * q / 2 ≡ q = omega arith in
    let d : (2 * q - 1) / 2 ≡ q - 1 = omega arith in
    omega (arith, bit_and_step (2 * q) (2 * q - 1), ap₂ bit_and e d)

half-bounds :
    (k a : ℕ) → 2 ^ suc k ≤ a → a < 2 ^ suc (suc k) → (2 ^ k ≤ a / 2) × (a / 2 < 2 ^ suc k)
half-bounds k a lo hi = omega (arith, pow-suc 2 k, pow-suc 2 (suc k))

clear-half :
    (a : ℕ)
    → 1 < a
    → (bit_and a (a - 1) ≡ 2 * bit_and (a / 2) (a / 2 - 1)) × (a ≡ 2 * (a / 2))
      ⊎ (bit_and a (a - 1) ≡ a - 1) × (a ≡ 2 * (a / 2) + 1)
clear-half a h = elim (ℕ_discrete (a % 2) 0) [
  | yes e ↦
      let d : a ≡ 2 * (a / 2) = omega arith in
      inl (ap₂ bit_and d (omega arith) ∙ clear_even (a / 2) (omega arith), d)
  | no e ↦
      let d : a ≡ 2 * (a / 2) + 1 = omega arith in
      let d' : a - 1 ≡ 2 * (a / 2) = omega arith in
      inr (ap₂ bit_and d d' ∙ clear_odd (a / 2) ∙ sym d', d)
]

-- Between 2 ^ k and 2 ^ (k + 1): the power itself is cleared to zero, anything else stays above it.
pub clear_top :
    (k a : ℕ)
    → 2 ^ k ≤ a
    → a < 2 ^ suc k
    → (a ≡ 2 ^ k) × (bit_and a (a - 1) ≡ 0) ⊎ (2 ^ k ≤ bit_and a (a - 1)) × (bit_and a (a - 1) < a)
clear_top zero a lo hi = let e : a ≡ 1 = omega arith in inl (e, rw e (zero-bit_and 1))
clear_top (suc k) a lo hi =
    omega
      (arith, half-bounds k a lo hi, pow-suc 2 k, one-le-pow k 2, clear-half a, clear_top k (a / 2))

-- The width of a positive number.
pub log2-bounds : (f a : ℕ) → a ≤ f → 0 < a → (k : ℕ) × (2 ^ k ≤ a) × (a < 2 ^ suc k)
log2-bounds f zero le h = absurd (omega arith)
log2-bounds zero (suc a) le h = absurd (omega arith)
log2-bounds (suc f) (suc a) le h = elim (ℕ_discrete a 0) [
  | yes e ↦ (0, omega arith, omega arith)
  | no e ↦
      let (k, lo, hi) = log2-bounds f (suc a / 2) (omega arith) (omega arith) in
      (suc k, omega (arith, pow-suc 2 k), omega (arith, pow-suc 2 (suc k)))
]

-- A word and its complement share no one.
bit_and_complement : (n a : ℕ) → a < 2 ^ n → bit_and a (2 ^ n - 1 - a) ≡ 0
bit_and_complement zero a h = let e : a ≡ 0 = omega arith in rw e (zero-bit_and (2 ^ 0 - 1 - 0))
bit_and_complement (suc n) a h =
    let e : (2 ^ suc n - 1 - a) / 2 ≡ 2 ^ n - 1 - a / 2 = omega (arith, pow-suc 2 n) in
    omega (
      arith,
      bit_and_step a (2 ^ suc n - 1 - a),
      ap (λ t. bit_and (a / 2) t) e,
      pow-suc 2 n,
      bit_and_complement n (a / 2),
    )

-- `a & -a` and `a & (a - 1)` split `a` into its lowest one and the rest.
pub lowest-plus-clear :
    (n a : ℕ) → 0 < a → a < 2 ^ n → bit_and a (2 ^ n - a) + bit_and a (a - 1) ≡ a
lowest-plus-clear zero a h lt = absurd (omega arith)
lowest-plus-clear (suc n) a h lt = elim (ℕ_discrete (a % 2) 0) [
  | yes e ↦
      let d : (2 ^ suc n - a) / 2 ≡ 2 ^ n - a / 2 = omega (arith, pow-suc 2 n) in
      let d' : (a - 1) / 2 ≡ a / 2 - 1 = omega arith in
      omega (
        arith,
        bit_and_step a (2 ^ suc n - a),
        bit_and_step a (a - 1),
        ap (λ t. bit_and (a / 2) t) d,
        ap (λ t. bit_and (a / 2) t) d',
        pow-suc 2 n,
        lowest-plus-clear n (a / 2),
      )
  | no e ↦
      let d : (2 ^ suc n - a) / 2 ≡ 2 ^ n - 1 - a / 2 = omega (arith, pow-suc 2 n) in
      let d' : (a - 1) / 2 ≡ a / 2 = omega arith in
      omega (
        arith,
        bit_and_step a (2 ^ suc n - a),
        bit_and_step a (a - 1),
        ap (λ t. bit_and (a / 2) t) d,
        ap (λ t. bit_and (a / 2) t) d',
        pow-suc 2 n,
        bit_and_complement n (a / 2),
        bit_and_self (a / 2),
      )
]
