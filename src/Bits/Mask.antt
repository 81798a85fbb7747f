-- ===== src/Bits/Mask.antt =====
-- `x & ~(p - 1)` at a power of two `p`, on words of a fixed width.
use Prim.Native.Nat.{bit_and}
use native.Mathlib.Nat.{
  pow-suc, one-le-pow, pow-succ', pow-le-pow_right, div-div-eq-div-mul, mul_assoc,
}
use duma.Prelude.{ℕ, zero, suc, ◌-◌, ◌*◌, ◌/◌, ◌%◌, ◌^◌, ◌≤◌, ◌<◌, ◌≡◌, sym, ap, ◌∙◌, arith}
use duma.Bits.Step.{zero-bit_and, bit_and_step}

-- A mask of `w` ones keeps a word of `w` bits.
bit_and_ones : (w x : ℕ) → x < 2 ^ w → bit_and x (2 ^ w - 1) ≡ x
bit_and_ones zero x h = ground (arith, zero-bit_and 0)
bit_and_ones (suc w) x h =
    let e : (2 ^ suc w - 1) / 2 ≡ 2 ^ w - 1 = omega (arith, pow-suc 2 w, one-le-pow w 2) in
    omega (
      arith,
      bit_and_step x (2 ^ suc w - 1),
      ap (λ t. bit_and (x / 2) t) e,
      pow-suc 2 w,
      one-le-pow w 2,
      bit_and_ones w (x / 2),
    )

shift-suc : (x k : ℕ) → x / 2 ^ suc k * 2 ^ suc k ≡ x / 2 / 2 ^ k * 2 ^ k * 2
shift-suc x k =
    let e : x / 2 ^ suc k ≡ x / 2 / 2 ^ k =
      ap (λ t. x / t) (pow-succ' 2 k) ∙ sym (div-div-eq-div-mul x 2 (2 ^ k)) in
    rw e (rw (pow-suc 2 k) (sym (mul_assoc _ _ _)))

half-mask : (k n : ℕ) → k ≤ n → (2 ^ suc n - 2 ^ suc k) / 2 ≡ 2 ^ n - 2 ^ k
half-mask k n h = omega (arith, pow-suc 2 n, pow-suc 2 k)

even-mask : (k n : ℕ) → k ≤ n → (2 ^ suc n - 2 ^ suc k) % 2 ≡ 0
even-mask k n h = omega (arith, pow-suc 2 n, pow-suc 2 k, pow-le-pow_right {n = 2} (omega arith) h)

-- The mask `~(2 ^ k - 1)` on words of `n` bits clears the `k` low bits.
pub bit_and_clear : (k n x : ℕ) → k ≤ n → x < 2 ^ n → bit_and x (2 ^ n - 2 ^ k) ≡ x / 2 ^ k * 2 ^ k
bit_and_clear zero n x le h = omega (arith, bit_and_ones n x h)
bit_and_clear (suc k) zero x le h = absurd (omega arith)
bit_and_clear (suc k) (suc n) x le h = omega (
  arith,
  bit_and_step x (2 ^ suc n - 2 ^ suc k),
  ap (λ t. bit_and (x / 2) t) (half-mask k n (omega arith)),
  even-mask k n (omega arith),
  bit_and_clear k n (x / 2) (omega arith) (omega (arith, pow-suc 2 n)),
  shift-suc x k,
)
