-- ===== src/Words/Round.antt =====
-- Rounding to a power of two.
use duma.Prelude.{ℕ, ◌+◌, ◌-◌, ◌*◌, ◌/◌, ◌%◌, ◌^◌, ◌≤◌, ◌<◌, ◌≡◌, sym, ap, ◌∙◌, arith}
use mathlib.Core.Path.{ap₂}
use native.Mathlib.Decide.{dec_lt}
use native.Mathlib.Nat.{
  mod-mod_of_dvd, dvd_of_mod-eq-zero, mul-sub, add-mod, zero-mod, div-add-mod', le-pred_of_lt,
  one-le-pow, pow-le-pow_right, mul-mod_left, div-mul-le_self, lt-div-mul-add,
}
use duma.Bits.Mask.{bit_and_clear}
use duma.Words.Defs.{word, add64, sub64, not64, round_down, round_up}

-- A power of two that is a 64-bit word.
pub record IsPower (p : ℕ) : Type 0 where
  pub shift : ℕ
  pub shift_lt : shift < 64
  pub is_power : p ≡ 2 ^ shift

-- Multiples of `p`.
pub multiple_gap : (p x y : ℕ) → 0 < p → x % p ≡ 0 → y % p ≡ 0 → x < y → x + p ≤ y
multiple_gap p x y pos hx hy lt = grind (arith, div-add-mod' x p, div-add-mod' y p)

pub multiple_add : (p x y : ℕ) → 0 < p → x % p ≡ 0 → y % p ≡ 0 → (x + y) % p ≡ 0
multiple_add p x y pos hx hy =
    omega (arith, add-mod x y p, zero-mod p, ap₂ (λ a b. (a + b) % p) hx hy)

pub multiple_sub : (p x y : ℕ) → 0 < p → x % p ≡ 0 → y % p ≡ 0 → y ≤ x → (x - y) % p ≡ 0
multiple_sub p x y pos hx hy le =
    let e : x - y ≡ (x / p - y / p) * p =
      omega (arith, mul-sub p (x / p) (y / p), div-add-mod' x p, div-add-mod' y p) in
    rw e (mul-mod_left (x / p - y / p) p)

pub multiple_trans : (a p x : ℕ) → p % a ≡ 0 → x % p ≡ 0 → x % a ≡ 0
multiple_trans a p x hp hx =
    sym (mod-mod_of_dvd a x (dvd_of_mod-eq-zero a hp)) ∙ ap (λ t. t % a) hx ∙ zero-mod a

-- `d` is the multiple of `p` at or below `x`.
pub record IsFloor (x p d : ℕ) : Type 0 where
  pub below : d ≤ x
  pub near : x < d + p
  pub multiple : d % p ≡ 0

pub le-IsFloor : {x p d : ℕ} (b : ℕ) → 0 < p → IsFloor x p d → b % p ≡ 0 → b ≤ x → b ≤ d
le-IsFloor {x} {p} {d} b pos f hb le = elim (dec_lt d b) [
  | yes lt ↦ omega (arith, multiple_gap p d b pos f.multiple hb lt)
  | no ge ↦ omega arith
]

module _ {p : ℕ} (h : IsPower p) where
  pub IsPower-bounds : (1 ≤ p) × (p ≤ 2 ^ 63)
  IsPower-bounds = omega (
    arith,
    h.is_power,
    one-le-pow h.shift 2,
    pow-le-pow_right {n = 2} (omega arith) {j = 63} (le-pred_of_lt h.shift_lt),
  )

  mask_eq : not64 (sub64 p 1) ≡ 2 ^ 64 - 2 ^ h.shift
  mask_eq = omega (arith, IsPower-bounds, h.is_power)

  pub round_down-div : (x : ℕ) → x < word → round_down x p ≡ x / p * p
  unfolding round_down
  round_down-div x lt = rw mask_eq (
      bit_and_clear h.shift 64 x (omega (arith, h.shift_lt)) lt
      ∙ ap (λ t. x / t * t) (sym h.is_power))

  pub round_down-IsFloor : (x : ℕ) → x < word → IsFloor x p (round_down x p)
  round_down-IsFloor x lt = record {
    below = rw (round_down-div x lt) (div-mul-le_self x p);
    near = rw (round_down-div x lt) (lt-div-mul-add IsPower-bounds.0);
    multiple = rw (round_down-div x lt) (mul-mod_left (x / p) p);
  }

  -- Rounding up, where the sum does not wrap.
  pub round_up-IsFloor : (x : ℕ) → x + p ≤ word → IsFloor (x + p - 1) p (round_up x p)
  unfolding round_up
  round_up-IsFloor x le =
      let e : sub64 (add64 x p) 1 ≡ x + p - 1 = omega (arith, IsPower-bounds) in
      rw e (round_down-IsFloor (x + p - 1) (omega (arith, IsPower-bounds)))
