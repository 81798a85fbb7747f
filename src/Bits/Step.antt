-- ===== src/Bits/Step.antt =====
-- One binary digit of `bit_and`, from the recursion that the native operation stands for.
use Prim.Native.Nat.{min, digits, bit_and, bit_and-bitwise}
use duma.Prelude.{ℕ, zero, suc, ◌+◌, ◌*◌, ◌/◌, ◌%◌, ◌≤◌, ◌≡◌, sym, arith}

abbrev masked : ℕ → ℕ → ℕ → ℕ
masked rounds x y = digits (λ _. 0) min rounds x y

pub zero-bit_and : (y : ℕ) → bit_and 0 y ≡ 0
zero-bit_and = bit_and-bitwise 0

-- Rounds beyond those that the number needs add nothing.
enough_rounds :
    (bound rounds x y : ℕ) → rounds ≤ bound → x ≤ rounds → masked rounds x y ≡ bit_and x y
enough_rounds bound zero x y below fits = let e : x ≡ 0 = omega arith in rw e (sym (zero-bit_and y))
enough_rounds bound (suc rounds) zero y below fits = sym (zero-bit_and y)
enough_rounds zero (suc rounds) (suc x) y below fits = absurd (omega arith)
enough_rounds (suc bound) (suc rounds) (suc x) y below fits =
    let here = enough_rounds bound rounds (suc x / 2) (y / 2) (omega arith) (omega arith) in
    let there = enough_rounds bound x (suc x / 2) (y / 2) (omega arith) (omega arith) in
    omega (arith, here, there, bit_and-bitwise (suc x) y)

pub bit_and_step : (x y : ℕ) → bit_and x y ≡ 2 * bit_and (x / 2) (y / 2) + min (x % 2) (y % 2)
bit_and_step zero y = omega (arith, zero-bit_and y, zero-bit_and (y / 2))
bit_and_step (suc n) y =
    let half = enough_rounds n n (suc n / 2) (y / 2) (omega arith) (omega arith) in
    omega (arith, half, bit_and-bitwise (suc n) y)
