-- ===== src/Words/Defs.antt =====
-- `size_t` and `DUMA_ADDR`: 64-bit words as numbers.
use Prim.Native.Nat.{bit_and}
use duma.Prelude.{ℕ, ◌+◌, ◌-◌, ◌%◌, ◌^◌}

abbrev pub word : ℕ
word = 2 ^ 64

abbrev pub u64 : ℕ → ℕ
u64 x = x % word

abbrev pub add64 : ℕ → ℕ → ℕ
add64 a b = (a + b) % word

abbrev pub sub64 : ℕ → ℕ → ℕ
sub64 a b = (a + word - b) % word

-- `~x`
abbrev pub not64 : ℕ → ℕ
not64 x = word - 1 - x

-- `x & ~(p - 1)`
unfoldable pub round_down : ℕ → ℕ → ℕ
round_down x p = bit_and x (not64 (sub64 p 1))

-- `(x + p - 1) & ~(p - 1)`
unfoldable pub round_up : ℕ → ℕ → ℕ
round_up x p = round_down (sub64 (add64 x p) 1) p
