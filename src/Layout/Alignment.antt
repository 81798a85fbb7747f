-- ===== src/Layout/Alignment.antt =====
-- The alignment that a request gets, and the two tests of a power of two.
use Prim.Native.Nat.{bit_and}
use native.Mathlib.Nat.{pow-suc, one-le-pow}
use duma.Prelude.{
  ℕ, zero, suc, ◌+◌, ◌-◌, ◌^◌, ◌≤◌, ◌<◌, ◌≡◌, ◌↔◌, ◌⊎◌, inl, inr, refl, true, arith, lt→ltb,
}
use native.Mathlib.Decide.{dec_lt}
use duma.Bits.LowBit.{clear_top, log2-bounds, lowest-plus-clear}
use duma.Words.Defs.{word, sub64}
use duma.Layout.{clear_loop, default_alignment, int32, neg32, passes_power_test, passes_posix_test}

sub64-one : (a : ℕ) → 0 < a → a < word → sub64 a 1 ≡ a - 1
sub64-one a pos lt = omega arith

-- The loop keeps the top power of two, and ends there if it has a round for each step down.
clear_loop-power :
    (f k a : ℕ) → 2 ^ k ≤ a → a < 2 ^ suc k → a < word → a < 2 ^ k + f → clear_loop f a ≡ 2 ^ k
unfolding clear_loop
clear_loop-power zero k a lo hi w fuel = absurd (omega arith)
clear_loop-power (suc f) k a lo hi w fuel =
    let pos : 0 < a = omega (arith, one-le-pow k 2) in
    rw (sub64-one a pos w) (
      ground (arith, one-le-pow k 2, clear_top k a lo hi, clear_loop-power f k (bit_and a (a - 1))))

-- A request that names no alignment gets the default where the size reaches it, and else the
-- largest power of two that the size reaches.
pub default_alignment_lem :
    (a s : ℕ)
    → 0 < s
    → s < word
    → (a ≤ s) × (default_alignment a s ≡ a)
      ⊎ ((k : ℕ) × (s < a) × (default_alignment a s ≡ 2 ^ k) × (2 ^ k ≤ s) × (s < 2 ^ suc k))
unfolding default_alignment
default_alignment_lem a s pos lt = elim (dec_lt s a) [
  | yes below ↦
      let (k, lo, hi) = log2-bounds s s (omega arith) pos in
      inr (
        k,
        below,
        rw (lt→ltb s a below) (clear_loop-power s k s lo hi lt (omega (arith, one-le-pow k 2))),
        lo,
        hi,
      )
  | no above ↦ inl (omega arith, ground arith)
]

-- A positive word is a power of two exactly when clearing its lowest one leaves nothing.
pub clear-zero_iff : (a : ℕ) → 0 < a → (bit_and a (a - 1) ≡ 0) ↔ ((k : ℕ) × (a ≡ 2 ^ k))
clear-zero_iff a pos =
    let (k, lo, hi) = log2-bounds a a (omega arith) pos in
    (
      λ e. (k, omega (arith, clear_top k a lo hi, one-le-pow k 2)),
      λ (j, e).
          omega (arith, clear_top j a (omega arith) (omega (arith, pow-suc 2 j, one-le-pow j 2))),
    )

-- The test before EINVAL lets through exactly the powers of two of at least a pointer's size.
pub passes_posix_test_iff :
    (pointer_size a : ℕ)
    → 0 < pointer_size
    → a < word
    → (passes_posix_test pointer_size a ≡ true) ↔ ((pointer_size ≤ a) × ((k : ℕ) × (a ≡ 2 ^ k)))
unfolding passes_posix_test
passes_posix_test_iff pointer_size a pos lt = elim (dec_lt a 1) [
  | yes small ↦ (λ h. absurd (ground arith), λ h. absurd (omega (arith, h.0)))
  | no large ↦
      let positive : 0 < a = omega arith in
      rw (sub64-one a positive lt) (
        λ h. (ground arith, (clear-zero_iff a positive).0 (ground arith)),
        λ h. let e = (clear-zero_iff a positive).1 h.1 in let le = h.0 in ground arith,
      )
]

-- The test before the abort reads the low 32 bits only: it lets through an alignment whose low 32
-- bits are zero or a power of two.
pub passes_power_test_iff :
    (a : ℕ) → (passes_power_test a ≡ true) ↔ ((int32 a ≡ 0) ⊎ ((k : ℕ) × (int32 a ≡ 2 ^ k)))
unfolding passes_power_test
passes_power_test_iff a = elim (dec_lt (int32 a) 1) [
  | yes small ↦ let e : int32 a ≡ 0 = omega arith in (λ _. inl e, λ _. rw e refl)
  | no large ↦
      let positive : 0 < int32 a = omega arith in
      let negated : neg32 (int32 a) ≡ 2 ^ 32 - int32 a = omega arith in
      let split = lowest-plus-clear 32 (int32 a) positive (omega arith) in
      let cleared = clear-zero_iff (int32 a) positive in
      rw negated (
        λ h. inr (cleared.0 (ground (arith, split))),
        elim [
          | inl e ↦ absurd (omega arith)
          | inr p ↦ let z = cleared.1 p in ground (arith, split)
        ],
      )
]
