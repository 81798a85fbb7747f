-- ===== src/Layout/Tests.antt =====
-- The placement of a block of 100 bytes at pages of 4096 bytes, and of other requests.
use duma.Prelude.{ℕ, suc, ◌+◌, ◌-◌, ◌≤◌, ◌<◌, ◌≡◌, ◌^◌, ◌↔◌, ◌⊎◌, refl, true, arith}
use duma.Words.{IsPower}
use duma.Layout.{
  internal_size, place_above, place_below, live_size_below, default_alignment, int32,
  passes_power_test, passes_posix_test,
}
use duma.Layout.Alignment.{default_alignment_lem, passes_posix_test_iff, passes_power_test_iff}
use duma.Layout.Size.{Fits}
use duma.Layout.Above.{IsAbove, place_above-IsAbove}
use duma.Layout.Below.{IsBelow, place_below-IsBelow, live_size_below_end}

abbrev power : (k p : ℕ) → k < 64 → p ≡ 2 ^ k → IsPower p
power k p lt e = record { shift = k; shift_lt = lt; is_power = e }

Fits-100 : Fits 4096 8 100
Fits-100 = record {
  page_power = power 12 4096 (omega arith) refl;
  alignment_power = power 3 8 (omega arith) refl;
  positive = omega arith;
  no_wrap = omega arith;
}

size_100 : 8192 ≡ internal_size 4096 8 100
unfolding internal_size duma.Words.Defs.round_down
size_100 = refl

size_104 : 8192 ≡ internal_size 4096 8 104
unfolding internal_size duma.Words.Defs.round_down
size_104 = refl

Fits-104 : Fits 4096 8 104
Fits-104 = record {
  page_power = power 12 4096 (omega arith) refl;
  alignment_power = power 3 8 (omega arith) refl;
  positive = omega arith;
  no_wrap = omega arith;
}

-- An alignment of four pages.
Fits-far : Fits 4096 16384 100
Fits-far = record {
  page_power = power 12 4096 (omega arith) refl;
  alignment_power = power 14 16384 (omega arith) refl;
  positive = omega arith;
  no_wrap = omega arith;
}

size_far : 20480 ≡ internal_size 4096 16384 100
unfolding internal_size duma.Words.Defs.round_down
size_far = refl

place_above-IsAbove_example : IsAbove 4096 8 100 8192 65536 (place_above 4096 8 8192 65536 100)
place_above-IsAbove_example = place_above-IsAbove 65536 Fits-100 size_100 refl (omega arith)

place_below-IsBelow_example : IsBelow 4096 16384 100 20480 4096 (place_below 4096 16384 4096)
place_below-IsBelow_example = place_below-IsBelow 4096 Fits-far size_far refl (omega arith)

live_size_below_end_example :
    let p = place_below 4096 16384 4096 in
    p.user + live_size_below 20480 p ≡ 24576 + (p.user - 8192)
live_size_below_end_example = live_size_below_end 4096 Fits-far size_far refl (omega arith)

-- The region ends at 24576, and what is unlocked at 32768.
beyond_the_region : let p = place_below 4096 16384 4096 in p.user + live_size_below 20480 p ≡ 32768
unfolding place_below live_size_below duma.Words.Defs.round_down
beyond_the_region = refl

default_alignment_lem_example :
    (8 ≤ 5) × (default_alignment 8 5 ≡ 8)
    ⊎ ((k : ℕ) × (5 < 8) × (default_alignment 8 5 ≡ 2 ^ k) × (2 ^ k ≤ 5) × (5 < 2 ^ suc k))
default_alignment_lem_example = default_alignment_lem 8 5 (omega arith) (omega arith)

passes_posix_test_iff_example :
    (passes_posix_test 8 64 ≡ true) ↔ ((8 ≤ 64) × ((k : ℕ) × (64 ≡ 2 ^ k)))
passes_posix_test_iff_example = passes_posix_test_iff 8 64 (omega arith) (omega arith)

passes_power_test_iff_example :
    (passes_power_test (2 ^ 32 + 2 ^ 33) ≡ true)
    ↔ ((int32 (2 ^ 32 + 2 ^ 33) ≡ 0) ⊎ ((k : ℕ) × (int32 (2 ^ 32 + 2 ^ 33) ≡ 2 ^ k)))
passes_power_test_iff_example = passes_power_test_iff (2 ^ 32 + 2 ^ 33)
