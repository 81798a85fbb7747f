-- ===== src/Strings/Tests.antt =====
-- Copies of a few bytes.
use duma.Prelude.{
  ℕ, ◌≡◌, ◌≢◌, ◌↔◌, refl, inl, inr, ◌⊎◌, ◌<◌, true, false, arith, if◌then◌else◌, ltb, leb, ◌&&◌,
  ◌-◌,
}
use duma.Memory.{Memory, moved}
use duma.Strings.{Outcome, copied, overlaps, memcpy, memmove, strnlen, strncpy}
use duma.Strings.Loop.{padded}
use duma.Strings.Copies.{
  Leaves, Shares, IsString, memcpy-overlaps_iff, memcpy-moved, memmove-moved, strncpy_lem,
}

-- "abc" at 100, "de" at 200, and zeros elsewhere.
abbrev text : Memory
text x = if leb 100 x && ltb x 103 then x - 3 else if leb 200 x && ltb x 202 then x - 100 else 0

-- A `strlen` for strings of at most 20 bytes.
abbrev strlen : Memory → ℕ → ℕ
strlen m a = strnlen a 20 m

de : IsString text 200 2
de = (λ x lo hi. ground arith, refl)

de_length : strlen text 200 ≡ 2
unfolding strnlen
de_length = refl

memcpy-overlaps_iff_example :
    (memcpy true 101 100 3 text ≡ overlaps)
    ↔ ((◌≢◌ {A = ℕ} 101 100) × Shares 101 100 3 × ((true ≡ false) ⊎ (100 < 101)))
memcpy-overlaps_iff_example = memcpy-overlaps_iff true 101 100 3 text (omega arith)

memcpy-moved_example : Leaves (memcpy false 104 100 3 text) (moved 3 104 100 text)
memcpy-moved_example =
    memcpy-moved false 104 100 3 text (omega arith)
      (inr (inl (λ (x, a, b, c, d). omega (arith, a, b, c, d))))

memmove-moved_example : memmove 101 100 3 text 103 ≡ 99
memmove-moved_example = memmove-moved 101 100 3 text 103

strncpy_lem_example : Leaves (strncpy 300 100 6 text) (padded 6 300 100 text)
strncpy_lem_example = strncpy_lem 300 100 6 text (inr (inr (inr (omega arith))))

-- The copy to just behind the string is not seen as one that overlaps; it overwrites the zero, and
-- runs on to the size.
read : Outcome → ℕ → ℕ
read (copied m) x = m x
read _ x = 0

strncpy_behind : read (strncpy 103 100 6 text) 108 ≡ 99
unfolding read strncpy
strncpy_behind = refl
