-- ===== src/Layout/Size.antt =====
-- The size of the region that a buffer gets.
use duma.Prelude.{ℕ, zero, suc, ◌-◌, ◌+◌, ◌-◌, ◌%◌, ◌^◌, ◌≤◌, ◌<◌, ◌≡◌, ◌⊎◌, refl, arith}
use native.Mathlib.Decide.{dec_lt}
use native.Mathlib.Nat.{mod_self, two-pow-succ, one-le-pow, pow-le-pow_right}
use Prim.Native.Nat.{max}
use duma.Words.Defs.{word, round_up, add64}
use duma.Words.{IsPower, IsFloor, IsPower-bounds, round_up-IsFloor, multiple_add}
use duma.Layout.{internal_size}

-- A request that the address space can hold: a power of two for its alignment, and sums that do
-- not wrap.
pub record Fits (page alignment size : ℕ) : Type 0 where
  pub page_power : IsPower page
  pub alignment_power : IsPower alignment
  pub positive : 0 < size
  pub no_wrap : size + page + page + alignment ≤ word

pow-divides : (i j : ℕ) → i ≤ j → 2 ^ j % 2 ^ i ≡ 0
pow-divides i zero h = let e : i ≡ 0 = omega arith in rw e refl
pow-divides i (suc j) h = elim (dec_lt j i) [
  | yes top ↦ let e : i ≡ suc j = omega arith in rw e (mod_self (2 ^ suc j))
  | no below ↦
      let half = pow-divides i j (omega arith) in
      rw (two-pow-succ j)
        (multiple_add (2 ^ i) (2 ^ j) (2 ^ j) (one-le-pow i 2 (omega arith)) half half)
]

-- One power of two divides a larger one.
pub IsPower-divides : {p q : ℕ} → IsPower p → IsPower q → p ≤ q → q % p ≡ 0
IsPower-divides {p} {q} hp hq le = elim (dec_lt hq.shift hp.shift) [
  | yes lt ↦ absurd (
      omega (
        arith,
        hp.is_power,
        hq.is_power,
        two-pow-succ hq.shift,
        one-le-pow hq.shift 2,
        pow-le-pow_right {n = 2} (omega arith) {j = hp.shift} lt,
      ))
  | no ge ↦ rw (hp.is_power, hq.is_power) (pow-divides hp.shift hq.shift (omega arith))
]

-- The region is whole pages, holds the buffer and a dead page, and room for the alignment beyond a
-- page, and is not a page longer than that.
pub record IsSized (page alignment size internal : ℕ) : Type 0 where
  pub whole : internal % page ≡ 0
  pub holds : size + page ≤ internal
  pub holds_aligned : size + alignment ≤ internal
  pub tight : (internal < size + page + page) ⊎ (internal < size + page + alignment)

module _ {page alignment size : ℕ} (f : Fits page alignment size) where
  open f use {page_power, alignment_power, positive, no_wrap}

  pub pages_of_size : IsFloor (size + page - 1) page (round_up size page)
  pages_of_size = round_up-IsFloor page_power size (omega (arith, no_wrap))

  -- Whole pages for the buffer, and a page or the alignment on top.
  pub internal_size_lem :
      internal_size page alignment size ≡ round_up size page + max page alignment
  unfolding internal_size
  internal_size_lem =
      let up : round_up size page < size + page =
        omega (arith, pages_of_size.below, IsPower-bounds page_power) in
      let base : add64 (round_up size page) page ≡ round_up size page + page =
        omega (arith, no_wrap, up) in
      rw base (ground (arith, no_wrap, up))

  -- For a request that the address space can hold, the region is whole pages, has room for the buffer
  -- with a dead page or the alignment, and is shorter than the buffer, a page and the larger of a page
  -- and the alignment.
  pub internal_size-IsSized : IsSized page alignment size (internal_size page alignment size)
  internal_size-IsSized =
      let pos = (IsPower-bounds page_power).0 in
      let step : max page alignment % page ≡ 0 = elim (dec_lt page alignment) [
        | yes large ↦
            let e : max page alignment ≡ alignment = omega arith in
            rw e (IsPower-divides page_power alignment_power (omega arith))
        | no small ↦ let e : max page alignment ≡ page = omega arith in rw e (mod_self page)
      ] in
      rw internal_size_lem (record {
        whole = multiple_add page _ _ pos pages_of_size.multiple step;
        holds = omega (arith, pages_of_size.near);
        holds_aligned = omega (arith, pages_of_size.near);
        tight = omega (arith, pages_of_size.below);
      })
