-- ===== src/Layout/Below.antt =====
-- The buffer with the dead page before it.
use duma.Prelude.{ℕ, ◌+◌, ◌-◌, ◌%◌, ◌≤◌, ◌<◌, ◌≡◌, arith}
use native.Mathlib.Decide.{dec_lt}
use native.Mathlib.Nat.{mod_self}
use duma.Words.Defs.{word, round_down, add64, sub64}
use duma.Words.{
  IsFloor, IsPower-bounds, round_down-IsFloor, multiple_trans, multiple_add, multiple_sub,
  multiple_gap, le-IsFloor,
}
use duma.Layout.{Placement, internal_size, place_below, live_size_below}
use duma.Layout.Size.{Fits, IsSized, IsPower-divides, internal_size-IsSized}

-- One dead page of the region lies directly before the aligned buffer, and the buffer ends in the
-- region.
pub record IsBelow (page alignment size internal int_addr : ℕ) (p : Placement) : Type 0 where
  pub inside : int_addr ≤ p.prot
  pub guard_page : p.prot + page ≡ p.user
  pub guard_whole : p.prot % page ≡ 0
  pub aligned : p.user % alignment ≡ 0
  pub fits : p.user + size ≤ int_addr + internal

module _ {page alignment size internal : ℕ} (int_addr : ℕ) (f : Fits page alignment size)
    (sized : internal ≡ internal_size page alignment size) (start : int_addr % page ≡ 0)
    (room : int_addr + internal + page + alignment ≤ word) where
  open f use {page_power, alignment_power, positive, no_wrap}

  big_enough : IsSized page alignment size internal
  big_enough = rw sized (internal_size-IsSized f)

  page_pos : 0 < page
  page_pos = (IsPower-bounds page_power).0

  first_page : (int_addr + page) % page ≡ 0
  first_page = multiple_add page int_addr page page_pos start (mod_self page)

  -- What rounding up past the first page gives.
  pub record IsStart (u : ℕ) : Type 0 where
    pub aligned : u % alignment ≡ 0
    pub whole : u % page ≡ 0
    pub above : int_addr + page ≤ u
    pub fits : u + size ≤ int_addr + internal
    pub first : alignment ≤ page → u ≡ int_addr + page

  IsStart-of_floor : (u : ℕ) → IsFloor (int_addr + page + alignment - 1) alignment u → IsStart u
  IsStart-of_floor u floor = elim (dec_lt page alignment) [
    | no small ↦
        let divides = IsPower-divides alignment_power page_power (omega arith) in
        let aligned_page = multiple_trans alignment page (int_addr + page) divides first_page in
        let up =
          le-IsFloor (int_addr + page) (IsPower-bounds alignment_power).0 floor aligned_page
            (omega arith) in
        let here : u ≡ int_addr + page = elim (dec_lt (int_addr + page) u) [
          | yes lt ↦ absurd (
              omega (
                arith,
                floor.below,
                multiple_gap alignment (int_addr + page) u (IsPower-bounds alignment_power).0
                    aligned_page floor.multiple lt,
              ))
          | no ge ↦ omega arith
        ] in
        record {
          aligned = floor.multiple;
          whole = rw here first_page;
          above = omega arith;
          fits = omega (arith, big_enough);
          first = λ _. here;
        }
    | yes large ↦
        let divides = IsPower-divides page_power alignment_power (omega arith) in
        let whole = multiple_trans page alignment u divides floor.multiple in
        let limit = multiple_add page (int_addr + page) alignment page_pos first_page divides in
        let gap =
          multiple_gap page u (int_addr + page + alignment) page_pos whole limit
            (omega (arith, floor.below)) in
        record {
          aligned = floor.multiple;
          whole = whole;
          above = omega (arith, floor.near);
          fits = omega (arith, big_enough);
          first = λ le. absurd (omega arith);
        }
  ]

  IsBelow-of_start :
      (u : ℕ)
      → IsStart u
      → IsBelow page alignment size internal int_addr
          (record { user = u; prot = sub64 (round_down u page) page })
  IsBelow-of_start u s =
      let down : round_down u page ≡ u =
        let fl = round_down-IsFloor page_power u (omega (arith, s.fits, room)) in
        omega (arith, fl.below, le-IsFloor u page_pos fl s.whole (omega arith)) in
      let guard : sub64 (round_down u page) page ≡ u - page =
        rw down (omega (arith, s.above, s.fits, room)) in
      rw guard (record {
        inside = omega (arith, s.above);
        guard_page = omega (arith, s.above);
        guard_whole =
            multiple_sub page u page page_pos s.whole (mod_self page) (omega (arith, s.above));
        aligned = s.aligned;
        fits = s.fits;
      })

  pub place_below-IsStart : IsStart (place_below page alignment int_addr).user
  unfolding place_below
  place_below-IsStart =
      let e : sub64 (add64 (add64 int_addr page) alignment) 1 ≡ int_addr + page + alignment - 1 =
        omega (arith, room, page_pos) in
      rw e
        (IsStart-of_floor _ (round_down-IsFloor alignment_power _ (omega (arith, room, page_pos))))

  -- In a region of the size for the request, at a page's start and below the top of memory, a dead page
  -- of the region lies directly before the buffer, which starts at a multiple of the alignment and
  -- ends in the region.
  pub place_below-IsBelow :
      IsBelow page alignment size internal int_addr (place_below page alignment int_addr)
  unfolding place_below
  place_below-IsBelow = IsBelow-of_start _ place_below-IsStart

  -- What is unlocked ends behind the region by what aligning the buffer skipped, which is nothing
  -- unless the alignment is larger than a page.
  pub live_size_below_end :
      let p = place_below page alignment int_addr in
      p.user + live_size_below internal p ≡ int_addr + internal + (p.user - (int_addr + page))
  unfolding live_size_below
  live_size_below_end =
      let b = place_below-IsBelow in
      let s = place_below-IsStart in
      omega (arith, b.inside, b.guard_page, big_enough, room, s.above, s.fits)
