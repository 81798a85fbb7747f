-- ===== src/Layout/Above.antt =====
-- The buffer with the dead page behind it.
use duma.Prelude.{ℕ, ◌+◌, ◌-◌, ◌%◌, ◌≤◌, ◌<◌, ◌≡◌, arith}
use native.Mathlib.Decide.{dec_lt}
use duma.Words.Defs.{word, round_up, add64, sub64}
use duma.Words.{
  IsFloor, IsPower-bounds, round_up-IsFloor, round_down-IsFloor, multiple_trans, multiple_add,
  multiple_sub, multiple_gap, le-IsFloor,
}
use duma.Layout.{Placement, internal_size, place_above}
use duma.Layout.Size.{
  Fits, IsSized, IsPower-divides, internal_size-IsSized, internal_size_lem, pages_of_size,
}

-- The buffer lies in the region, is aligned, and ends less than a page and an alignment before a
-- dead stretch of whole pages that reaches to the region's end.
pub record IsAbove (page alignment size internal int_addr : ℕ) (p : Placement) : Type 0 where
  pub inside : int_addr ≤ p.user
  pub aligned : p.user % alignment ≡ 0
  pub guard_whole : p.prot % page ≡ 0
  pub guard_behind : p.user + size ≤ p.prot
  pub guard_near : p.prot < p.user + size + page
  pub guard_page : p.prot + page ≤ int_addr + internal
  pub high : int_addr + internal < p.user + size + page + alignment

module _ {page alignment size internal : ℕ} (int_addr : ℕ) (f : Fits page alignment size)
    (sized : internal ≡ internal_size page alignment size) (start : int_addr % page ≡ 0)
    (room : int_addr + internal < word) where
  open f use {page_power, alignment_power, positive, no_wrap}

  big_enough : IsSized page alignment size internal
  big_enough = rw sized (internal_size-IsSized f)

  user-IsFloor :
      IsFloor
        (int_addr + internal - page - size)
        alignment
        (place_above page alignment internal int_addr size).user
  unfolding place_above
  user-IsFloor =
      let e : sub64 (sub64 (add64 int_addr internal) page) size
          ≡ int_addr + internal - page - size =
        omega (arith, room, big_enough) in
      rw e (round_down-IsFloor alignment_power _ (omega (arith, room)))

  -- The highest aligned start that fits is not below the region.
  floor_inside : (d : ℕ) → IsFloor (int_addr + internal - page - size) alignment d → int_addr ≤ d
  floor_inside d floor = elim (dec_lt page alignment) [
    | no small ↦
        let whole = IsPower-divides alignment_power page_power (omega arith) in
        le-IsFloor int_addr (IsPower-bounds alignment_power).0 floor
          (multiple_trans alignment page int_addr whole start) (omega (arith, big_enough))
    | yes large ↦
        let whole = IsPower-divides page_power alignment_power (omega arith) in
        let steps = multiple_trans page alignment d whole floor.multiple in
        elim (dec_lt d int_addr) [
          | no ge ↦ omega arith
          | yes lt ↦ absurd (
              omega (
                arith,
                multiple_gap page d int_addr (IsPower-bounds page_power).0 steps start lt,
                floor.near,
                big_enough.holds_aligned,
              ))
        ]
  ]

  IsAbove-of_floor :
      (u : ℕ)
      → IsFloor (int_addr + internal - page - size) alignment u
      → IsAbove page alignment size internal int_addr
          (record { user = u; prot = round_up (add64 u size) page })
  IsAbove-of_floor u floor =
      let page_pos = (IsPower-bounds page_power).0 in
      let user_end : add64 u size ≡ u + size = omega (arith, room, floor.below, big_enough) in
      let guard =
        round_up-IsFloor page_power (u + size) (omega (arith, room, floor.below, big_enough)) in
      let region_end = multiple_add page int_addr internal page_pos start big_enough.whole in
      rw user_end (record {
        inside = floor_inside u floor;
        aligned = floor.multiple;
        guard_whole = guard.multiple;
        guard_behind = omega (arith, guard.near);
        guard_near = omega (arith, guard.below);
        high = omega (arith, floor.near);
        guard_page =
            multiple_gap page (round_up (u + size) page) (int_addr + internal) page_pos
              guard.multiple region_end (omega (arith, guard.below, floor.below, big_enough));
      })

  -- In a region of the size for the request, at a page's start and below the top of memory, the buffer
  -- lies at a multiple of the alignment, and whole dead pages follow it: they begin less than a page
  -- behind its end and there is at least one in the region. The buffer stands less than the alignment
  -- below the last place from which it would fit before a dead page.
  pub place_above-IsAbove :
      IsAbove page alignment size internal int_addr
        (place_above page alignment internal int_addr size)
  unfolding place_above
  place_above-IsAbove = IsAbove-of_floor _ user-IsFloor

  exact_of_IsAbove :
      {p : Placement} {top : ℕ}
      → p.user + size ≡ top
      → top % page ≡ 0
      → IsAbove page alignment size internal int_addr p
      → p.prot ≡ p.user + size
  exact_of_IsAbove {p} {top} e whole above = elim (dec_lt top p.prot) [
    | yes lt ↦ absurd (
        omega (
          arith,
          multiple_gap page top p.prot (IsPower-bounds page_power).0 whole above.guard_whole lt,
          above.guard_near,
        ))
    | no ge ↦ omega (arith, above.guard_behind)
  ]

  -- With a size that is a multiple of an alignment of at most a page, no byte lies between the
  -- buffer and the dead page.
  pub place_above-exact :
      alignment ≤ page
      → size % alignment ≡ 0
      → let p = place_above page alignment internal int_addr size in p.prot ≡ p.user + size
  place_above-exact small whole =
      let page_pos = (IsPower-bounds page_power).0 in
      let align_pos = (IsPower-bounds alignment_power).0 in
      let divides = IsPower-divides alignment_power page_power small in
      let pages = pages_of_size f in
      let ends : internal ≡ round_up size page + page = omega (arith, sized, internal_size_lem f) in
      let region = multiple_add page int_addr (round_up size page) page_pos start pages.multiple in
      let free_start =
        multiple_sub alignment (int_addr + round_up size page) size align_pos
          (multiple_trans alignment page _ divides region) whole (omega (arith, pages.near)) in
      let top =
        le-IsFloor (int_addr + round_up size page - size) align_pos user-IsFloor free_start
          (omega (arith, ends)) in
      exact_of_IsAbove (omega (arith, user-IsFloor.below, top, ends, pages.near)) region
        place_above-IsAbove
