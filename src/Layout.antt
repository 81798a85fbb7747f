-- ===== src/Layout.antt =====
-- Where `_duma_allocate` (src/duma.c) puts a buffer: the alignment it settles on, the size of the
-- region it takes, and the addresses of the buffer and of the guard page in that region.
pub mod Alignment
pub mod Size
pub mod Above
pub mod Below
mod Tests
use Prim.Native.Nat.{bit_and}
use duma.Prelude.{ℕ, zero, suc, ◌+◌, ◌-◌, ◌%◌, ◌^◌, Bool, false, not, ltb, ◌==◌, if◌then◌else◌}
use duma.Words.Defs.{add64, sub64, round_down, round_up}

-- `for (a = s; a & (a - 1); a &= a - 1);`, with fuel for the rounds.
unfoldable pub clear_loop : ℕ → ℕ → ℕ
clear_loop zero a = a
clear_loop (suc f) a =
    let b = bit_and a (sub64 a 1) in let rest = clear_loop f b in if b == 0 then a else rest

-- The alignment of a request that names none, from the default `a` and the size `s`. A size of `s`
-- bytes takes fewer than `s` rounds.
unfoldable pub default_alignment : ℕ → ℕ → ℕ
unfolding clear_loop
default_alignment a s = if ltb s a then clear_loop s s else a

unfoldable pub choose_alignment : ℕ → ℕ → ℕ → ℕ
unfolding default_alignment
choose_alignment default alignment size =
    if alignment == 0 then default_alignment default size else alignment

-- `(int) x`, as the bit pattern of 32 bits, and its negation.
abbrev pub int32 : ℕ → ℕ
int32 x = x % 2 ^ 32

abbrev pub neg32 : ℕ → ℕ
neg32 x = (2 ^ 32 - x) % 2 ^ 32

-- `(int)alignment != ((int)alignment & -(int)alignment)` is the test that aborts.
unfoldable pub passes_power_test : ℕ → Bool
passes_power_test alignment = int32 alignment == bit_and (int32 alignment) (neg32 (int32 alignment))

-- `(alignment & (alignment - 1)) || alignment < sizeof(void *)` is the test of `posix_memalign`.
unfoldable pub passes_posix_test : ℕ → ℕ → Bool
passes_posix_test pointer_size alignment =
    if bit_and alignment (sub64 alignment 1) == 0 then not (ltb alignment pointer_size) else false

-- The region for a buffer of `size > 0` bytes: whole pages, one dead page, and room to align.
unfoldable pub internal_size : ℕ → ℕ → ℕ → ℕ
unfolding round_up
internal_size page alignment size =
    let base = add64 (round_up size page) page in
    if ltb page alignment then add64 base (sub64 alignment page) else base

-- A buffer that the dead page follows: the buffer and the dead page's address.
pub record Placement : Type 0 where
  pub user : ℕ
  pub prot : ℕ

unfoldable pub place_above : ℕ → ℕ → ℕ → ℕ → ℕ → Placement
place_above page alignment internal int_addr size =
    let user = round_down (sub64 (sub64 (add64 int_addr internal) page) size) alignment in
    record { user = user; prot = round_up (add64 user size) page }

-- A buffer that the dead page precedes.
unfoldable pub place_below : ℕ → ℕ → ℕ → Placement
place_below page alignment int_addr =
    let user = round_down (sub64 (add64 (add64 int_addr page) alignment) 1) alignment in
    record { user = user; prot = sub64 (round_down user page) page }

-- The length that `_duma_allocate` unlocks from `userAddr` on, where the dead page precedes.
unfoldable pub live_size_below : ℕ → Placement → ℕ
live_size_below internal p = sub64 internal (sub64 p.user p.prot)
