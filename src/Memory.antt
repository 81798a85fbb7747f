-- ===== src/Memory.antt =====
-- Memory as bytes at addresses, and the byte loops of src/duma.c and duma_hlp.h. A loop over a
-- range of addresses recurs on the bytes that are left.
pub mod Laws
use duma.Prelude.{
  ℕ, zero, suc, ◌+◌, ◌-◌, ◌%◌, Bool, true, false, ◌&&◌, ltb, leb, ◌==◌, if◌then◌else◌,
}

abbrev pub Memory : Type 0
Memory = ℕ → ℕ

abbrev pub store : Memory → ℕ → ℕ → Memory
store m a v x = if x == a then v else m x

-- `while (p < end) *p++ = v`, with `n` bytes left.
unfoldable pub fill : ℕ → ℕ → ℕ → Memory → Memory
fill zero a v m = m
fill (suc n) a v m = fill n (a + 1) v (store m a v)

-- `while (p < end) if (v != *p++) ...`: whether every byte is `v`.
unfoldable pub all_bytes : ℕ → ℕ → ℕ → Memory → Bool
all_bytes zero a v m = true
all_bytes (suc n) a v m = if m a == v then all_bytes n (a + 1) v m else false

-- `*d++ = *s++`, upwards.
unfoldable pub copy_up : ℕ → ℕ → ℕ → Memory → Memory
copy_up zero d s m = m
copy_up (suc n) d s m = copy_up n (d + 1) (s + 1) (store m d (m s))

-- `*--d = *--s`, downwards from behind the last of `n` bytes.
unfoldable pub copy_down : ℕ → ℕ → ℕ → Memory → Memory
copy_down zero d s m = m
copy_down (suc n) d s m = copy_down n d s (store m (d + n) (m (s + n)))

-- The bytes from `d` on are those that stood from `s` on, and no other byte changes.
abbrev pub moved : ℕ → ℕ → ℕ → Memory → Memory
moved n d s m x = if leb d x && ltb x (d + n) then m (s + (x - d)) else m x
