-- ===== src/Machine/Sample.antt =====
-- A small kernel, by which the assumptions on the system are met and the model runs.
use duma.Prelude.Int.{ℤ, pos, ◌-ℤ◌}
use duma.Memory.{Memory}
use duma.Prelude.{
  refl, ◌/◌, zero, suc, ◌*◌, ◌-◌, ◌==◌, [], ℕ, ◌+◌, ◌^◌, arith, Bool, true, false, ◌&&◌, ◌||◌,
  Option, none, some, ltb, leb, if◌then◌else◌,
}
use duma.Machine.Env.{Env, Protection, Access, unmapped, granted, access_of, IsOs}

-- Addresses from `next` on were never mapped.
pub record Kernel : Type 0 where
  pub next : ℕ
  pub pages : ℕ → Access
  pub locked : Bool

abbrev pub look : Kernel → ℕ → Access
look k x = if ltb x k.next then k.pages x else unmapped

abbrev pub paint : ℕ → ℕ → Access → (ℕ → Access) → ℕ → Access
paint a n p f x = if leb a x && ltb x (a + n) then p else f x

-- The first page at or behind an address.
abbrev pub page_at : ℕ → ℕ
page_at n = (n + 63) / 64 * 64

abbrev map_new : Kernel → ℕ → ℕ → Kernel × Option ℕ
map_new k hint n =
    let a = page_at k.next in
    if ltb k.next 1 || leb (2 ^ 63) (a + n)
    then (k, none)
    else (record k { next = a + n; pages = paint a n granted (λ x. look k x) }, some a)

abbrev protect : Kernel → ℕ → ℕ → Protection → Kernel × Bool
protect k a n p =
    if ltb k.next (a + n)
    then (k, false)
    else (record k { pages = paint a n (access_of p) k.pages }, true)

abbrev unmap : Kernel → ℕ → ℕ → Kernel × Bool
unmap k a n = (record k { pages = paint a n unmapped k.pages }, true)

pub digits : ℕ → ℕ → Memory → ℕ → ℕ
digits zero n m a = n
digits (suc f) n m a = elim (leb 48 (m a) && leb (m a) 57) [
  | true ↦ digits f (10 * n + (m a - 48)) m (a + 1)
  | false ↦ n
]

-- The decimal number at an address, with at most so many digits.
abbrev pub number : ℕ → Memory → ℕ → ℤ
unfolding digits
number f m a = if m a == 45 then pos 0 -ℤ pos (digits f 0 m (a + 1)) else pos (digits f 0 m a)

-- Pages of 64 bytes and eight slots to a page.
abbrev pub sample : Env Kernel
sample = record {
  page_size = 64;
  system_page_size = 64;
  slot_size = 8;
  pointer_size = 8;
  this_file = 1;
  unknown_file = 2;
  environ = [];
  atoi = number 9;
  atol = number 9;
  mmap = map_new;
  mprotect = protect;
  munmap = unmap;
  self = 7;
  mutex_trylock = λ k. if k.locked then (k, false) else (record k { locked = true }, true);
  mutex_lock = λ k. if k.locked then none else some (record k { locked = true });
  mutex_unlock = λ k. record k { locked = false };
}

abbrev pub boot : Kernel
boot = record { next = 0x10000; pages = λ _. unmapped; locked = false }

-- The small kernel keeps what is documented.
pub sample-IsOs : IsOs sample look
sample-IsOs = record {
  mmap_new = λ w hint n a x e lo hi. ground arith;
  mmap_else = λ w hint n a x e whole out. ground arith;
  mmap_failed = λ w hint n e. ground arith;
  mmap_range = λ w hint n a e. ground arith;
  mprotect_in = λ w a n x p e lo hi. ground arith;
  mprotect_else = λ w a n x p al an out. ground arith;
  munmap_else = λ w a n x al an out. ground arith;
  trylock_same = λ w x. ground arith;
  lock_same = λ w w' x e. ground (arith, e);
  unlock_same = λ w x. refl;
}
