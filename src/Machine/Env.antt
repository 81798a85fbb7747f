-- ===== src/Machine/Env.antt =====
-- What src/duma.c uses of the operating system, of the C library's mutex and of generated files. The
-- kernel's own state, with the page tables and the mutex, is of type `W`.
use duma.Prelude.Int.{ℤ}
use duma.Memory.{Memory}
use duma.Prelude.{List, ℕ, ◌+◌, ◌≤◌, ◌<◌, ◌≡◌, ◌⊎◌, ◌%◌, ◌^◌, Bool, true, Option, none, some}

-- `PROT_NONE`, and `PROT_READ | PROT_WRITE`.
pub data Protection : Type 0 where
  prot_none read_write : Protection

pub record Env (W : Type 0) : Type 0 where
  -- `DUMA_PAGE_SIZE` of the generated duma_config.h, and the page size that the system reports.
  pub page_size : ℕ
  pub system_page_size : ℕ
  -- `sizeof(struct _DUMA_Slot)` and `sizeof(void *)`.
  pub slot_size : ℕ
  pub pointer_size : ℕ
  -- The file name that `__FILE__` and `unknown_file` stand for.
  pub this_file : ℕ
  pub unknown_file : ℕ
  -- `environ`, the addresses of its strings before the final NULL, and the C library's `atoi` and
  -- `atol` of the string at an address.
  pub environ : List ℕ
  pub atoi : Memory → ℕ → ℤ
  pub atol : Memory → ℕ → ℤ
  -- `mmap(hint, length, PROT_READ | PROT_WRITE, MAP_PRIVATE | MAP_ANONYMOUS, -1, 0)`; `none` is
  -- MAP_FAILED.
  pub mmap : W → ℕ → ℕ → W × Option ℕ
  -- Whether the call succeeded.
  pub mprotect : W → ℕ → ℕ → Protection → W × Bool
  pub munmap : W → ℕ → ℕ → W × Bool
  -- The calling thread, and the process mutex: whether `trylock` got it, and `none` where `lock`
  -- has to wait.
  pub self : ℕ
  pub mutex_trylock : W → W × Bool
  pub mutex_lock : W → Option W
  pub mutex_unlock : W → W

-- What a load or a store at an address meets.
pub data Access : Type 0 where
  unmapped denied granted : Access

abbrev pub access_of : Protection → Access
access_of prot_none = denied
access_of read_write = granted

-- The documented effects of the memory calls on the address space, as `look` sees it.
pub record IsOs {W : Type 0} (env : Env W) (look : W → ℕ → Access) : Type 0 where
  -- A new mapping is accessible, and stands where nothing was mapped.
  pub mmap_new :
      (w : W) (hint n a x : ℕ)
      → (env.mmap w hint n).1 ≡ some a
      → a ≤ x
      → x < a + n
      → (look w x ≡ unmapped) × (look (env.mmap w hint n).0 x ≡ granted)
  pub mmap_else :
      (w : W) (hint n a x : ℕ)
      → (env.mmap w hint n).1 ≡ some a
      → n % env.page_size ≡ 0
      → (x < a) ⊎ (a + n ≤ x)
      → look (env.mmap w hint n).0 x ≡ look w x
  pub mmap_failed : (w : W) (hint n : ℕ) → (env.mmap w hint n).1 ≡ none → (env.mmap w hint n).0 ≡ w
  -- A mapping starts at a page, which is not NULL, and ends below the top of memory.
  pub mmap_range :
      (w : W) (hint n a : ℕ)
      → (env.mmap w hint n).1 ≡ some a
      → (0 < a) × (a + n < 2 ^ 63) × (a % env.page_size ≡ 0)
  -- Whole pages get the protection that is asked for.
  pub mprotect_in :
      (w : W) (a n x : ℕ) (p : Protection)
      → (env.mprotect w a n p).1 ≡ true
      → a ≤ x
      → x < a + n
      → look (env.mprotect w a n p).0 x ≡ access_of p
  pub mprotect_else :
      (w : W) (a n x : ℕ) (p : Protection)
      → a % env.page_size ≡ 0
      → n % env.page_size ≡ 0
      → (x < a) ⊎ (a + n ≤ x)
      → look (env.mprotect w a n p).0 x ≡ look w x
  pub munmap_else :
      (w : W) (a n x : ℕ)
      → a % env.page_size ≡ 0
      → n % env.page_size ≡ 0
      → (x < a) ⊎ (a + n ≤ x)
      → look (env.munmap w a n).0 x ≡ look w x
  -- The mutex has no part in the address space.
  pub trylock_same : (w : W) (x : ℕ) → look (env.mutex_trylock w).0 x ≡ look w x
  pub lock_same : (w w' : W) (x : ℕ) → env.mutex_lock w ≡ some w' → look w' x ≡ look w x
  pub unlock_same : (w : W) (x : ℕ) → look (env.mutex_unlock w) x ≡ look w x
