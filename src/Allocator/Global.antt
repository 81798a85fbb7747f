-- ===== src/Allocator/Global.antt =====
-- The functions of src/duma.c under the C library's names: those of duma.h with no file name.
use duma.Prelude.{ℕ, Option}
use duma.Prelude.Int.{pos}
use duma.Machine.Env.{Env}
use duma.Machine.Monad.{M}
use duma.Allocator.Api.{
  PosixError, malloc, calloc, free, memalign, posix_memalign, realloc, valloc, malloc_usable_size,
  strdup,
}

module _ {W : Type 0} (env : Env W) (init : M W (Unit {0})) where
  unfoldable pub global_malloc : ℕ → M W ℕ
  unfolding malloc
  global_malloc = malloc env init env.unknown_file (pos 0)

  unfoldable pub global_calloc : ℕ → ℕ → M W ℕ
  unfolding calloc
  global_calloc = calloc env init env.unknown_file (pos 0)

  unfoldable pub global_free : ℕ → M W (Unit {0})
  unfolding free
  global_free = free env init env.unknown_file (pos 0)

  unfoldable pub global_memalign : ℕ → ℕ → M W ℕ
  unfolding memalign
  global_memalign = memalign env init env.unknown_file (pos 0)

  unfoldable pub aligned_alloc : ℕ → ℕ → M W ℕ
  unfolding memalign
  aligned_alloc = memalign env init env.unknown_file (pos 0)

  unfoldable pub global_posix_memalign :
      ℕ → ℕ → M W (PosixError env init env.unknown_file (pos 0) × Option ℕ)
  unfolding posix_memalign
  global_posix_memalign = posix_memalign env init env.unknown_file (pos 0)

  unfoldable pub global_realloc : ℕ → ℕ → M W ℕ
  unfolding realloc
  global_realloc = realloc env init env.unknown_file (pos 0)

  unfoldable pub global_valloc : ℕ → M W ℕ
  unfolding valloc
  global_valloc = valloc env init env.unknown_file (pos 0)

  unfoldable pub global_malloc_usable_size : ℕ → M W ℕ
  unfolding malloc_usable_size
  global_malloc_usable_size = malloc_usable_size env init env.unknown_file (pos 0)

  unfoldable pub global_strdup : ℕ → M W ℕ
  unfolding strdup
  global_strdup = strdup env init env.unknown_file (pos 0)
