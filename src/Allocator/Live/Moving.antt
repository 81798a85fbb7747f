-- ===== src/Allocator/Live/Moving.antt =====
-- What `_duma_realloc` does to the user's buffers.
use duma.Prelude.{ℕ, ◌≡◌, ◌≢◌, false}
use duma.Prelude.Int.{ℤ, negsuc}
use duma.Slots.Types.{Allocator}
use duma.Machine.Env.{Env}
use duma.Machine.State.{State}
use duma.Machine.Monad.{M}
use duma.Allocator.Guard.Same.{Same}
use duma.Allocator.Request.{Request}
use duma.Allocator.Api.{request, realloc}
use duma.Allocator.Live.Answers.{Answered}
use duma.Allocator.Live.Freeing.{Disposed}

module _ {W : Type 0} (env : Env W) (init : M W (Unit {0})) (filename : ℕ) (lineno : ℤ)
    (old size : ℕ) where
  -- The request for a new buffer.
  abbrev wanted : ℤ → State W → Request
  wanted fill = request env init filename lineno Allocator.realloc 0 size fill false

  -- How a call may end: as a new buffer where there was none, as a free for no bytes, with NULL
  -- for the request of the new size, or with a new buffer and the old one freed behind it.
  pub data Reallocated (a : ℕ) (s t : State W) : Type 0 where
    fresh : old ≡ 0 → Answered (wanted s.settings.fill s) a s t → Reallocated a s t
    freed : size ≡ 0 → a ≡ 0 → Disposed old Allocator.realloc s t → Reallocated a s t
    failed : a ≡ 0 → Answered (wanted (negsuc 0) s) a s t → Reallocated a s t
    moved :
        (u : State W)
        → a ≢ 0
        → Answered (wanted (negsuc 0) s) a s u
        → Disposed old Allocator.realloc u t
        → Reallocated a s t
