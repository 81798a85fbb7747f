-- ===== src/Allocator/Live/Growth.antt =====
-- What `allocateMoreSlots`, and so the whole of `_duma_allocate`, does to the user's buffers.
use duma.Prelude.{
  ◌∙◌, ℕ, ◌≡◌, inl, inr, refl, ap, arith, true, false, Option, none, zero, suc, ◌==◌, Bool-cases,
}
use duma.Prelude.Int.{pos}
use duma.Words.Defs.{add64}
use duma.Slots.Types.{AllocType, Slot, Allocator, internal, alloc_type, same_type}
use duma.Machine.Env.{Env}
use duma.Machine.State.{State}
use duma.Machine.Monad.{Ensures, returns, Ensures-weaken, pure}
use duma.Allocator.Request.{Request}
use duma.Allocator.Grow.{fresh_slots, table_request, move_table, allocate_more_slots, allocate}
use duma.Allocator.Live.{buffer_at, as_buffer, update, Kept, Kept-refl, append-Stay, buffer_at-get}
use duma.Allocator.Live.Steps.{Calm, then-Calm}
use duma.Allocator.Live.Answers.{Answered, null, no_bytes, placed}
use duma.Allocator.Live.Freeing.{Disposed, nothing, removed, deallocate-Disposed}
use duma.Allocator.Live.Allocation.{allocate_with-Answered}

-- Taking a buffer from a place where there is none, or putting none there.
update-none :
    (f : ℕ → Option Slot) (i j : ℕ) (o : Option Slot) → f i ≡ none → o ≡ none → update f i o j ≡ f j
update-none f i j o h n = elim (Bool-cases (j == i)) [
  | inl e ↦ let same : j ≡ i = ground (arith, e) in rw same (ground (arith, h, n))
  | inr e ↦ ground (arith, e)
]

internal-none : (u : Slot) → alloc_type u.allocator ≡ internal → as_buffer u ≡ none
internal-none u own = ground (arith, own)

internal_kind : (x : AllocType) → same_type x internal ≡ true → x ≡ internal
internal_kind x e = ground (arith, e)

module _ {W : Type 0} (env : Env W) where
  -- A request of the allocator itself leaves the buffers.
  internal_request :
      (r : Request) (a : ℕ) (s t : State W)
      → alloc_type r.allocator ≡ internal
      → Answered r a s t
      → Kept s t
  internal_request r a s t own (null e k) = k
  internal_request r a s t own (no_bytes e n k) = k
  internal_request r a s t own (placed p) =
      let kind = ap alloc_type p.allocator ∙ own in
      record {
        settings = p.settings;
        null_addr = p.null_addr;
        init_state = p.init_state;
        table = p.table;
        buffers = λ j.
            p.view j
            ∙ update-none (buffer_at s.slots) p.index j _ p.before (internal-none p.slot kind);
      }

  fresh_slots-none : (n i : ℕ) → buffer_at (fresh_slots n) i ≡ none
  unfolding fresh_slots
  fresh_slots-none zero i = refl
  fresh_slots-none (suc n) zero = refl
  fresh_slots-none (suc n) (suc i) = fresh_slots-none n i

  move_table-Calm : (a size : ℕ) (s : State W) → a == 0 ≡ false → Calm s (move_table env a size s)
  unfolding move_table
  move_table-Calm a size s new = returns (record {
    settings = refl;
    null_addr = refl;
    init_state = refl;
    table = λ h. ground (arith, new);
    buffers =
        append-Stay s.slots (fresh_slots s.slots_per_page) (fresh_slots-none s.slots_per_page);
  })

  internal_free : (a : ℕ) (s t : State W) → Disposed a Allocator.int_dealloc s t → Kept s t
  internal_free a s t (nothing h k) = k
  internal_free a s t (removed i u here address kind q) =
      let nothing_there : buffer_at s.slots i ≡ none =
        buffer_at-get s.slots i here ∙ internal-none u (internal_kind _ kind) in
      record {
        settings = q.settings;
        null_addr = q.null_addr;
        init_state = q.init_state;
        table = q.table;
        buffers = λ j. q.view j ∙ update-none (buffer_at s.slots) i j none nothing_there refl;
      }

  allocate_more_slots-Calm : (s : State W) → Calm s (allocate_more_slots env s)
  unfolding allocate_more_slots
  allocate_more_slots-Calm s =
      let size = add64 s.alloc_list_size env.page_size in
      let r : Request = table_request env size (pos 1233) in
      then-Calm
        (Ensures-weaken (allocate_with-Answered env (pure tt) (λ t. returns (Kept-refl t)) r s)
          λ a t q. internal_request r a s t refl q)
        λ a t k. elim (Bool-cases (a == 0)) [
          | inl e ↦ rw e (returns (Kept-refl t))
          | inr e ↦ rw e (
              then-Calm (move_table-Calm a size t e) λ _ u k'.
                Ensures-weaken
                  (deallocate-Disposed env s.alloc_list false Allocator.int_dealloc env.this_file
                    (pos 1259) u)
                  λ _ v q. internal_free s.alloc_list u v q)
        ]

  -- Whenever `_duma_allocate` returns, the settings are as before, and it has returned NULL or, for no
  -- bytes, the address that stands for them, with the buffers as before, or it has put a slot into use
  -- that held no buffer: the slot has the address that is returned, the size and the allocator of the
  -- request, and in the user's view only its place has changed.
  pub allocate-Answered :
      (r : Request) (s : State W) → Ensures (λ a t. Answered r a s t) (allocate env r s)
  unfolding allocate
  allocate-Answered r s =
      allocate_with-Answered env (allocate_more_slots env) allocate_more_slots-Calm r s
