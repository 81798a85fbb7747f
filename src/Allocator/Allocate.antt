-- ===== src/Allocator/Allocate.antt =====
-- `_duma_allocate` of src/duma.c, in the steps of the code.
use duma.Prelude.{
  ℕ, zero, ◌+◌, ◌-◌, ◌%◌, Bool, true, false, not, ◌&&◌, Option, none, some, ltb, ◌==◌,
  if◌then◌else◌,
}
use duma.Prelude.Int.{ℤ, pos, negsuc}
use duma.Memory.{fill}
use duma.Slots.{search_slots}
use duma.Slots.Types.{internal, same_type, alloc_type}
use duma.Machine.Env.{Env}
use duma.Machine.Monad.{ok, abort, Abort, M, ◌>>=◌, ◌>>◌, pure, get, stop, when}
use duma.Allocator.Request.{Request, answer, region, plan}
use duma.Allocator.Guard.{enter, leave, check_now_and_then}
use duma.Allocator.Chunk.{create_chunk}
use duma.Allocator.Region.{use_region}

abbrev pub is_minus_one : ℤ → Bool
is_minus_one (negsuc zero) = true
is_minus_one _ = false

-- `(unsigned char) n`
abbrev pub byte_of : ℤ → ℕ
byte_of (pos n) = n % 256
byte_of (negsuc n) = 255 - n % 256

module _ {W : Type 0} (env : Env W) where
  -- The search, and new memory where it found none.
  unfoldable pub find_region : Request → ℕ → M W (ℕ × Option ℕ)
  unfolding search_slots create_chunk
  find_region r needed s =
      let f =
        search_slots needed s.slots 0 (record { full = none; empty0 = none; empty1 = none }) in
      elim f.full [
        | some (i, size) ↦ ok (i, f.empty0) s
        | none ↦ elim f.empty0 [
          | none ↦ abort (Abort.no_empty_slot 0)
          | some e ↦ elim f.empty1 [
            | none ↦ abort (Abort.no_empty_slot 1)
            | some e' ↦ (do create_chunk env needed r.user_size r.fail_env e; pure (e, some e')) s
          ]
        ]
      ]

  -- The fill of the user's bytes, after the table is locked again.
  unfoldable pub fill_user : Request → ℕ → M W (Unit {0})
  unfolding fill
  fill_user r a s =
      if a == 0
      then ok tt s
      else if is_minus_one r.fill_byte
      then ok tt s
      else ok tt (record s { memory = fill r.user_size a (byte_of r.fill_byte) s.memory })

  unfoldable pub count_alloc : M W (Unit {0})
  count_alloc s = ok tt (record s { num_allocs = s.num_allocs + 1 })

  -- From the lock on: the table grows where it runs short, and a region becomes the buffer.
  unfoldable pub serve : M W (Unit {0}) → Request → ℕ → ℕ → M W ℕ
  unfolding enter leave check_now_and_then find_region use_region fill_user
  serve grow r alignment needed = do
    enter env r.protect_alloc_list
    check_now_and_then env
    s ← get
    when (not (same_type internal (alloc_type r.allocator)) && ltb s.unused_slots 7) grow
    (i, spare) ← find_region r needed
    a ← use_region env r alignment needed i spare
    leave env r.protect_alloc_list
    fill_user r a
    pure a

  -- `_duma_allocate`; `grow` stands for the call of `allocateMoreSlots`.
  unfoldable pub allocate_with : M W (Unit {0}) → Request → M W ℕ
  unfolding plan serve count_alloc
  allocate_with grow r = do
    s ← get
    when (s.alloc_list == 0) (stop Abort.assert_failed)
    count_alloc
    p ← plan env r
    elim p [ answer a ↦ pure a | region alignment needed ↦ serve grow r alignment needed ]
