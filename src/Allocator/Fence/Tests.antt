-- ===== src/Allocator/Fence/Tests.antt =====
-- The pages of the regions on a small kernel.
use duma.Prelude.{
  ℕ, zero, suc, ◌+◌, ◌≡◌, ◌≤◌, ◌<◌, inl, refl, true, false, some, [], ◌∷◌, get_elem?, arith, ltb,
  leb, ◌&&◌, if◌then◌else◌,
}
use duma.Prelude.Int.{pos, negsuc}
use duma.Words.{IsPower}
use duma.Layout.{internal_size}
use duma.Layout.Size.{Fits}
use duma.Slots.Types.{SlotState, FileSource, Allocator, Slot, zero_slot}
use duma.Machine.Env.{denied, granted}
use duma.Machine.Sample.{Kernel, sample, boot, look, sample-IsOs}
use duma.Machine.State.{State, initial_state}
use duma.Machine.Monad.{Ensures}
use duma.Allocator.Request.{Request}
use duma.Allocator.Region.{place}
use duma.Allocator.Deallocate.{deallocate}
use duma.Allocator.Fence.{held, no_user, above, IsSound, Tidy}
use duma.Allocator.Fence.Placing.{IsPlaced, place-IsPlaced}
use duma.Allocator.Grow.{allocate}
use duma.Allocator.Fence.Allocating.{alignment_of, IsModest, allocate-Tidy}
use duma.Allocator.Fence.Freeing.{deallocate-Tidy}

power-64 : IsPower 64
power-64 = record { shift = 6; shift_lt = omega arith; is_power = refl }

-- The allocator's own slot with the table.
abbrev table_slot : Slot
table_slot = record zero_slot {
  internal_address = 4096;
  user_address = 4096;
  prot_address = 4160;
  internal_size = 64;
  user_size = 64;
  state = SlotState.in_use;
  allocator = Allocator.int_alloc;
}

-- A block of 100 bytes at 65560, in a region of three pages, the last of which is closed.
abbrev block : Slot
block = record zero_slot {
  internal_address = 65536;
  user_address = 65560;
  prot_address = 65664;
  internal_size = 192;
  user_size = 100;
  state = SlotState.in_use;
  allocator = Allocator.malloc;
  file_source = FileSource.allocation;
  lineno = pos 10;
}

abbrev kernel : Kernel
kernel = record boot {
  next = 0x20000;
  pages = λ x. if leb 65664 x && ltb x 65728 then denied else granted;
}

abbrev one_block : State Kernel
one_block = record (initial_state 8 kernel (λ _. 0xaa)) {
  slots = table_slot ∷ block ∷ zero_slot ∷ zero_slot ∷ [];
  unused_slots = 7;
  alloc_list = 4096;
  alloc_list_size = 64;
  null_addr = 9999;
}

table_slot-IsSound : IsSound look 64 kernel table_slot
table_slot-IsSound = record {
  regular = record { aligned = refl; whole = refl; low = omega arith };
  mapped = λ x i m. ground (arith, m);
  hollow = λ h. absurd (ground (arith, h));
  plain = λ h. absurd (ground (arith, h));
  holds = λ _. (omega arith, omega arith);
  user = held (inl refl);
  fence = λ b. absurd (ground (arith, b));
  dead = λ p. absurd (ground (arith, p));
}

block-IsSound : IsSound look 64 kernel block
block-IsSound = record {
  regular = record { aligned = refl; whole = refl; low = omega arith };
  mapped = λ x i m. ground (arith, m);
  hollow = λ h. absurd (ground (arith, h));
  plain = λ h. absurd (ground (arith, h));
  holds = λ _. (omega arith, omega arith);
  user = held (inl refl);
  fence = λ _.
      above (λ x i lo hi. ground arith) (λ x i lo. ground arith) (omega arith) (omega arith)
        (omega arith) (omega arith);
  dead = λ p. absurd (ground (arith, p));
}

zero_slot-IsSound : IsSound look 64 kernel zero_slot
zero_slot-IsSound = record {
  regular = record { aligned = refl; whole = refl; low = omega arith };
  mapped = λ x i m. absurd (omega arith);
  hollow = λ _. refl;
  plain = λ _. refl;
  holds = λ h. absurd (ground (arith, h));
  user = no_user refl;
  fence = λ b. absurd (ground (arith, b));
  dead = λ p. absurd (ground (arith, p));
}

one_block-Tidy : Tidy look 64 one_block
one_block-Tidy = record {
  ordered = record {
    sound = λ i u e. sound i u e;
    apart = λ i j u v x e e' in1 in2. apart i j u v x e e' in1 in2;
  };
  table = record {
    index = 0;
    slot = table_slot;
    here = refl;
    state = refl;
    kind = refl;
    user = refl;
    aligned = refl;
    whole = refl;
    inside = λ x lo hi. (lo, hi);
  };
}
  where
    sound : (i : ℕ) (u : Slot) → get_elem? one_block.slots i ≡ some u → IsSound look 64 kernel u
    sound zero u e = let same : table_slot ≡ u = ground (arith, e) in rw (← same) table_slot-IsSound
    sound (suc zero) u e = let same : block ≡ u = ground (arith, e) in rw (← same) block-IsSound
    sound (suc (suc zero)) u e =
        let same : zero_slot ≡ u = ground (arith, e) in rw (← same) zero_slot-IsSound
    sound (suc (suc (suc zero))) u e =
        let same : zero_slot ≡ u = ground (arith, e) in rw (← same) zero_slot-IsSound
    sound (suc (suc (suc (suc i)))) u e = absurd (ground (arith, e))

    nothing :
        (u : Slot) (x : ℕ)
        → zero_slot ≡ u
        → (u.internal_address ≤ x) × (x < u.internal_address + u.internal_size)
        → ⊥
    nothing u x e in1 = omega (arith, rw (← e) at in1)

    apart :
        (i j : ℕ) (u v : Slot) (x : ℕ)
        → get_elem? one_block.slots i ≡ some u
        → get_elem? one_block.slots j ≡ some v
        → (u.internal_address ≤ x) × (x < u.internal_address + u.internal_size)
        → (v.internal_address ≤ x) × (x < v.internal_address + v.internal_size)
        → i ≡ j
    apart zero zero u v x e e' in1 in2 = refl
    apart zero (suc zero) u v x e e' in1 in2 =
        let a : table_slot ≡ u = ground (arith, e) in
        let b : block ≡ v = ground (arith, e') in
        absurd (omega (arith, rw (← a) at in1, rw (← b) at in2))
    apart (suc zero) zero u v x e e' in1 in2 =
        let a : block ≡ u = ground (arith, e) in
        let b : table_slot ≡ v = ground (arith, e') in
        absurd (omega (arith, rw (← a) at in1, rw (← b) at in2))
    apart (suc zero) (suc zero) u v x e e' in1 in2 = refl
    apart (suc (suc zero)) j u v x e e' in1 in2 = absurd (nothing u x (ground (arith, e)) in1)
    apart (suc (suc (suc zero))) j u v x e e' in1 in2 = absurd (nothing u x (ground (arith, e)) in1)
    apart (suc (suc (suc (suc i)))) j u v x e e' in1 in2 = absurd (ground (arith, e))
    apart zero (suc (suc zero)) u v x e e' in1 in2 = absurd (nothing v x (ground (arith, e')) in2)
    apart zero (suc (suc (suc zero))) u v x e e' in1 in2 =
        absurd (nothing v x (ground (arith, e')) in2)
    apart zero (suc (suc (suc (suc j)))) u v x e e' in1 in2 = absurd (ground (arith, e'))
    apart (suc zero) (suc (suc zero)) u v x e e' in1 in2 =
        absurd (nothing v x (ground (arith, e')) in2)
    apart (suc zero) (suc (suc (suc zero))) u v x e e' in1 in2 =
        absurd (nothing v x (ground (arith, e')) in2)
    apart (suc zero) (suc (suc (suc (suc j)))) u v x e e' in1 in2 = absurd (ground (arith, e'))

deallocate-Tidy_example :
    Ensures
      (λ _ t. Tidy look 64 t)
      (deallocate sample 65560 true Allocator.dealloc 5 (pos 12) one_block)
deallocate-Tidy_example =
    deallocate-Tidy sample look sample-IsOs power-64 65560 true Allocator.dealloc 5 (pos 12)
      one_block one_block-Tidy refl

-- 100 bytes in three pages of 64 bytes.
abbrev request : Request
request = record {
  alignment = 0;
  user_size = 100;
  protect_below = false;
  fill_byte = negsuc 0;
  protect_alloc_list = true;
  allocator = Allocator.malloc;
  fail_env = false;
  filename = 1;
  lineno = pos 10;
}

Fits-100 : Fits 64 8 100
Fits-100 = record {
  page_power = power-64;
  alignment_power = record { shift = 3; shift_lt = omega arith; is_power = refl };
  positive = omega arith;
  no_wrap = omega arith;
}

size_100 : 192 ≡ internal_size 64 8 100
unfolding internal_size duma.Words.Defs.round_down
size_100 = refl

place-IsPlaced_example :
    Ensures
      (IsPlaced sample look sample-IsOs request 8 192 65536 Fits-100 size_100 refl
        (omega arith)
        one_block)
      (place sample request 8 192 65536 one_block)
place-IsPlaced_example =
    place-IsPlaced sample look sample-IsOs request 8 192 65536 Fits-100 size_100 refl (omega arith)
      one_block

request-IsModest : IsModest 64 one_block.settings.alignment request
unfolding alignment_of duma.Layout.default_alignment
request-IsModest = record {
  size = omega arith;
  page_small = omega arith;
  positive = λ _. omega arith;
  small = omega arith;
  low = λ b. absurd (ground (arith, b));
}

allocate-Tidy_example : Ensures (λ _ t. Tidy look 64 t) (allocate sample request one_block)
allocate-Tidy_example =
    allocate-Tidy sample look sample-IsOs power-64 request one_block (inl (omega arith))
      request-IsModest one_block-Tidy
