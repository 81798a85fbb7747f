-- ===== src/Strings/Copies.antt =====
-- What the checked copies leave in memory, and when they abort.
use duma.Prelude.{
  inl, inr, ◌↔◌, ℕ, suc, ◌+◌, ◌-◌, ◌≤◌, ◌<◌, ◌≡◌, ◌≢◌, ◌⊎◌, arith, Bool, true, false, ◌^◌,
}
use native.Mathlib.Decide.{dec_lt}
use duma.Memory.{Memory, copy_up, moved}
use duma.Memory.Laws.{copy_up-moved, copy_down-moved}
use duma.Strings.{
  terminate, Outcome, copied, overlaps, memcpy, memmove, strnlen, copy_padded, strncpy, strcpy,
  strcat, terminate, terminate, unsigned_wrap, size_wrap,
}
use duma.Strings.Loop.{strnlen-le, copy_loop-copy_up, copy_padded-padded, padded}

-- The copy ends, and leaves a memory that reads as `after`.
abbrev pub Leaves : Outcome → (ℕ → ℕ) → Type 0
Leaves o after = (m : Memory) × (o ≡ copied m) × ((x : ℕ) → m x ≡ after x)

-- Two blocks of `n` bytes share a byte.
abbrev pub Shares : ℕ → ℕ → ℕ → Type 0
Shares a b n = (x : ℕ) × (a ≤ x) × (x < a + n) × (b ≤ x) × (x < b + n)

disjoint : (d s size : ℕ) → ¬ Shares d s size → (d + size ≤ s) ⊎ (s + size ≤ d)
disjoint d s size apart =
    let below : d ≤ s → s < d + size → ⊥ =
      λ le near. apart (s, omega arith, near, omega arith, omega arith) in
    let above : s ≤ d → d < s + size → ⊥ =
      λ le near. apart (d, omega arith, omega arith, omega arith, near) in
    ground (arith, below, above)

-- `memcpy` of fewer than 2^32 bytes aborts exactly if the blocks are not the same and share a byte,
-- and DUMA_MEMCPY_OVERLAP is off or the target begins behind the source.
pub memcpy-overlaps_iff :
    (tolerant : Bool) (d s size : ℕ) (m : Memory)
    → size < 2 ^ 32
    → (memcpy tolerant d s size m ≡ overlaps)
      ↔ ((d ≢ s) × Shares d s size × ((tolerant ≡ false) ⊎ (s < d)))
unfolding memcpy
memcpy-overlaps_iff tolerant d s size m small =
    let e =
      copy_loop-copy_up size (suc size) unsigned_wrap 0 size d s m small (omega arith)
        (omega arith) in
    (
      λ h. elim (dec_lt s d) [
        | yes lt ↦ (
          λ same. omega arith,
          (d, omega arith, ground (arith, h, e), omega arith, ground (arith, h, e)),
          inr lt,
        )
        | no ge ↦ (
          λ same. ground (arith, h, e),
          (s, omega arith, ground (arith, h, e), omega arith, ground (arith, h, e)),
          inl (ground (arith, h, e, ge)),
        )
      ],
      λ (other, shared, kind).
          let (x, a, b, c, f) = shared in ground (arith, other, a, b, c, f, kind),
    )

-- `memcpy` of fewer than 2^32 bytes between blocks that are the same or share no byte, or with
-- DUMA_MEMCPY_OVERLAP to a target that begins before the source, ends with the block copied and no
-- other byte changed.
pub memcpy-moved :
    (tolerant : Bool) (d s size : ℕ) (m : Memory)
    → size < 2 ^ 32
    → (d ≡ s) ⊎ (¬ Shares d s size) ⊎ ((tolerant ≡ true) × (d < s))
    → Leaves (memcpy tolerant d s size m) (moved size d s m)
unfolding memcpy
memcpy-moved tolerant d s size m small apart =
    let clear : (d ≡ s) ⊎ (d + size ≤ s) ⊎ (s + size ≤ d) ⊎ ((tolerant ≡ true) × (d < s)) =
      elim apart [
        | inl e ↦ inl e
        | inr (inl no_byte) ↦ elim (disjoint d s size no_byte) [
          | inl before ↦ inr (inl before)
          | inr behind ↦ inr (inr (inl behind))
        ]
        | inr (inr early) ↦ inr (inr (inr early))
      ] in
    let e =
      copy_loop-copy_up size (suc size) unsigned_wrap 0 size d s m small (omega arith)
        (omega arith) in
    (
      copy_up size d s m,
      ground (arith, e, clear),
      λ x. copy_up-moved size d s m x (ground (arith, clear)),
    )

-- `memmove` moves any block, whether or not the two overlap.
pub memmove-moved : (d s size : ℕ) (m : Memory) (x : ℕ) → memmove d s size m x ≡ moved size d s m x
unfolding memmove
memmove-moved d s size m x =
    ground (arith, copy_up-moved size d s m x, copy_down-moved size d s m x)

-- A string of `n` bytes and its zero.
abbrev pub IsString : Memory → ℕ → ℕ → Type 0
IsString m a n = ((x : ℕ) → a ≤ x → x < a + n → m x ≢ 0) × (m (a + n) ≡ 0)

-- The copy ends, and its target is a string of `n` bytes.
abbrev pub LeavesString : Outcome → (ℕ → ℕ) → ℕ → ℕ → Type 0
LeavesString o after a n =
    (m : Memory) × (o ≡ copied m) × ((x : ℕ) → m x ≡ after x) × IsString m a n

-- `strncpy` into a buffer that lies apart from the string and its zero: the string's bytes, and
-- zeros up to the size.
pub strncpy_lem :
    (d s size : ℕ) (m : Memory)
    → (d ≡ s) ⊎ (d + size ≤ s) ⊎ (s + strnlen s size m < d) ⊎ (s + size ≤ d)
    → Leaves (strncpy d s size m) (padded size d s m)
unfolding strncpy
strncpy_lem d s size m apart = (
  copy_padded size d s m,
  ground (arith, strnlen-le s size m),
  λ x. copy_padded-padded size d s m x (ground arith),
)

module _ (strlen : Memory → ℕ → ℕ) where
  -- `strcpy` of a string to a place that is not inside it.
  pub strcpy_lem :
      (d s n : ℕ) (m : Memory)
      → IsString m s n
      → strlen m s ≡ n
      → n + 1 < 2 ^ 64
      → (d ≤ s) ⊎ (s + n < d)
      → LeavesString (strcpy strlen d s m) (moved (n + 1) d s m) d n
  unfolding strcpy
  strcpy_lem d s n m str e small apart =
      let e' =
        copy_loop-copy_up (n + 1) (suc (n + 1)) size_wrap 0 (n + 1) d s m small (omega arith)
          (omega arith) in
      let copied_as : (x : ℕ) → copy_up (n + 1) d s m x ≡ moved (n + 1) d s m x =
        λ x. copy_up-moved (n + 1) d s m x (ground arith) in
      (
        copy_up (n + 1) d s m,
        ground (arith, e'),
        copied_as,
        (
          λ x lo hi. ground (arith, copied_as x, str.0 (s + (x - d))),
          ground (arith, copied_as (d + n), str.1),
        ),
      )

  -- `strcat` of two strings that lie apart: the first is followed by the second.
  pub strcat_lem :
      (d s k n : ℕ) (m : Memory)
      → IsString m d k
      → strlen m d ≡ k
      → IsString m s n
      → strlen m s ≡ n
      → n + 1 < 2 ^ 32
      → (d + k ≤ s) ⊎ (s + n < d + k)
      → LeavesString (strcat strlen d s m) (moved (n + 1) (d + k) s m) d (k + n)
  unfolding strcat
  strcat_lem d s k n m str e str' e' small apart =
      let e'' =
        copy_loop-copy_up (n + 1) (suc (n + 1)) unsigned_wrap 0 (n + 1) (d + k) s m small
          (omega arith) (omega arith) in
      let copied_as : (x : ℕ) → copy_up (n + 1) (d + k) s m x ≡ moved (n + 1) (d + k) s m x =
        λ x. copy_up-moved (n + 1) (d + k) s m x (ground arith) in
      (
        copy_up (n + 1) (d + k) s m,
        ground (arith, e''),
        copied_as,
        (
          λ x lo hi. ground (arith, copied_as x, str.0 x, str'.0 (s + (x - (d + k)))),
          ground (arith, copied_as (d + (k + n)), str'.1),
        ),
      )
