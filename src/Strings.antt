-- ===== src/Strings.antt =====
-- The checked copies of src/duma.c: `_duma_memcpy`, `_duma_memmove`, `_duma_strnlen`, `_duma_strcpy`,
-- `_duma_strncpy`, `_duma_strcat` and `_duma_strncat`. `strlen` is the C library's. Addresses are
-- those of objects in memory, so that no address in them wraps.
pub mod Loop
pub mod Copies
mod Tests
use duma.Prelude.{
  ℕ, zero, suc, ◌+◌, ◌-◌, ◌%◌, ◌^◌, Bool, true, false, not, ◌&&◌, ◌||◌, ltb, ◌==◌, if◌then◌else◌,
}
use duma.Memory.{Memory, store, fill, copy_up, copy_down}

-- How a copy ends: the memory that it leaves, the abort on an overlap, or a loop that has used up
-- its fuel.
pub data Outcome : Type 0 where
  copied : Memory → Outcome
  overlaps : Outcome
  endless : Outcome

-- `for (i = 0; i < n; ++i) d[i] = s[i];` from index `i` on, with an index that wraps at `wrap`.
unfoldable pub copy_loop : ℕ → ℕ → ℕ → ℕ → ℕ → ℕ → Memory → Outcome
copy_loop zero wrap i n d s m = endless
copy_loop (suc f) wrap i n d s m = elim (ltb i n) [
  | true ↦ copy_loop f wrap ((i + 1) % wrap) n d s (store m (d + i) (m (s + i)))
  | false ↦ copied m
]

-- `unsigned` and `size_t` indices.
abbrev pub unsigned_wrap : ℕ
unsigned_wrap = 2 ^ 32

abbrev pub size_wrap : ℕ
size_wrap = 2 ^ 64

-- `_duma_memcpy`; `tolerant` is DUMA_MEMCPY_OVERLAP. The fuel is for `size` rounds and the last test.
unfoldable pub memcpy : Bool → ℕ → ℕ → ℕ → Memory → Outcome
unfolding copy_loop
memcpy tolerant d s size m =
    if (ltb s d && ltb d (s + size)) || (ltb d s && ltb s (d + size) && not tolerant)
    then overlaps
    else copy_loop (suc size) unsigned_wrap 0 size d s m

-- `_duma_memmove`
unfoldable pub memmove : ℕ → ℕ → ℕ → Memory → Memory
unfolding copy_up copy_down
memmove d s size m = if ltb d s then copy_up size d s m else copy_down size d s m

-- `_duma_strnlen`
unfoldable pub strnlen : ℕ → ℕ → Memory → ℕ
strnlen a zero m = 0
strnlen a (suc n) m = let rest = strnlen (a + 1) n m in if m a == 0 then 0 else suc rest

-- `for (i = 0; i < size && src[i]; ++i) dest[i] = src[i];` and `for (; i < size; ++i) dest[i] = 0;`,
-- with `n` bytes left.
unfoldable pub copy_padded : ℕ → ℕ → ℕ → Memory → Memory
unfolding fill
copy_padded zero d s m = m
copy_padded (suc n) d s m =
    let rest = copy_padded n (d + 1) (s + 1) (store m d (m s)) in
    if m s == 0 then fill (suc n) d 0 m else rest

-- `_duma_strncpy`
unfoldable pub strncpy : ℕ → ℕ → ℕ → Memory → Outcome
unfolding strnlen copy_padded
strncpy d s size m =
    let len = strnlen s size m in
    if ltb 0 size && ((ltb s d && ltb d (s + len)) || (ltb d s && ltb s (d + size)))
    then overlaps
    else copied (copy_padded size d s m)

-- `dest[destlen + srclen] = 0;`
unfoldable pub terminate : ℕ → Outcome → Outcome
terminate a (copied m) = copied (store m a 0)
terminate a overlaps = overlaps
terminate a endless = endless

module _ (strlen : Memory → ℕ → ℕ) where
  -- `_duma_strcpy`
  unfoldable pub strcpy : ℕ → ℕ → Memory → Outcome
  unfolding copy_loop
  strcpy d s m =
      let size = strlen m s + 1 in
      if ltb s d && ltb d (s + size) then overlaps else copy_loop (suc size) size_wrap 0 size d s m

  -- `_duma_strcat`
  unfoldable pub strcat : ℕ → ℕ → Memory → Outcome
  unfolding copy_loop
  strcat d s m =
      let end = d + strlen m d in
      let size = strlen m s + 1 in
      if ltb s end && ltb end (s + size)
      then overlaps
      else copy_loop (suc size) unsigned_wrap 0 size end s m

  -- `_duma_strncat`
  unfoldable pub strncat : ℕ → ℕ → ℕ → Memory → Outcome
  unfolding strnlen copy_loop terminate
  strncat d s size m =
      if size == 0
      then copied m
      else let end = d + strlen m d in
        let len = strnlen s size m in
        if ltb s end && ltb end (s + len + 1)
        then overlaps
        else terminate (end + len) (copy_loop (suc len) unsigned_wrap 0 len end s m)
