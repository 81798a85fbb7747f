-- ===== src/Createconf/Least.antt =====
-- The alignment that the loop of `main` in src/createconf.c leaves in the file.
use duma.Prelude.{
  ap, ◌∙◌, ℕ, zero, suc, ◌<◌, ◌/◌, ◌≡◌, ◌⊎◌, inl, inr, refl, arith, true, false, Bool-cases, Option,
  some,
}
use duma.Createconf.{
  Platform, Config, detect_alignment, test_alignment, max_sizeof, main, detect_type,
  detect_malloc_0, write_file, type_at, save,
}

-- The machine accepts the alignment, and half of it is none or is refused.
pub record IsLeast (k : Platform) (size a : ℕ) : Type 0 where
  pub accepted : test_alignment k a size ≡ true
  pub half : (a / 2 ≡ 0) ⊎ (test_alignment k (a / 2) size ≡ false)

zero_or : (n : ℕ) → (n ≡ 0) ⊎ ((m : ℕ) × (n ≡ suc m))
zero_or zero = inl refl
zero_or (suc m) = inr (m, refl)

module _ (k : Platform) (size : ℕ) (write : ℕ → Config) where
  -- A refused alignment leaves the file.
  refused :
      (f a : ℕ) (file : Option Config)
      → test_alignment k a size ≡ false
      → detect_alignment f k size write a file ≡ file
  unfolding detect_alignment
  refused zero a file fails = refl
  refused (suc f) a file fails = rw (detect_alignment, fails) refl

  saved :
      (new : Config) (old : Option Config) → k.can_open ≡ true → save k.can_open new old ≡ some new
  unfolding save
  saved new old writes = rw writes refl

  last_round :
      (f a : ℕ) (file : Option Config)
      → k.can_open ≡ true
      → test_alignment k a size ≡ true
      → a / 2 ≡ 0
      → detect_alignment (suc f) k size write a file ≡ some (write a)
  unfolding detect_alignment
  last_round f a file writes fits z = rw (detect_alignment, fits, z) (saved (write a) file writes)

  next_round :
      (f a m : ℕ) (file : Option Config)
      → k.can_open ≡ true
      → test_alignment k a size ≡ true
      → a / 2 ≡ suc m
      → detect_alignment (suc f) k size write a file
        ≡ detect_alignment f k size write (suc m) (some (write a))
  unfolding detect_alignment
  next_round f a m file writes fits z =
      rw (detect_alignment, fits, z)
        (ap (λ o. detect_alignment f k size write (suc m) o) (saved (write a) file writes))

  detect_alignment-IsLeast :
      (f a : ℕ) (file : Option Config)
      → k.can_open ≡ true
      → test_alignment k a size ≡ true
      → a < f
      → (b : ℕ) × (detect_alignment f k size write a file ≡ some (write b)) × IsLeast k size b
  detect_alignment-IsLeast zero a file writes fits h = ground arith
  detect_alignment-IsLeast (suc f) a file writes fits h = elim (zero_or (a / 2)) [
    | inl z ↦ (a, last_round f a file writes fits z, record { accepted = fits; half = inl z })
    | inr (m, z) ↦ elim (Bool-cases (test_alignment k (suc m) size)) [
      | inl fits' ↦
          let (b, e, least) =
            detect_alignment-IsLeast f (suc m) (some (write a)) writes fits' (omega arith) in
          (b, next_round f a m file writes fits z ∙ e, least)
      | inr fails ↦ (
        a,
        next_round f a m file writes fits z ∙ refused f (suc m) (some (write a)) fails,
        record { accepted = fits; half = inr (rw z fails) },
      )
    ]
  ]

-- Where the file can be opened and the machine accepts the size of the largest type as an alignment,
-- `createconf` leaves a file, whose least alignment the machine accepts, while half of that is zero
-- or is refused; the file has the page size, and it names for DUMA_ADDR and DUMA_SIZE the first types
-- that are large enough.
pub main-IsLeast :
    (k : Platform) (file : Option Config)
    → k.can_open ≡ true
    → test_alignment k (max_sizeof k) (max_sizeof k) ≡ true
    → (c : Config) × (main k file ≡ some c)
      × IsLeast k (max_sizeof k) c.min_alignment
      × (c.duma_page_size ≡ k.page_size)
      × (c.duma_addr ≡ type_at k (detect_type k.pointer_size 0 k.int_types))
      × (c.duma_size ≡ type_at k (detect_type k.size_t_size 0 k.int_types))
unfolding main write_file
main-IsLeast k file writes fits =
    let size = max_sizeof k in
    let addr_idx = detect_type k.pointer_size 0 k.int_types in
    let size_idx = detect_type k.size_t_size 0 k.int_types in
    let (b, e, least) =
      detect_alignment-IsLeast k size (λ a. write_file k addr_idx size_idx a (detect_malloc_0 k))
        (suc size) size file writes fits (omega arith) in
    (write_file k addr_idx size_idx b (detect_malloc_0 k), e, least, refl, refl, refl)
