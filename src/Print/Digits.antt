-- ===== src/Print/Digits.antt =====
-- The digits that are written, read back.
use duma.Prelude.{
  ℕ, zero, suc, ◌+◌, ◌-◌, ◌*◌, ◌/◌, ◌%◌, ◌^◌, ◌≡◌, ◌≤◌, ◌<◌, ◌↔◌, inl, inr, refl, ap, ◌∙◌, arith,
  true, false, Option, none, some, List, [], ◌∷◌, ltb, Bool-cases, if◌then◌else◌,
}
use native.Mathlib.Decide.{dec_lt}
use native.Mathlib.Nat.{
  div-add-mod', mod-lt, pow-suc, pow-zero, div-eq_of_lt, le-div_iff_mul-le, one-le-pow,
  div-lt_iff_lt-mul,
}
use duma.Print.{digit_char, write_digits, sprint_addr}

-- The value of a digit, and of a text of digits behind the value so far.
abbrev pub digit_value : ℕ → ℕ
digit_value c = if ltb c 58 then c - 48 else c - 87

unfoldable pub read_digits : ℕ → ℕ → List ℕ → ℕ
read_digits base value [] = value
read_digits base value (c ∷ rest) = read_digits base (value * base + digit_value c) rest

digit_value-digit_char : (n : ℕ) → n < 36 → digit_value (digit_char n) ≡ n
unfolding digit_char
digit_value-digit_char n lt = ground arith

-- One digit and the rest of the number.
read_digit :
    (base value : ℕ)
    → 1 < base
    → base ≤ 36
    → value / base * base + digit_value (digit_char (value % base)) ≡ value
read_digit base value lo hi =
    let lt : value % base < base = mod-lt value (omega arith) in
    let e = digit_value-digit_char (value % base) (omega arith) in rw e (div-add-mod' value base)

-- With room for the digits the text stands before what is there already, and reads as the number.
abbrev Reads : ℕ → ℕ → List ℕ → Option (List ℕ) → Type 0
Reads base value text answer =
    (t : List ℕ) × (answer ≡ some t) × (read_digits base 0 t ≡ read_digits base value text)

write_digits-last :
    (room value base : ℕ) (text : List ℕ)
    → 1 < base
    → base ≤ 36
    → value < base
    → Reads base value text (write_digits (suc (suc room)) value base text)
unfolding write_digits read_digits
write_digits-last room value base text lo hi lt =
    let small : value / base ≡ 0 = div-eq_of_lt lt in
    let whole : 0 * base + digit_value (digit_char (value % base)) ≡ value =
      rw small at (read_digit base value lo hi) in
    let e : ltb 0 (value / base) ≡ false = rw small refl in
    (
      digit_char (value % base) ∷ text,
      rw (write_digits, e) refl,
      ap (λ v. read_digits base v text) whole,
    )

write_digits-read :
    (room value base : ℕ) (text : List ℕ)
    → 1 < base
    → base ≤ 36
    → value < base ^ suc room
    → Reads base value text (write_digits (suc (suc room)) value base text)
unfolding write_digits read_digits
write_digits-read zero value base text lo hi lt =
    write_digits-last zero value base text lo hi
      (omega (arith, pow-suc base 0, pow-zero base, rw (pow-suc base 0, pow-zero base) at lt))
write_digits-read (suc room) value base text lo hi lt = elim (Bool-cases (ltb value base)) [
  | inl e ↦ write_digits-last (suc room) value base text lo hi (ground arith)
  | inr e ↦
      let less : value / base < base ^ suc room =
        (div-lt_iff_lt-mul {y = base ^ suc room} (omega arith)).1
          (rw (pow-suc base (suc room)) at lt) in
      let more : 1 ≤ value / base = (le-div_iff_mul-le (omega arith)).1 (ground arith) in
      let e' : ltb 0 (value / base) ≡ true = ground arith in
      let (t, done, same) =
        write_digits-read room (value / base) base (digit_char (value % base) ∷ text) lo hi less in
      (
        t,
        rw (write_digits, e') done,
        same ∙ ap (λ v. read_digits base v text) (read_digit base value lo hi),
      )
]

-- Without that room the printing aborts.
write_digits-abort :
    (room value base : ℕ) (text : List ℕ)
    → 1 < base
    → base ^ room ≤ value
    → write_digits (suc room) value base text ≡ none
unfolding write_digits
write_digits-abort zero value base text lo le = refl
write_digits-abort (suc room) value base text lo le =
    let pos_base : 0 < base = omega arith in
    let more : base ^ room ≤ value / base =
      (le-div_iff_mul-le pos_base).1 (rw (pow-suc base room) at le) in
    let some_left : 0 < base ^ room = one-le-pow room base (omega arith) in
    let e : ltb 0 (value / base) ≡ true = ground arith in
    rw (write_digits, e)
      (write_digits-abort room (value / base) base (digit_char (value % base) ∷ text) lo more)

-- A number of at most 63 digits is written in full: the digits read as the number.
pub sprint_addr-read :
    (value base : ℕ)
    → 1 < base
    → base ≤ 36
    → value < base ^ 63
    → (t : List ℕ) × (sprint_addr value base ≡ some t) × (read_digits base 0 t ≡ value)
unfolding sprint_addr read_digits
sprint_addr-read value base lo hi lt = write_digits-read 62 value base [] lo hi lt

-- `sprintAddr` aborts exactly on the numbers of more than 63 digits.
pub sprint_addr-aborts_iff :
    (value base : ℕ) → 1 < base → base ≤ 36 → (sprint_addr value base ≡ none) ↔ (base ^ 63 ≤ value)
unfolding sprint_addr
sprint_addr-aborts_iff value base lo hi = (
  λ h. elim (dec_lt value (base ^ 63)) [
    | yes lt ↦
        let (t, done, same) = sprint_addr-read value base lo hi lt in
        absurd (ground (arith, h, done))
    | no ge ↦ omega arith
  ],
  λ le. write_digits-abort 63 value base [] lo le,
)
