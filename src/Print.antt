-- ===== src/Print.antt =====
-- The number printing and `DUMA_vsprintf` of src/print.c. A character is its code; a buffer is the
-- list of the characters that are written into it, without the final zero.
pub mod Digits
pub mod Output
pub mod Aborting
pub mod Signed
mod Tests
use duma.Prelude.{
  ◌||◌, ℕ, zero, suc, ◌+◌, ◌-◌, ◌*◌, ◌/◌, ◌%◌, ◌^◌, Bool, true, false, Option, none, some, List, [],
  ◌∷◌, ◌++◌, ltb, ◌==◌, if◌then◌else◌,
}
use duma.Prelude.Int.{ℤ, pos, negsuc}

unfoldable pub digit_char : ℕ → ℕ
digit_char digit = if ltb digit 10 then 48 + digit else 97 + digit - 10

-- NUMBER_BUFFER_SIZE
abbrev pub number_buffer_size : ℕ
number_buffer_size = 64

-- The loop of `sprintAddr` and of `sprintLong` on a number that is not negative: `room` counts the
-- places before `s`, and `none` is the abort.
unfoldable pub write_digits : ℕ → ℕ → ℕ → List ℕ → Option (List ℕ)
unfolding digit_char
write_digits zero value base text = none
write_digits (suc zero) value base text = none
write_digits (suc (suc room)) value base text = elim (ltb 0 (value / base)) [
  | true ↦ write_digits (suc room) (value / base) base (digit_char (value % base) ∷ text)
  | false ↦ some (digit_char (value % base) ∷ text)
]

-- `sprintAddr`
unfoldable pub sprint_addr : ℕ → ℕ → Option (List ℕ)
unfolding write_digits
sprint_addr value base = write_digits number_buffer_size value base []

-- `sprintLong`; a negative number has one digit, below zero, and the loop ends there.
unfoldable pub sprint_long : ℤ → ℕ → Option (List ℕ)
unfolding write_digits
sprint_long (pos n) base = write_digits number_buffer_size n base []
sprint_long (negsuc n) base = some ((48 - (n + 1) % base) ∷ [])

-- What `va_arg` finds, with its type.
pub data Arg : Type 0 where
  address : ℕ → Arg
  size : ℕ → Arg
  int : ℤ → Arg
  long : ℤ → Arg
  string : Option (List ℕ) → Arg
  char : ℤ → Arg

-- The text of `DUMA_vsprintf`, the abort of a number, or behaviour that C leaves undefined: an
-- argument of another type, none left, or a pattern that ends behind a percent sign.
pub data Printed : Type 0 where
  text : List ℕ → Printed
  number_abort : Printed
  undefined : Printed

abbrev lead : List ℕ → Printed → Printed
lead front (text t) = text (front ++ t)
lead front number_abort = number_abort
lead front undefined = undefined

abbrev lead_number : List ℕ → Option (List ℕ) → Printed → Printed
lead_number sign none rest = number_abort
lead_number sign (some digits) rest = lead (sign ++ digits) rest

-- `-n` on `long`: the least number is its own negative.
unfoldable pub neg_long : ℤ → ℤ
neg_long (pos zero) = pos 0
neg_long (pos (suc n)) = negsuc n
neg_long (negsuc n) = if n == 2 ^ 63 - 1 then negsuc n else pos (n + 1)

-- The cases 'i' and 'l'.
unfoldable pub print_signed : ℤ → Printed → Printed
unfolding sprint_long neg_long
print_signed (pos n) rest = lead_number [] (sprint_long (pos n) 10) rest
print_signed (negsuc n) rest = lead_number (45 ∷ []) (sprint_long (neg_long (negsuc n)) 10) rest

-- `(char) c`
abbrev char_of : ℤ → ℕ
char_of (pos n) = n % 256
char_of (negsuc n) = 255 - n % 256

-- The cases of the switch that take an argument.
print_address : List Arg → (List Arg → Printed) → Printed
unfolding sprint_addr
print_address (address n ∷ args) next = lead_number [] (sprint_addr n 16) (next args)
print_address _ next = undefined

print_size : List Arg → (List Arg → Printed) → Printed
unfolding sprint_addr
print_size (size n ∷ args) next = lead_number [] (sprint_addr n 10) (next args)
print_size _ next = undefined

print_int : List Arg → (List Arg → Printed) → Printed
unfolding print_signed
print_int (int n ∷ args) next = print_signed n (next args)
print_int _ next = undefined

print_long : List Arg → (List Arg → Printed) → Printed
unfolding print_signed
print_long (long n ∷ args) next = print_signed n (next args)
print_long _ next = undefined

print_string : List Arg → (List Arg → Printed) → Printed
print_string (string none ∷ args) next = lead (78 ∷ 85 ∷ 76 ∷ 76 ∷ []) (next args)
print_string (string (some t) ∷ args) next = lead t (next args)
print_string _ next = undefined

print_char : List Arg → (List Arg → Printed) → Printed
print_char (char n ∷ args) next = lead (char_of n ∷ []) (next args)
print_char _ next = undefined

-- The switch on the character behind a percent sign; a bad one is reported elsewhere and skipped.
print_item : ℕ → List Arg → (List Arg → Printed) → Printed
unfolding print_address print_size print_int print_long print_string print_char
print_item c args next =
    if c == 37
    then lead (37 ∷ []) (next args)
    else if c == 97 || c == 120
    then print_address args next
    else if c == 100
    then print_size args next
    else if c == 105
    then print_int args next
    else if c == 108
    then print_long args next
    else if c == 115
    then print_string args next
    else if c == 99
    then print_char args next
    else next args

-- `DUMA_vsprintf`
unfoldable pub vsprintf : List ℕ → List Arg → Printed
unfolding print_item
vsprintf [] args = text []
vsprintf (c ∷ []) args = if c == 37 then undefined else text (c ∷ [])
vsprintf (c ∷ k ∷ rest) args =
    let plain = vsprintf (k ∷ rest) args in
    let next = vsprintf rest in if c == 37 then print_item k args next else lead (c ∷ []) plain
