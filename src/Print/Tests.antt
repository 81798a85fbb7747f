-- ===== src/Print/Tests.antt =====
-- Numbers and patterns that are printed.
use duma.Prelude.{ℕ, ◌-◌, ◌^◌, ◌≡◌, ◌≤◌, ◌↔◌, refl, none, some, List, [], ◌∷◌, ◌++◌, arith}
use duma.Prelude.Int.{negsuc}
use duma.Print.{sprint_addr, print_signed, Arg, Printed, vsprintf}
use duma.Print.Digits.{read_digits, sprint_addr-read, sprint_addr-aborts_iff}
use duma.Print.Signed.{print_signed_lem}

-- 255 in base 16 is "ff".
hexadecimal : sprint_addr 255 16 ≡ some (102 ∷ 102 ∷ [])
unfolding sprint_addr
hexadecimal = refl

-- "a%d-%i" with 42 and -7.
formatted :
    vsprintf (97 ∷ 37 ∷ 100 ∷ 45 ∷ 37 ∷ 105 ∷ []) (Arg.size 42 ∷ Arg.int (negsuc 6) ∷ [])
    ≡ Printed.text (97 ∷ 52 ∷ 50 ∷ 45 ∷ 45 ∷ 55 ∷ [])
unfolding vsprintf
formatted = refl

-- The least `long` is written as "-(".
least : print_signed (negsuc (2 ^ 63 - 1)) (Printed.text []) ≡ Printed.text (45 ∷ 40 ∷ [])
unfolding print_signed
least = refl

sprint_addr-read_example :
    (t : List ℕ) × (sprint_addr 65535 16 ≡ some t) × (read_digits 16 0 t ≡ 65535)
sprint_addr-read_example = sprint_addr-read 65535 16 (omega arith) (omega arith) (omega arith)

sprint_addr-aborts_iff_example : (sprint_addr (2 ^ 63) 2 ≡ none) ↔ (2 ^ 63 ≤ 2 ^ 63)
sprint_addr-aborts_iff_example = sprint_addr-aborts_iff (2 ^ 63) 2 (omega arith) (omega arith)

print_signed_lem_example :
    (t : List ℕ) × (print_signed (negsuc 41) (Printed.text []) ≡ Printed.text ((45 ∷ t) ++ []))
    × (read_digits 10 0 t ≡ 42)
print_signed_lem_example = print_signed_lem (negsuc 41) [] (omega arith) (omega arith)
