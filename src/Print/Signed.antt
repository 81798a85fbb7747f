-- ===== src/Print/Signed.antt =====
-- What `DUMA_vsprintf` writes for a signed number, and for plain text.
use duma.Prelude.{
  ℕ, suc, ◌+◌, ◌-◌, ◌^◌, ◌≡◌, ◌≢◌, ◌≤◌, ◌<◌, refl, arith, false, some, List, [], ◌∷◌, ◌++◌, ◌==◌,
  get_elem?,
}
use duma.Prelude.Int.{ℤ, pos, negsuc, pos_part, neg_part}
use duma.Print.{sprint_addr, sprint_long, print_signed, neg_long, text, Arg, vsprintf}
use duma.Print.Digits.{read_digits, sprint_addr-read}

abbrev pub sign : ℤ → List ℕ
sign (pos n) = []
sign (negsuc n) = 45 ∷ []

decimal :
    (n : ℕ) → n ≤ 2 ^ 63 → (t : List ℕ) × (sprint_addr n 10 ≡ some t) × (read_digits 10 0 t ≡ n)
decimal n small = sprint_addr-read n 10 (omega arith) (omega arith) (omega arith)

-- A `long` other than the least one is written as its sign and digits that read as its absolute
-- value.
pub print_signed_lem :
    (z : ℤ) (rest : List ℕ)
    → pos_part z < 2 ^ 63
    → neg_part z < 2 ^ 63
    → (t : List ℕ) × (print_signed z (text rest) ≡ text ((sign z ++ t) ++ rest))
      × (read_digits 10 0 t ≡ pos_part z + neg_part z)
unfolding print_signed sprint_long neg_long sprint_addr
print_signed_lem (pos n) rest small _ =
    let (t, e, same) = decimal n (omega arith) in (t, rw e refl, ground (arith, same))
print_signed_lem (negsuc n) rest _ small =
    let (t, e, same) = decimal (n + 1) (omega arith) in
    let not_least : (n == 2 ^ 63 - 1) ≡ false = ground arith in
    (t, rw (not_least, e) refl, ground (arith, same))

-- A pattern without a percent sign is written as it stands.
pub vsprintf-plain :
    (pattern : List ℕ) (args : List Arg)
    → ((i c : ℕ) → get_elem? pattern i ≡ some c → c ≢ 37)
    → vsprintf pattern args ≡ text pattern
unfolding vsprintf
vsprintf-plain [] args h = refl
vsprintf-plain (c ∷ []) args h = let e : (c == 37) ≡ false = ground (arith, h 0 c refl) in rw e refl
vsprintf-plain (c ∷ k ∷ rest) args h =
    let e : (c == 37) ≡ false = ground (arith, h 0 c refl) in
    let same = vsprintf-plain (k ∷ rest) args (λ i. h (suc i)) in rw (e, same) refl
