-- ===== src/Print/Output.antt =====
-- `DUMA_Print`, `DUMA_Abort`, `DUMA_Exit`, `DUMA_sprintf` and `DUMA_strerror` of src/print.c, with the
-- calls of `write` as values.
use duma.Prelude.{
  ap, ◌∙◌, ◌≡◌, refl, ℕ, Bool, not, ◌&&◌, ◌||◌, List, [], ◌∷◌, ◌++◌, length, ltb, ◌==◌,
  if◌then◌else◌, some,
}
use duma.Prelude.Int.{ℤ}
use Prim.Native.Char.{code}
use Prim.Native.String.{String}
use duma.Machine.State.{Outputs}
use duma.Print.{Arg, int, string, Printed, text, number_abort, undefined, vsprintf}

-- The characters of a literal.
abbrev pub codes : String → List ℕ
codes String.[] = []
codes (String.◌∷◌ c s) = code c ∷ codes s

-- The descriptors 1 and 2, and the file of DUMA_OUTPUT_FILE.
pub data Destination : Type 0 where
  stdout stderr : Destination
  file : ℕ → Destination

pub data Write : Type 0 where
  write : Destination → List ℕ → Write

-- What a call does: it returns, it ends the process, a number's printing has ended it before, or
-- the behaviour is undefined, where a text does not fit into its buffer.
pub data Effect : Type 0 where
  returns : List Write → Effect
  ends : List Write → Effect
  stopped : Effect
  not_defined : Effect

-- STRING_BUFFER_SIZE
abbrev pub string_buffer_size : ℕ
string_buffer_size = 4096

-- The characters that `DUMA_vsprintf` knows behind a percent sign.
unfoldable pub is_known : ℕ → Bool
is_known c =
    c == b'%'
    || c == b'a'
    || c == b'x'
    || c == b'd'
    || c == b'i'
    || c == b'l'
    || c == b's'
    || c == b'c'

-- The characters that it reports, in their order.
unfoldable pub bad_items : List ℕ → List ℕ
unfolding is_known
bad_items [] = []
bad_items (c ∷ []) = []
bad_items (c ∷ k ∷ rest) =
    let plain = bad_items (k ∷ rest) in
    let next = bad_items rest in
    if c == b'%' then (if is_known k then next else k ∷ next) else plain

-- The calls of `write` for a text; `opens` tells whether the file can be opened.
unfoldable pub write_all : Outputs → Bool → List ℕ → List Write
write_all o opens t =
    (if o.stdout then write stdout t ∷ [] else [])
    ++ (if o.stderr then write stderr t ∷ [] else [])
    ++ (if not (o.file == 0) && opens then write (file o.file) t ∷ [] else [])

abbrev pub bad_pattern : ℕ → List ℕ
bad_pattern c =
    10 ∷ codes "DUMA: Bad pattern specifier %" ++ c ∷ codes " in DUMA_Print()." ++ 10 ∷ []

-- The reports of bad characters; each is a call of `DUMA_Print`.
unfoldable pub report_all : Outputs → Bool → List ℕ → List Write
unfolding write_all
report_all o opens [] = []
report_all o opens (c ∷ rest) = write_all o opens (bad_pattern c) ++ report_all o opens rest

-- A text in a buffer of STRING_BUFFER_SIZE, with its final zero.
unfoldable pub fits : List ℕ → Bool
fits t = ltb (length t) string_buffer_size

unfoldable pub show : Outputs → Bool → List ℕ → Effect
unfolding fits write_all
show o opens t = if fits t then returns (write_all o opens t) else not_defined

abbrev pub preceded : List Write → Effect → Effect
preceded front (returns ws) = returns (front ++ ws)
preceded front (ends ws) = ends (front ++ ws)
preceded front stopped = stopped
preceded front not_defined = not_defined

abbrev pub with_text : Printed → (List ℕ → Effect) → Effect
with_text (text t) use_text = use_text t
with_text number_abort use_text = stopped
with_text undefined use_text = not_defined

preceded_nil : (e : Effect) → preceded [] e ≡ e
preceded_nil (returns ws) = refl
preceded_nil (ends ws) = refl
preceded_nil stopped = refl
preceded_nil not_defined = refl

-- `DUMA_Print`
unfoldable pub print : Outputs → Bool → List ℕ → List Arg → Effect
unfolding vsprintf bad_items report_all show
print o opens pattern args =
    preceded (report_all o opens (bad_items pattern))
      (with_text (vsprintf pattern args) (show o opens))

abbrev pub at_end : Effect → Effect
at_end (returns ws) = ends ws
at_end e = e

-- What `DUMA_Abort` and `DUMA_Exit` print before the end of the process.
unfoldable pub print_last : List ℕ → Outputs → Bool → List ℕ → List Arg → Effect
unfolding vsprintf bad_items report_all print fits
print_last heading o opens pattern args = preceded (report_all o opens (bad_items pattern)) (
    with_text (vsprintf pattern args) (λ t.
      let whole = heading ++ t ++ 10 ∷ [] in
      if fits whole
      then at_end (print o opens (codes "%s") (string (some whole) ∷ []))
      else not_defined))

-- `DUMA_Abort`, up to the signal, and `DUMA_Exit`.
unfoldable pub print_abort : Outputs → Bool → List ℕ → List Arg → Effect
unfolding print_last
print_abort = print_last (10 ∷ codes "DUMA Aborting: ")

unfoldable pub print_exit : Outputs → Bool → List ℕ → List Arg → Effect
unfolding print_last
print_exit = print_last (10 ∷ codes "DUMA Exiting: ")

-- `DUMA_sprintf`: the text in the buffer of the caller.
unfoldable pub sprintf : List ℕ → List Arg → Printed
unfolding vsprintf
sprintf pattern args = vsprintf pattern args

-- `DUMA_strerror`
unfoldable pub strerror : ℤ → Printed
unfolding sprintf
strerror errno =
    sprintf (codes "System Error Number 'errno' from Standard C Library is %i" ++ 10 ∷ [])
      (int errno ∷ [])

append_nil : (t : List ℕ) → t ++ [] ≡ t
append_nil [] = refl
append_nil (c ∷ rest) = ap (λ u. c ∷ u) (append_nil rest)

-- A text by itself.
pub print_text :
    (o : Outputs) (opens : Bool) (t : List ℕ)
    → print o opens (codes "%s") (string (some t) ∷ []) ≡ show o opens t
unfolding print vsprintf bad_items report_all
print_text o opens t =
    let e = append_nil t in ap (λ u. preceded [] (show o opens u)) e ∙ preceded_nil (show o opens t)
