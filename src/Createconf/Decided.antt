-- ===== src/Createconf/Decided.antt =====
-- The macros that the lines of duma_config.h decide, whatever was defined before them.
use duma.Prelude.{
  refl, ◌≡◌, inl, inr, arith, Bool, true, false, ◌||◌, List, [], ◌∷◌, ◌==◌, Bool-cases,
}
use duma.Createconf.Switches.{
  Macro, number_of, Line, undefine, define, set, after_line, after_lines,
}

abbrev target : Line → Macro
target (undefine m) = m
target (define m) = m
target (set m) = m

-- Whether a line names the macro.
unfoldable pub is_named : Macro → List Line → Bool
is_named k [] = false
is_named k (l ∷ rest) = (number_of k == number_of (target l)) || is_named k rest

-- A line sets its own macro and keeps what is known of any other.
line_keeps :
    (l : Line) (before before' : Macro → Bool) (k : Macro)
    → before k ≡ before' k
    → after_line l before k ≡ after_line l before' k
unfolding after_line
line_keeps (undefine m) before before' k e = ground (arith, e)
line_keeps (define m) before before' k e = ground (arith, e)
line_keeps (set m) before before' k e = ground (arith, e)

line_sets :
    (l : Line) (before before' : Macro → Bool) (k : Macro)
    → (number_of k == number_of (target l)) ≡ true
    → after_line l before k ≡ after_line l before' k
unfolding after_line
line_sets (undefine m) before before' k e = rw e refl
line_sets (define m) before before' k e = rw e refl
line_sets (set m) before before' k e = rw e refl

lines_keep :
    (ls : List Line) (before before' : Macro → Bool) (k : Macro)
    → before k ≡ before' k
    → after_lines ls before k ≡ after_lines ls before' k
unfolding after_lines
lines_keep [] before before' k e = e
lines_keep (l ∷ rest) before before' k e =
    lines_keep rest (after_line l before) (after_line l before') k (line_keeps l before before' k e)

-- A macro that some line names is defined or not behind the lines, whatever was defined before.
pub after_lines-same :
    (ls : List Line) (before before' : Macro → Bool) (k : Macro)
    → is_named k ls ≡ true
    → after_lines ls before k ≡ after_lines ls before' k
unfolding after_lines is_named
after_lines-same [] before before' k h = ground (arith, h)
after_lines-same (l ∷ rest) before before' k h =
    elim (Bool-cases (number_of k == number_of (target l))) [
      | inl e ↦
          lines_keep rest (after_line l before) (after_line l before') k
            (line_sets l before before' k e)
      | inr e ↦ after_lines-same rest (after_line l before) (after_line l before') k (rw e at h)
    ]
