-- ===== src/Start/Once.antt =====
-- `duma_init` and the call of `_duma_init` in `malloc`, where the table is there.
use duma.Prelude.{
  ◌%◌, ℕ, ◌<◌, ◌≡◌, inl, inr, refl, ap, arith, List, [], ◌∷◌, ◌==◌, Option-cases, Bool-cases,
}
use duma.Prelude.Int.{ℤ, pos}
use duma.Machine.Env.{Env}
use duma.Machine.State.{Settings, State, in_init}
use duma.Machine.Monad.{
  M, Result, Abort, and_then, stop, Ensures, returns, aborts, waits, faults, runs_out, Ensures-bind,
  Ensures-weaken,
}
use duma.Allocator.Guard.Same.{init_sem-Same}
use duma.Allocator.Live.Calls.{
  Answered-Steady, malloc-Answered, malloc_either, free_either, strdup_either,
}
use duma.Allocator.Live.Allocation.{when-Calm}
use duma.Start.Getenv.{getenv}
use duma.Start.Table.{is_initializing, set_init_state}
use duma.Start.Variables.{
  getenvvars, if_set, set_text, set_flag, set_outputs, set_numbers, mask_slackfill, first_readers,
  second_readers, last_readers, output_readers, Reader, OutputReader, flag, text,
}
use duma.Start.Variables.Effect.{
  if_set-Well, set_flag-Well, set_text-Well, set_numbers-Well, set_outputs-Well, Keep,
}
use duma.Start.{test_binding, initialize}

-- Two continuations that agree where the run may end.
pub same_run :
    {S A B : Type 0} {P : A → S → Type 0} {r : Result S A} {k k' : A → S → Result S B}
    → Ensures P r
    → ((a : A) (s : S) → P a s → k a s ≡ k' a s)
    → and_then r k ≡ and_then r k'
same_run (returns p) h = h _ _ p
same_run aborts h = refl
same_run waits h = refl
same_run faults h = refl
same_run runs_out h = refl

abbrev Anything : Settings → Type 0
Anything x = Unit

module _ {W : Type 0} (env : Env W) (init : M W (Unit {0})) where
  Keep-all : (rs : List Reader) → Keep env init Anything rs
  Keep-all [] = tt
  Keep-all ((name, kind, change) ∷ rest) = ((λ n x h. tt), Keep-all rest)

  getenvvars-there :
      (s : State W) → 0 < s.alloc_list → Ensures (λ _ t. 0 < t.alloc_list) (getenvvars env init s)
  unfolding getenvvars mask_slackfill
  getenvvars-there s there =
      Ensures-bind
        (set_numbers-Well env init Anything first_readers (Keep-all first_readers) s (tt, there))
        λ _ s1 g1.
          Ensures-bind
            (set_numbers-Well env init Anything second_readers (Keep-all second_readers)
              (record s1 {
                settings = record s1.settings { slackfill = s1.settings.slackfill % 256 };
              })
              g1)
            λ _ s2 g2.
              Ensures-bind (set_outputs-Well env init Anything output_readers s2 g2) λ _ s3 g3.
                Ensures-weaken
                  (set_numbers-Well env init Anything last_readers (Keep-all last_readers) s3 g3)
                  λ _ s4 g4. g4.1

module _ {W : Type 0} (env : Env W) (init init' : M W (Unit {0})) where
  set_text_either :
      (line : ℤ) (change : _) (string : ℕ) (s : State W)
      → 0 < s.alloc_list
      → set_text env init line change string s ≡ set_text env init' line change string s
  unfolding set_text
  set_text_either line change string s there =
      rw (strdup_either env init init' env.this_file line s there string) refl

  if_set_either :
      (name : List ℕ) (m m' : ℕ → M W (Unit {0})) (s : State W)
      → ((a : ℕ) → m a s ≡ m' a s)
      → if_set env name m s ≡ if_set env name m' s
  unfolding if_set
  if_set_either name m m' s h = elim (Option-cases (getenv name env.environ s.memory)) [
    | inl e ↦ rw (if_set, e) refl
    | inr (a, e) ↦ rw (if_set, e) (h a)
  ]

  set_outputs_either :
      (rs : List OutputReader) (s : State W)
      → 0 < s.alloc_list
      → set_outputs env init rs s ≡ set_outputs env init' rs s
  unfolding set_outputs
  set_outputs_either [] s there = refl
  set_outputs_either (flag name change ∷ rest) s there =
      same_run
        (if_set-Well env init Anything name (set_flag env change)
          (set_flag-Well env init Anything change) s (tt, there))
        λ _ t g. set_outputs_either rest t g.1
  set_outputs_either (text name line change ∷ rest) s there =
      let e =
        if_set_either name (set_text env init line change) (set_text env init' line change) s
          λ a. set_text_either line change a s there in
      rw e (
        same_run
          (if_set-Well env init' Anything name (set_text env init' line change)
            (set_text-Well env init' Anything line change) s (tt, there))
          λ _ t g. set_outputs_either rest t g.1)

  getenvvars_either :
      (s : State W) → 0 < s.alloc_list → getenvvars env init s ≡ getenvvars env init' s
  unfolding getenvvars mask_slackfill
  getenvvars_either s there =
      same_run
        (set_numbers-Well env init Anything first_readers (Keep-all env init first_readers) s
          (tt, there))
        λ _ s1 g1.
          same_run
            (set_numbers-Well env init Anything second_readers (Keep-all env init second_readers)
              (record s1 {
                settings = record s1.settings { slackfill = s1.settings.slackfill % 256 };
              })
              g1)
            λ _ s2 g2.
              ap (λ r. and_then r (λ _. set_numbers env last_readers))
                (set_outputs_either output_readers s2 g2.1)

  test_binding_either :
      (s : State W) → 0 < s.alloc_list → test_binding env init s ≡ test_binding env init' s
  unfolding test_binding
  test_binding_either s there =
      rw (malloc_either env init init' env.unknown_file (pos 0) s there 123) (
        same_run (malloc-Answered env init' env.unknown_file (pos 0) 123 s there) λ a s1 q.
          same_run (when-Calm env (s1.num_allocs == 0) (stop Abort.not_bound) s1 aborts) λ _ s2 k.
            let there2 : 0 < s2.alloc_list = k.table ((Answered-Steady q).table there) in
            rw (free_either env init init' env.unknown_file (pos 0) s2 there2 a) refl)

  pub initialize_either :
      (s : State W) → 0 < s.alloc_list → initialize env init s ≡ initialize env init' s
  unfolding initialize set_init_state
  initialize_either s there = elim (Bool-cases (is_initializing s.init_state)) [
    | inl e ↦ rw (initialize, e) refl
    | inr e ↦
        let s' : State W = record s { init_state = in_init } in
        rw (initialize, e, getenvvars_either s' there)
          (same_run (getenvvars-there env init' s' there) λ _ s1 h.
            same_run (init_sem-Same env s1) λ _ s2 same.
              let there2 : 0 < s2.alloc_list = ground (arith, h, same.alloc_list) in
              rw (test_binding_either s2 there2) refl)
  ]
