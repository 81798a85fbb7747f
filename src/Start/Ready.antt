-- ===== src/Start/Ready.antt =====
-- The start of a process from its first call of `_duma_init`.
use mathlib.Core.Path.{subst}
use duma.Prelude.{
  ◌/◌, ◌-◌, ◌∙◌, ℕ, ◌<◌, ◌≡◌, inl, inr, refl, ap, sym, arith, true, false, ◌∷◌, suc, ◌==◌,
  if◌then◌else◌, Bool-cases,
}
use duma.Prelude.Int.{pos}
use duma.Machine.Env.{Env}
use duma.Machine.State.{State, uninitialized, in_constructor, out_constructor, in_init, out_init}
use duma.Machine.Monad.{
  M, ok, fault, Abort, and_then, when, stop, Ensures, returns, aborts, faults, Ensures-bind,
  Ensures-weaken,
}
use duma.Allocator.Guard.Same.{init_sem-Same, get_sem-Same, rel_sem-Same, page_deny_access-Same}
use duma.Allocator.Live.{Same-Kept}
use duma.Allocator.Live.Calls.{
  Steady, Steady-trans, Kept-Steady, Answered-Steady, Disposed-Steady, malloc-Answered,
  free-Disposed,
}
use duma.Allocator.Live.Allocation.{when-Calm}
use duma.Start.Table.{is_constructed, is_initialized, set_init_state, construct}
use duma.Start.Variables.Effect.{IsUsable, IsComplete, getenvvars-IsComplete}
use duma.Start.{test_binding, initialize, call_init, construct_once, init_process, begin}
use duma.Allocator.Live.Steps.{page_create-Calm}
use duma.Allocator.Grow.{fresh_slots}
use duma.Words.Defs.{sub64}
use duma.Start.Table.{table_slot, make_null_block, first_table, first_size, rest_slot}
use duma.Start.Once.{same_run, initialize_either}

module _ {W : Type 0} (env : Env W) where
  make_null_block-Steady : (s : State W) → Ensures (λ _ t. Steady s t) (make_null_block env s)
  unfolding make_null_block
  make_null_block-Steady s = Ensures-bind (page_create-Calm env _ true true s) λ b s1 k1.
      Ensures-bind (when-Calm env (b == 0) (stop (Abort.mmap_failed 0)) s1 aborts) λ _ s2 k2.
        Ensures-bind (page_deny_access-Same env b _ s2) λ _ s3 same.
          let before : Steady s s2 = Steady-trans (Kept-Steady k1) (Kept-Steady k2) in
          let behind : Steady s2 s3 = Kept-Steady (Same-Kept same) in
          let now : Steady s s3 = Steady-trans before behind in
          returns
            (record { settings = now.settings; init_state = now.init_state; table = now.table })

  not_null :
      (b : ℕ) (s : State W) → Ensures (λ _ t. (t ≡ s) × (0 < b)) (when (b == 0) (λ _. fault) s)
  not_null b s = elim (Bool-cases (b == 0)) [
    | inl h ↦ rw h faults
    | inr h ↦ rw h (returns (refl, ground (arith, h)))
  ]

  -- The construction for a process that has begun it.
  construct-Built :
      (s : State W)
      → s.init_state ≡ in_constructor
      → Ensures
          (λ _ t. (0 < t.alloc_list) × (t.init_state ≡ out_constructor) × (t.settings ≡ s.settings))
          (construct env s)
  unfolding construct first_table set_init_state
  construct-Built s begun = Ensures-bind (make_null_block-Steady s) λ _ s1 k1.
      Ensures-bind (page_create-Calm env _ false false s1) λ b s3 k3.
        Ensures-bind (not_null b s3) λ _ s4 (e4, real).
          let before : Steady s s4 = rw e4 (Steady-trans k1 (Kept-Steady k3)) in
          Ensures-bind
            (page_deny_access-Same env (rest_slot env b (first_size env)).internal_address
              (rest_slot env b (first_size env)).internal_size (built b s4))
            λ _ s5 same.
              let begun5 : s5.init_state ≡ in_constructor =
                same.init_state ∙ before.init_state ∙ begun in
              let there : 0 < s5.alloc_list = ground (arith, same.alloc_list, real) in
              rw begun5 (returns (there, refl, same.settings ∙ before.settings))
    where
      built : ℕ → State W → State W
      built b s = record s {
        alloc_list = b;
        alloc_list_size = env.page_size;
        slots_per_page = env.page_size / env.slot_size;
        slots =
            table_slot env b
            ∷ rest_slot env b (first_size env)
            ∷ fresh_slots (env.page_size / env.slot_size - 2);
        unused_slots = sub64 (env.page_size / env.slot_size) 2;
      }

  test_binding-Steady :
      (init : M W (Unit {0})) (s : State W)
      → 0 < s.alloc_list
      → Ensures (λ _ t. Steady s t) (test_binding env init s)
  unfolding test_binding
  test_binding-Steady init s there =
      Ensures-bind (malloc-Answered env init env.unknown_file (pos 0) 123 s there) λ a s1 q.
        Ensures-bind (when-Calm env (s1.num_allocs == 0) (stop Abort.not_bound) s1 aborts)
          λ _ s2 k2.
            let so_far : Steady s s2 = Steady-trans (Answered-Steady q) (Kept-Steady k2) in
            Ensures-bind (free-Disposed env init env.unknown_file (pos 0) a s2 (so_far.table there))
              λ _ s3 d.
                Ensures-weaken
                  (when-Calm env (s3.num_deallocs == 0) (stop Abort.not_bound) s3 aborts)
                  λ _ s4 k4. Steady-trans so_far (Steady-trans (Disposed-Steady d) (Kept-Steady k4))

  -- `duma_init` where the construction is done.
  initialize-Complete :
      (init : M W (Unit {0})) (s : State W)
      → s.init_state ≡ out_constructor
      → 0 < s.alloc_list
      → IsUsable s.settings
      → Ensures
          (λ _ t. (t.init_state ≡ out_init) × (0 < t.alloc_list) × IsComplete t.settings)
          (call_init env init s)
  unfolding call_init initialize set_init_state test_binding
  initialize-Complete init s constructed there usable =
      let s' : State W = record s { init_state = in_init } in
      rw (call_init, initialize, constructed)
        (Ensures-bind (getenvvars-IsComplete env init s' usable there) λ _ s1 (complete, there1).
          Ensures-bind (init_sem-Same env s1) λ _ s2 same2.
            let there2 : 0 < s2.alloc_list = ground (arith, same2.alloc_list, there1) in
            Ensures-bind (test_binding-Steady init s2 there2) λ _ s3 k3.
              let same3 : s3.settings ≡ s1.settings = k3.settings ∙ same2.settings in
              returns (refl, k3.table there2, rw same3 complete))

  call_init_either :
      (init init' : M W (Unit {0})) (s : State W)
      → 0 < s.alloc_list
      → call_init env init s ≡ call_init env init' s
  unfolding call_init
  call_init_either init init' s there =
      ap (λ r. if is_initialized s.init_state then ok tt s else r)
        (initialize_either env init init' s there)

  construct_once-Built :
      (s : State W)
      → s.init_state ≡ in_constructor
      → Ensures
          (λ _ t. (0 < t.alloc_list) × (t.init_state ≡ out_constructor) × (t.settings ≡ s.settings))
          (construct_once env s)
  unfolding construct_once
  construct_once-Built s begun =
      subst
        (λ b.
          Ensures
            (λ _ t.
              (0 < t.alloc_list) × (t.init_state ≡ out_constructor) × (t.settings ≡ s.settings))
            (if b then ok tt s else construct env s))
        (sym (ap is_constructed begun)) (construct-Built s begun)

  -- The first call of `_duma_init`, up to the last step.
  begin-Built :
      (s : State W)
      → s.init_state ≡ uninitialized
      → Ensures
          (λ _ t. (0 < t.alloc_list) × (t.init_state ≡ out_constructor) × (t.settings ≡ s.settings))
          (begin env s)
  unfolding begin set_init_state construct_once
  begin-Built s first =
      let s' : State W = record s { init_state = in_constructor } in
      rw first (
        Ensures-bind (when-Calm env _ (stop Abort.bad_page_size) s' aborts) λ _ s1 k1.
          Ensures-bind (get_sem-Same env s1) λ _ s2 e2.
            let begun : s2.init_state ≡ in_constructor = e2.init_state ∙ k1.init_state in
            Ensures-bind (construct_once-Built s2 begun) λ _ s3 (there, constructed, same).
              Ensures-weaken (rel_sem-Same env s3) λ _ s4 e4. (
                ground (arith, e4.alloc_list, there),
                e4.init_state ∙ constructed,
                e4.settings ∙ same ∙ e2.settings ∙ k1.settings,
              ))

  -- The first call has both parts.
  first_call :
      (f : ℕ) (s : State W)
      → s.init_state ≡ uninitialized
      → init_process env (suc f) s
        ≡ and_then (begin env s) (λ _. call_init env (init_process env f))
  unfolding init_process
  first_call f s first =
      ap
        (λ b.
          if b
          then call_init env (init_process env f) s
          else and_then (begin env s) (λ _. call_init env (init_process env f)))
        (ap is_constructed first)

  -- For a process that has not begun and whose settings are usable, as the initial ones are: whenever
  -- the first call of `_duma_init` returns, the slot table is there, the initialisation is marked as
  -- done, and the settings are complete, whatever the environment holds.
  pub init_process-Ready :
      (f : ℕ) (s : State W)
      → s.init_state ≡ uninitialized
      → IsUsable s.settings
      → Ensures
          (λ _ t. (t.init_state ≡ out_init) × (0 < t.alloc_list) × IsComplete t.settings)
          (init_process env (suc f) s)
  init_process-Ready f s first usable = rw (first_call f s first) (
      Ensures-bind (begin-Built s first) λ _ s1 (there, constructed, same).
        initialize-Complete (init_process env f) s1 constructed there (rw same usable))

  -- The first call of `_duma_init` does not call itself through `malloc`, `free` or `strdup`: it does
  -- the same whatever depth of calls it is allowed, and the least is enough.
  pub init_process-depth :
      (f : ℕ) (s : State W)
      → s.init_state ≡ uninitialized
      → init_process env (suc f) s ≡ init_process env 1 s
  init_process-depth f s first =
      first_call f s first
      ∙ same_run (begin-Built s first) (λ _ s1 (there, constructed, same).
        call_init_either (init_process env f) (init_process env 0) s1 there)
      ∙ sym (first_call 0 s first)
