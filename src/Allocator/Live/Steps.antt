-- ===== src/Allocator/Live/Steps.antt =====
-- The steps of `_duma_allocate` that bring no slot into use.
use duma.Words.Defs.{u64}
use duma.Prelude.{
  ◌∙◌, ◌*◌, ℕ, zero, suc, ◌&&◌, ◌==◌, if◌then◌else◌, ◌≡◌, inl, inr, refl, arith, Bool, true, false,
  none, Bool-cases,
}
use duma.Machine.Env.{Env}
use duma.Machine.State.{State}
use duma.Machine.Monad.{
  runs_out, aborts, M, Result, and_then, pure, Ensures, ensures, returns, Ensures-bind,
  Ensures-weaken, Ensures-test, Ensures-if,
}
use duma.Machine.Paging.{page_create}
use duma.Allocator.Reduce.{kilobytes, reduce_protected_memory}
use duma.Allocator.Reduce.Spared.{reduce_protected_memory-Beside}
use duma.Allocator.Chunk.{
  retry_fuel, retry, obtain, first_try, stay_below_limit, take_chunk, create_chunk,
}
use duma.Allocator.Live.{
  Kept, Kept-refl, Kept-trans, Same-Kept, Spared-Stay, update_slot-Stay, buffer_at,
}

module _ {W : Type 0} where
  -- A run that ends in a quiet state.
  abbrev pub Calm : {A : Type 0} → State W → Result (State W) A → Type 0
  Calm s r = Ensures (λ _ t. Kept s t) r

  pub then-Calm :
      {A B : Type 0} {s : State W} {m : Result (State W) A} {k : A → M W B}
      → Calm s m
      → ((a : A) (t : State W) → Kept s t → Calm t (k a t))
      → Calm s (and_then m k)
  then-Calm p next = Ensures-bind p λ a t q. Ensures-weaken (next a t q) λ _ r q'. Kept-trans q q'

module _ {W : Type 0} (env : Env W) where
  pub reduce-Calm : (n : ℕ) (s : State W) → Calm s (reduce_protected_memory env n s)
  reduce-Calm n s = Ensures-weaken (reduce_protected_memory-Beside env n s) λ _ t h. record {
    settings = h.2;
    null_addr = h.4;
    init_state = h.5;
    table = λ p. ground (arith, h.3);
    buffers = Spared-Stay env.page_size h.0;
  }

  pub page_create-Calm : (n : ℕ) (b b' : Bool) (s : State W) → Calm s (page_create env n b b' s)
  unfolding page_create
  page_create-Calm n b b' s = ensures _ (λ a t e. Same-Kept (ground arith))

  round_end :
      (f size kb : ℕ) (more : Bool) (a : ℕ) (s : State W)
      → Calm s (retry env f size kb s)
      → Calm s (
          (elim (more && a == 0) as (λ x. M W ℕ) [ true ↦ retry env f size kb | false ↦ pure a ]) s)
  round_end f size kb false a s next = returns (Kept-refl s)
  round_end f size kb true a s next = elim (Bool-cases (a == 0)) [
    | inl e ↦ rw e next
    | inr e ↦ rw e (returns (Kept-refl s))
  ]

  retry-Calm : (f size kb : ℕ) (s : State W) → Calm s (retry env f size kb s)
  unfolding retry
  retry-Calm zero size kb s = runs_out
  retry-Calm (suc f) size kb s = then-Calm (reduce-Calm kb s) λ more t _.
      then-Calm (page_create-Calm size false false t)
        λ a u _. round_end f size kb more a u (retry-Calm f size kb u)

  last_try :
      (size : ℕ) (b b' : Bool) (a : ℕ) (s : State W)
      → Calm s ((if b then page_create env size b' true else pure a) s)
  last_try size b b' a s =
      Ensures-if _ _ b (page_create-Calm size b' true s) (returns (Kept-refl s))

  pub obtain-Calm :
      (chunk count : ℕ) (b b' : Bool) (a : ℕ) (s : State W)
      → Calm s (obtain env chunk count b b' a s)
  unfolding obtain
  obtain-Calm chunk count b b' a s =
      let size = u64 (chunk * count) in
      let last : ℕ → M W ℕ = λ c. if c == 0 && b then page_create env size b' true else pure c in
      Ensures-test _
        (then-Calm {k = last} (retry-Calm (retry_fuel env s) size (kilobytes chunk) s)
          λ c t _. last_try size (c == 0 && b) b' c t)
        (returns {a = a} (Kept-refl s))

  stay_below_limit-Calm : (kb : ℕ) (s : State W) → Calm s (stay_below_limit env kb s)
  unfolding stay_below_limit
  stay_below_limit-Calm kb s =
      Ensures-test _ (then-Calm (reduce-Calm kb s) λ _ t _. returns (Kept-refl t))
        (returns (Kept-refl s))

  first_try-Calm : (chunk size : ℕ) (s : State W) → Calm s (first_try env chunk size s)
  unfolding first_try
  first_try-Calm chunk size s = Ensures-test _ (returns (Kept-refl s)) (
      Ensures-test _ aborts
        (then-Calm (page_create-Calm _ false false s) λ a t _. returns (Kept-refl t)))

  take_chunk-Calm :
      (i chunk count a : ℕ) (s : State W)
      → buffer_at s.slots i ≡ none
      → Calm s (take_chunk env i chunk count a s)
  unfolding take_chunk
  take_chunk-Calm i chunk count a s idle = Ensures-test _ (returns (Kept-refl s)) (
      returns (record {
        settings = refl;
        null_addr = refl;
        init_state = refl;
        table = λ p. p;
        buffers = update_slot-Stay s.slots i _ idle (λ u e. refl);
      }))

  pub create_chunk-Calm :
      (needed size : ℕ) (b : Bool) (i : ℕ) (s : State W)
      → buffer_at s.slots i ≡ none
      → Calm s (create_chunk env needed size b i s)
  unfolding create_chunk
  create_chunk-Calm needed size b i s idle = then-Calm (stay_below_limit-Calm _ s) λ _ s1 q1.
      then-Calm (first_try-Calm _ size s1) λ (count, a) s2 q2.
        then-Calm (obtain-Calm _ count b _ a s2) λ c s3 q3.
          take_chunk-Calm i _ count c s3 (q3.buffers i ∙ q2.buffers i ∙ q1.buffers i ∙ idle)
