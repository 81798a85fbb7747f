-- ===== src/Allocator/Finish.antt =====
-- Whether runs of the allocator come to an end: the notion, and the small steps.
pub mod Regions
pub mod Whole
use duma.Prelude.{
  ℕ, ◌≡◌, ◌≢◌, inl, inr, refl, arith, Bool, true, false, not, ◌&&◌, none, some, ◌==◌, if◌then◌else◌,
  ltb, Option, Option-cases, Bool-cases, get_elem?, ◌*◌, zero, suc, length, ◌+◌,
}
use duma.Words.Defs.{u64}
use duma.Machine.Env.{Env, Protection}
use duma.Machine.State.{State}
use duma.Machine.Monad.{
  Result, ok, abort, Abort, blocked, fault, out_of_fuel, and_then, M, ◌>>=◌, ◌>>◌, when, pure, get,
}
use duma.Machine.Paging.{page_create, page_allow_access, page_deny_access, page_delete}
use duma.Machine.Lock.{get_sem, rel_sem, lock, unlock, init_sem}
use duma.Allocator.Guard.{enter, leave, check_now_and_then}
use duma.Allocator.Reduce.{reduce_protected_memory, kilobytes}
use duma.Allocator.Reduce.Steps.{Ends-fuel, reduce_protected_memory-Ends}
use duma.Allocator.Request.{Request, plan, zero_plan, strategy}
use duma.Allocator.Region.{split_slot, place, commit, use_region}
use duma.Allocator.Chunk.{
  retry, retry_fuel, obtain, first_try, stay_below_limit, take_chunk, create_chunk,
}
use duma.Allocator.Chunk.Fuel.{retry-ends_in_time}

-- A run that does not use up its rounds.
abbrev pub InTime : {S A : Type 0} → Result S A → Type 0
InTime r = r ≢ out_of_fuel

module _ {S A B : Type 0} where
  pub InTime-bind :
      {k : A → S → Result S B} (r : Result S A)
      → InTime r
      → ((a : A) (s : S) → InTime (k a s))
      → InTime (and_then r k)
  InTime-bind (ok a s) h next = next a s
  InTime-bind (abort e) h next = λ e'. cc
  InTime-bind blocked h next = λ e. cc
  InTime-bind fault h next = λ e. cc
  InTime-bind out_of_fuel h next = λ e. h refl

module _ {S A : Type 0} where
  pub InTime-ok : (a : A) (s : S) → InTime (ok a s)
  InTime-ok a s e = cc

  pub InTime-abort : (a : Abort) → InTime {S = S} {A = A} (abort a)
  InTime-abort a e = cc

  pub InTime-test :
      {r r' : Result S A} (b : Bool) → InTime r → InTime r' → InTime (if b then r else r')
  InTime-test true h h' = h
  InTime-test false h h' = h'

  pub InTime-if :
      (m m' : S → Result S A) (s : S) (b : Bool)
      → InTime (m s)
      → InTime (m' s)
      → InTime ((if b then m else m') s)
  InTime-if m m' s true h h' = h
  InTime-if m m' s false h h' = h'

module _ {W : Type 0} (env : Env W) where
  pub page_create-InTime : (n : ℕ) (b b' : Bool) (s : State W) → InTime (page_create env n b b' s)
  unfolding page_create
  page_create-InTime n b b' s = λ e. ground (arith, e)

  pub page_allow_access-InTime : (a n : ℕ) (s : State W) → InTime (page_allow_access env a n s)
  unfolding page_allow_access
  page_allow_access-InTime a n s = λ e. ground (arith, e)

  pub page_deny_access-InTime : (a n : ℕ) (s : State W) → InTime (page_deny_access env a n s)
  unfolding page_deny_access
  page_deny_access-InTime a n s = λ e. ground (arith, e)

  pub page_delete-InTime : (a n : ℕ) (s : State W) → InTime (page_delete env a n s)
  unfolding page_delete
  page_delete-InTime a n s = λ e. ground (arith, e)

  get_sem-InTime : (s : State W) → InTime (get_sem env s)
  unfolding get_sem lock init_sem
  get_sem-InTime s = λ e. ground (arith, e)

  rel_sem-InTime : (s : State W) → InTime (rel_sem env s)
  unfolding rel_sem unlock
  rel_sem-InTime s = λ e. ground (arith, e)

  pub enter-InTime : (b : Bool) (s : State W) → InTime (enter env b s)
  unfolding enter
  enter-InTime true s =
      InTime-bind (get_sem env s) (get_sem-InTime s) λ _ t. page_allow_access-InTime _ _ t
  enter-InTime false s = InTime-ok tt s

  pub leave-InTime : (b : Bool) (s : State W) → InTime (leave env b s)
  unfolding leave
  leave-InTime true s =
      InTime-bind (page_deny_access env _ _ s) (page_deny_access-InTime _ _ s)
        λ _ t. rel_sem-InTime t
  leave-InTime false s = InTime-ok tt s

  pub check_now_and_then-InTime : (s : State W) → InTime (check_now_and_then env s)
  unfolding check_now_and_then
  check_now_and_then-InTime s = λ e. ground (arith, e)

  pub reduce-InTime : (n : ℕ) (s : State W) → InTime (reduce_protected_memory env n s)
  reduce-InTime n s = Ends-fuel (reduce_protected_memory-Ends env n s)

  pub obtain-InTime :
      (chunk count : ℕ) (b b' : Bool) (a : ℕ) (s : State W)
      → InTime (obtain env chunk count b b' a s)
  unfolding obtain
  obtain-InTime chunk count b b' a s =
      let size = u64 (chunk * count) in
      let last : ℕ → M W ℕ = λ c. if c == 0 && b then page_create env size b' true else pure c in
      InTime-test _
        (InTime-bind {k = last} (retry env (retry_fuel env s) size (kilobytes chunk) s)
          (retry-ends_in_time env size (kilobytes chunk) s)
          λ c t. InTime-if _ _ t (c == 0 && b) (page_create-InTime size b' true t) (InTime-ok c t))
        (InTime-ok a s)
