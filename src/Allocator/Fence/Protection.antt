-- ===== src/Allocator/Fence/Protection.antt =====
-- What the calls of paging.h do to the address space, where the system keeps its documented laws.
use native.Mathlib.Decide.{dec_lt}
use duma.Prelude.{
  arith, sym, ◌≢◌, ◌∙◌, ap, ℕ, ◌+◌, ◌%◌, ◌≤◌, ◌<◌, ◌≡◌, ◌⊎◌, inl, inr, Bool-cases, refl,
}
use duma.Machine.Env.{unmapped, Env, Protection, prot_none, read_write, Access, access_of, IsOs}
use duma.Machine.State.{State}
use duma.Machine.Monad.{Ensures, returns, aborts, Ensures-weaken, Ensures-test}
use duma.Machine.Paging.{protect, page_allow_access, page_deny_access, page_delete}

-- Only the address space has changed.
abbrev pub WorldOnly : {W : Type 0} → State W → State W → Type 0
WorldOnly s t = t ≡ record s { world = t.world }

pub WorldOnly-trans : {W : Type 0} (s t u : State W) → WorldOnly s t → WorldOnly t u → WorldOnly s u
WorldOnly-trans {W} s t u p q = q ∙ ap {A = State W} (λ v. record v { world = u.world }) p

module _ {W : Type 0} (env : Env W) (look : W → ℕ → Access) (os : IsOs env look) where
  -- The pages have the protection, and all else is as before.
  pub record HasAccess (p : Protection) (a n : ℕ) (s t : State W) : Type 0 where
    pub inside : (x : ℕ) → a ≤ x → x < a + n → look t.world x ≡ access_of p
    pub outside :
        a % env.page_size ≡ 0
        → n % env.page_size ≡ 0
        → (x : ℕ) → (x < a) ⊎ (a + n ≤ x)
        → look t.world x ≡ look s.world x
    pub rest : WorldOnly s t

  -- A change of protection unmaps nothing.
  abbrev pub Stays : State W → State W → Type 0
  Stays s t = (x : ℕ) → look s.world x ≢ unmapped → look t.world x ≢ unmapped

  pub HasAccess-Stays :
      (p : Protection) (a n : ℕ) (s t : State W)
      → a % env.page_size ≡ 0
      → n % env.page_size ≡ 0
      → HasAccess p a n s t
      → Stays s t
  HasAccess-Stays p a n s t al wh q x m e = elim (dec_lt x a) [
    | yes lt ↦ m (sym (q.outside al wh x (inl lt)) ∙ e)
    | no ge ↦ elim (dec_lt x (a + n)) [
      | yes lt ↦ ground (arith, sym (q.inside x (omega arith) lt) ∙ e)
      | no ge' ↦ m (sym (q.outside al wh x (inr (omega arith))) ∙ e)
    ]
  ]

  pub protect-HasAccess :
      (p : Protection) (a n : ℕ) (s : State W)
      → Ensures (λ _ t. HasAccess p a n s t) (protect env p a n s)
  unfolding protect
  protect-HasAccess p a n s = elim (Bool-cases (env.mprotect s.world a n p).1) [
    | inl e ↦
        rw (protect, e)
          (returns (record {
            inside = λ x lo hi. os.mprotect_in s.world a n x p e lo hi;
            outside = λ al wh x out. os.mprotect_else s.world a n x p al wh out;
            rest = refl;
          }))
    | inr e ↦ rw (protect, e) aborts
  ]

  pub page_allow_access-HasAccess :
      (a n : ℕ) (s : State W)
      → Ensures (λ _ t. HasAccess read_write a n s t) (page_allow_access env a n s)
  unfolding page_allow_access
  page_allow_access-HasAccess a n s = protect-HasAccess read_write a n s

  pub page_deny_access-HasAccess :
      (a n : ℕ) (s : State W)
      → Ensures (λ _ t. HasAccess prot_none a n s t) (page_deny_access env a n s)
  unfolding page_deny_access
  page_deny_access-HasAccess a n s = protect-HasAccess prot_none a n s

  -- Memory that was given back, and all else as before.
  pub record IsGone (a n : ℕ) (s t : State W) : Type 0 where
    pub outside :
        a % env.page_size ≡ 0
        → n % env.page_size ≡ 0
        → (x : ℕ) → (x < a) ⊎ (a + n ≤ x)
        → look t.world x ≡ look s.world x
    pub rest : WorldOnly s t

  pub page_delete-IsGone :
      (a n : ℕ) (s : State W) → Ensures (λ _ t. IsGone a n s t) (page_delete env a n s)
  unfolding page_delete
  page_delete-IsGone a n s =
      let w = (env.munmap s.world a n).0 in
      let s' = record s { world = w } in
      Ensures-test (env.munmap s.world a n).1
        (returns
          (record { outside = λ al wh x out. os.munmap_else s.world a n x al wh out; rest = refl }))
        (Ensures-weaken (page_deny_access-HasAccess a n s') λ _ t q. record {
          outside = λ al wh x out. q.outside al wh x out ∙ os.munmap_else s.world a n x al wh out;
          rest = WorldOnly-trans s s' t refl q.rest;
        })
