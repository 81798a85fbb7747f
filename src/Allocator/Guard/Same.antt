-- ===== src/Allocator/Guard/Same.antt =====
-- The part of the state that the lock, the table's protection and the regular check do not concern.
use duma.Prelude.{ℕ, ◌≡◌, arith, Bool, true, false}
use duma.Machine.Env.{Env}
use duma.Machine.State.{State}
use duma.Machine.Monad.{Ensures, ensures, Ensures-bind, Ensures-weaken, returns}
use duma.Machine.Paging.{page_allow_access, page_deny_access, page_delete}
use duma.Machine.Lock.{init_sem, get_sem, rel_sem}
use duma.Allocator.Guard.{enter, leave, check_now_and_then}

-- All that the allocator itself keeps.
pub record Same {W : Type 0} (s t : State W) : Type 0 where
  pub slots : t.slots ≡ s.slots
  pub memory : t.memory ≡ s.memory
  pub settings : t.settings ≡ s.settings
  pub alloc_list : t.alloc_list ≡ s.alloc_list
  pub alloc_list_size : t.alloc_list_size ≡ s.alloc_list_size
  pub null_addr : t.null_addr ≡ s.null_addr
  pub init_state : t.init_state ≡ s.init_state
  pub num_allocs : t.num_allocs ≡ s.num_allocs
  pub num_deallocs : t.num_deallocs ≡ s.num_deallocs
  pub unused_slots : t.unused_slots ≡ s.unused_slots
  pub slots_per_page : t.slots_per_page ≡ s.slots_per_page
  pub sum_allocated : t.sum_allocated ≡ s.sum_allocated
  pub sum_protected : t.sum_protected ≡ s.sum_protected

pub Same-refl : {W : Type 0} (s : State W) → Same s s
Same-refl s = ground arith

pub Same-trans : {W : Type 0} {s t u : State W} → Same s t → Same t u → Same s u
Same-trans p q = ground arith

module _ {W : Type 0} (env : Env W) where
  pub page_allow_access-Same :
      (a n : ℕ) (s : State W) → Ensures (λ _ t. Same s t) (page_allow_access env a n s)
  unfolding page_allow_access
  page_allow_access-Same a n s = ensures _ (λ u t e. ground arith)

  pub page_deny_access-Same :
      (a n : ℕ) (s : State W) → Ensures (λ _ t. Same s t) (page_deny_access env a n s)
  unfolding page_deny_access
  page_deny_access-Same a n s = ensures _ (λ u t e. ground arith)

  pub page_delete-Same : (a n : ℕ) (s : State W) → Ensures (λ _ t. Same s t) (page_delete env a n s)
  unfolding page_delete
  page_delete-Same a n s = ensures _ (λ u t e. ground arith)

  pub get_sem-Same : (s : State W) → Ensures (λ _ t. Same s t) (get_sem env s)
  unfolding get_sem
  get_sem-Same s = ensures _ (λ u t e. ground arith)

  pub init_sem-Same : (s : State W) → Ensures (λ _ t. Same s t) (init_sem env s)
  unfolding init_sem
  init_sem-Same s = ensures _ (λ u t e. ground arith)

  pub rel_sem-Same : (s : State W) → Ensures (λ _ t. Same s t) (rel_sem env s)
  unfolding rel_sem
  rel_sem-Same s = ensures _ (λ u t e. ground arith)

  pub enter-Same : (b : Bool) (s : State W) → Ensures (λ _ t. Same s t) (enter env b s)
  unfolding enter
  enter-Same false s = returns (Same-refl s)
  enter-Same true s = Ensures-bind (get_sem-Same s) λ _ t same.
      Ensures-weaken (page_allow_access-Same t.alloc_list t.alloc_list_size t)
        λ _ u same'. Same-trans same same'

  pub leave-Same : (b : Bool) (s : State W) → Ensures (λ _ t. Same s t) (leave env b s)
  unfolding leave
  leave-Same false s = returns (Same-refl s)
  leave-Same true s =
      Ensures-bind (page_deny_access-Same s.alloc_list s.alloc_list_size s)
        λ _ t same. Ensures-weaken (rel_sem-Same t) λ _ u same'. Same-trans same same'

  pub check_now_and_then-Same : (s : State W) → Ensures (λ _ t. Same s t) (check_now_and_then env s)
  unfolding check_now_and_then
  check_now_and_then-Same s = ensures _ (λ u t e. ground arith)
