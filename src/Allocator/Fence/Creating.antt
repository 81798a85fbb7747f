-- ===== src/Allocator/Fence/Creating.antt =====
-- New pages from the system, next to the regions of the table.
use duma.Prelude.{
  ℕ, zero, suc, ◌+◌, ◌-◌, ◌*◌, ◌/◌, ◌%◌, ◌^◌, ◌≤◌, ◌<◌, ◌≡◌, inl, inr, arith, Bool, true, false,
  refl, ◌&&◌, ltb, ◌==◌, if◌then◌else◌, some, List, get_elem?, Bool-cases, Option-cases,
}
use native.Mathlib.Decide.{dec_lt}
use native.Mathlib.Nat.{div-eq_of_lt-le}
use duma.Words.{IsPower}
use duma.Words.Defs.{word, u64, add64, sub64}
use duma.Slots.Types.{Slot}
use duma.Machine.Env.{Env, Access, granted, IsOs}
use duma.Machine.State.{State}
use duma.Machine.Monad.{
  M, Ensures, returns, aborts, runs_out, Ensures-bind, Ensures-weaken, Ensures-if, Ensures-test,
  Ensures-cases, pure,
}
use duma.Machine.Paging.{int_as_size, page_create}
use duma.Allocator.Reduce.{kilobytes}
use duma.Allocator.Chunk.{retry_fuel, retry, obtain, first_try, stay_below_limit}
use duma.Allocator.Fence.{Keeps, Inside, IsSound-move, Tidy}
use duma.Allocator.Fence.Reduction.{reduce_protected_memory-Tidy}

module _ {W : Type 0} (env : Env W) (look : W → ℕ → Access) (os : IsOs env look)
    (power : IsPower env.page_size) where
  -- New memory that no slot has.
  pub record IsFresh (n a : ℕ) (t : State W) : Type 0 where
    pub start : a % env.page_size ≡ 0
    pub low : a + n < 2 ^ 63
    pub open_all : (x : ℕ) → a ≤ x → x < a + n → look t.world x ≡ granted
    pub clear :
        (j : ℕ) (y : Slot) (x : ℕ)
        → get_elem? t.slots j ≡ some y
        → Inside y x
        → a ≤ x
        → x < a + n
        → ⊥

  -- NULL or new memory, with the table tidy and all slots without freed memory as before.
  pub record IsObtained (n : ℕ) (s : State W) (a : ℕ) (t : State W) : Type 0 where
    pub tidy : Tidy look env.page_size t
    pub keeps : Keeps s.slots t.slots
    pub fresh : 0 < a → IsFresh n a t

  pub Keeps-trans : (us vs ws : List Slot) → Keeps us vs → Keeps vs ws → Keeps us ws
  Keeps-trans us vs ws p q i u h free = q i u (p i u h free) free

  keep_on :
      (n a : ℕ) (s t u : State W) → Keeps s.slots t.slots → IsObtained n t a u → IsObtained n s a u
  keep_on n a s t u k o = record {
    tidy = o.tidy;
    keeps = Keeps-trans s.slots t.slots u.slots k o.keeps;
    fresh = o.fresh;
  }

  int_as_size_lem : (n : ℕ) → n < 2 ^ 31 → int_as_size n ≡ n
  unfolding int_as_size
  int_as_size_lem n lt = ground (arith, lt)

  module _ (n : ℕ) (small : n < 2 ^ 31) (whole : n % env.page_size ≡ 0) (s : State W)
      (tidy : Tidy look env.page_size s) where
    nothing-IsObtained :
        (w : W) (b : ℕ) → w ≡ s.world → IsObtained n s 0 (record s { world = w; start_addr = b })
    nothing-IsObtained w b e = record {
      tidy = record { ordered = rw e tidy.ordered; table = tidy.table };
      keeps = λ i u h free. h;
      fresh = λ p. absurd (omega arith);
    }

    new-IsObtained :
        (a b : ℕ)
        → (env.mmap s.world s.start_addr n).1 ≡ some a
        → IsObtained n s a
            (record s { world = (env.mmap s.world s.start_addr n).0; start_addr = b })
    new-IsObtained a b e =
        let range = os.mmap_range s.world s.start_addr n a e in
        record {
          tidy = record {
            ordered = record {
              sound = λ i u h.
                  IsSound-move look env.page_size s.world _ u (λ x in1. same i u x h in1)
                    (tidy.ordered.sound i u h);
              apart = tidy.ordered.apart;
            };
            table = tidy.table;
          };
          keeps = λ i u h free. h;
          fresh = λ p. record {
            start = range.2;
            low = range.1;
            open_all = λ x lo hi. (os.mmap_new s.world s.start_addr n a x e lo hi).1;
            clear = λ j y x h in1 lo hi.
                (tidy.ordered.sound j y h).mapped x in1
                  (os.mmap_new s.world s.start_addr n a x e lo hi).0;
          };
        }
      where
        same :
            (i : ℕ) (u : Slot) (x : ℕ)
            → get_elem? s.slots i ≡ some u
            → Inside u x
            → look (env.mmap s.world s.start_addr n).0 x ≡ look s.world x
        same i u x h in1 = elim (dec_lt x a) [
          | yes lt ↦ os.mmap_else s.world s.start_addr n a x e whole (inl lt)
          | no ge ↦ elim (dec_lt x (a + n)) [
            | yes lt ↦ absurd (
                (tidy.ordered.sound i u h).mapped x in1
                  (os.mmap_new s.world s.start_addr n a x e (omega arith) lt).0)
            | no ge' ↦ os.mmap_else s.world s.start_addr n a x e whole (inr (omega arith))
          ]
        ]

    pub page_create-IsObtained : (b b' : Bool) → Ensures (IsObtained n s) (page_create env n b b' s)
    unfolding page_create
    page_create-IsObtained b b' =
        let e = int_as_size_lem n small in
        elim (Option-cases (env.mmap s.world s.start_addr n).1) [
          | inr (a, h) ↦ rw (page_create, e, h) (rw e (returns {a = a} (new-IsObtained a _ h)))
          | inl h ↦
              let w = os.mmap_failed s.world s.start_addr n h in
              rw (page_create, e, h)
                (Ensures-test b aborts (rw e (returns {a = 0} (nothing-IsObtained _ _ w))))
        ]

  pub stay_below_limit-Tidy :
      (kb : ℕ) (s : State W)
      → Tidy look env.page_size s
      → Ensures
          (λ _ t. Tidy look env.page_size t × Keeps s.slots t.slots)
          (stay_below_limit env kb s)
  unfolding stay_below_limit
  stay_below_limit-Tidy kb s tidy =
      Ensures-test _
        (Ensures-bind (reduce_protected_memory-Tidy env look os power kb s tidy) λ _ t q. returns q)
        (returns (tidy, λ i u h free. h))

  module _ (n : ℕ) (small : n < 2 ^ 31) (whole : n % env.page_size ≡ 0) where
    round_end :
        (f kb : ℕ) (more : Bool) (a : ℕ) (s t : State W)
        → IsObtained n s a t
        → Ensures (IsObtained n t) (retry env f n kb t)
        → Ensures
            (IsObtained n s)
            ((elim (more && a == 0) as (λ x. M W ℕ) [ true ↦ retry env f n kb | false ↦ pure a ]) t)
    round_end f kb false a s t o next = returns {a = a} o
    round_end f kb true a s t o next = elim (Bool-cases (a == 0)) [
      | inl e ↦ rw e (Ensures-weaken next λ b u q. keep_on n b s t u o.keeps q)
      | inr e ↦ rw e (returns {a = a} o)
    ]

    retry-IsObtained :
        (f kb : ℕ) (s : State W)
        → Tidy look env.page_size s
        → Ensures (IsObtained n s) (retry env f n kb s)
    unfolding retry
    retry-IsObtained zero kb s tidy = runs_out
    retry-IsObtained (suc f) kb s tidy =
        Ensures-bind (reduce_protected_memory-Tidy env look os power kb s tidy)
          λ more t (tidy', keep).
            Ensures-bind (page_create-IsObtained n small whole t tidy' false false) λ a u o.
              round_end f kb more a s u (keep_on n a s t u keep o) (retry-IsObtained f kb u o.tidy)

    retry_as :
        (size f kb : ℕ) (s : State W)
        → size ≡ n
        → Tidy look env.page_size s
        → Ensures (IsObtained n s) (retry env f size kb s)
    retry_as size f kb s e tidy = rw e (retry-IsObtained f kb s tidy)

    create_as :
        (size : ℕ) (b b' : Bool) (s : State W)
        → size ≡ n
        → Tidy look env.page_size s
        → Ensures (IsObtained n s) (page_create env size b b' s)
    create_as size b b' s e tidy = rw e (page_create-IsObtained n small whole s tidy b b')

    last_try :
        (size : ℕ) (b b' : Bool) (a : ℕ) (s t : State W)
        → size ≡ n
        → IsObtained n s a t
        → Ensures (IsObtained n s) ((if b then page_create env size b' true else pure a) t)
    last_try size b b' a s t e o =
        Ensures-if _ _ b
          (Ensures-weaken (create_as size b' true t e o.tidy) λ c u q. keep_on n c s t u o.keeps q)
          (returns {a = a} o)

    pub obtain-IsObtained :
        (b b' : Bool) (a : ℕ) (s t : State W)
        → IsObtained n s a t
        → Ensures (IsObtained n s) (obtain env n 1 b b' a t)
    unfolding obtain
    obtain-IsObtained b b' a s t o =
        let e : u64 (n * 1) ≡ n = omega (arith, small) in
        Ensures-test _
          (Ensures-bind (retry_as (u64 (n * 1)) (retry_fuel env t) (kilobytes n) t e o.tidy)
            λ c u q. last_try (u64 (n * 1)) (c == 0 && b) b' c s u e (keep_on n c s t u o.keeps q))
          (returns {a = a} o)

    one_chunk :
        (size : ℕ) → size ≤ n → 0 < n → (if size == 0 then 1 else add64 size (sub64 n 1) / n) ≡ 1
    one_chunk size le pos = elim (Bool-cases (size == 0)) [
      | inl e ↦ rw e refl
      | inr e ↦
          let num : add64 size (sub64 n 1) ≡ size + n - 1 = omega (arith, small) in
          let positive : 0 < size = ground (arith, e) in
          rw (e, num) (div-eq_of_lt-le n (omega arith) (omega arith))
    ]

    pub first_try-IsObtained :
        (size : ℕ) (s : State W)
        → Tidy look env.page_size s
        → size ≤ n
        → 0 < n
        → Ensures (λ c t. (c.0 ≡ 1) × IsObtained n s c.1 t) (first_try env n size s)
    unfolding first_try
    first_try-IsObtained size s tidy le pos =
        let one = one_chunk size le pos in
        let e : u64 (n * 1) ≡ n = omega (arith, small) in
        Ensures-cases (ltb (sub64 (word - 1) (sub64 n 1)) size)
          (λ big. absurd (ground (arith, big, le, small)))
          λ _.
            rw (one, e)
              (Ensures-bind (page_create-IsObtained n small whole s tidy false false)
                λ a t o. returns {a = (1, a)} (refl, o))
