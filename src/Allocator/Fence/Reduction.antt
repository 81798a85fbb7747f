-- ===== src/Allocator/Fence/Reduction.antt =====
-- `reduceProtectedMemory` and the pages of the regions.
use duma.Prelude.{
  ℕ, ◌≡◌, inl, inr, refl, arith, Bool, true, false, List, [], ◌∷◌, Bool-cases, ltb, leb,
}
use duma.Words.{IsPower}
use duma.Slots.Types.{SlotState, Slot, is_state}
use duma.Machine.Env.{Env, Access, IsOs}
use duma.Machine.State.{State}
use duma.Machine.Monad.{Result, Ensures, returns, Ensures-bind, Ensures-if}
use duma.Allocator.Update.{emptied}
use duma.Allocator.Reduce.{
  Reduced, shortened, reduce_ends, reduce_wholes, stop_here, put_slots, settle,
  reduce_protected_memory,
}
use duma.Allocator.Reduce.Spared.{IsProtected, is_state-eq}
use duma.Allocator.Fence.{Keeps, Inside, IsSound, Ordered, Tidy}
use duma.Allocator.Fence.Protection.{WorldOnly}
use duma.Allocator.Fence.Surroundings.{WorldOnly-Same}
use duma.Allocator.Fence.Reducing.{
  IsReduced, IsReduced-refl, IsCut, emptied-IsSound, tail-Ordered, cons-IsReduced,
}
use duma.Allocator.Fence.Cutting.{cut_end-IsCut, delete_whole-IsCut}

module _ {W : Type 0} (env : Env W) (look : W → ℕ → Access) (os : IsOs env look)
    (power : IsPower env.page_size) where
  in_use-free : (u : Slot) → u.state ≡ SlotState.in_use → IsProtected u → ⊥
  in_use-free u st (inl p) = ground (arith, st, p)
  in_use-free u st (inr p) = ground (arith, st, p)

  -- A table whose slots change as in a loop is still tidy.
  reduced-Tidy :
      (s t : State W) (vs : List Slot)
      → Tidy look env.page_size s
      → IsReduced env look os power s t s.slots vs
      → Tidy look env.page_size (record t { slots = vs })
  reduced-Tidy s t vs tidy red =
      let same = WorldOnly-Same env look os s t red.rest in
      let e1 = same.alloc_list in
      let e2 = same.alloc_list_size in
      record {
        ordered = red.ordered;
        table =
            rw (e1, e2)
              (record {
                index = tidy.table.index;
                slot = tidy.table.slot;
                here =
                    red.kept tidy.table.index tidy.table.slot tidy.table.here
                      (in_use-free tidy.table.slot tidy.table.state);
                state = tidy.table.state;
                kind = tidy.table.kind;
                user = tidy.table.user;
                aligned = tidy.table.aligned;
                whole = tidy.table.whole;
                inside = tidy.table.inside;
              });
      }

  module _ (n : ℕ) where
    abbrev Loop : List Slot → State W → Reduced → State W → Type 0
    Loop us s r t = IsReduced env look os power s t us r.slots

    same-IsCut :
        (u : Slot) (s : State W)
        → IsSound look env.page_size s.world u
        → IsCut env look os power u u s s
    same-IsCut u s sound = record {
      part = λ x i. i;
      elsewhere = λ x out. refl;
      sound = sound;
      kept = λ st. refl;
      rest = refl;
    }

    go_on :
        (b : Bool) (us : List Slot) (k : ℕ) (s : State W)
        → Ordered look env.page_size s.world us
        → Ensures (Loop us s) (reduce_ends env n us k s)
        → Ensures (Loop us s) (
            (elim b as (λ x. State W → Result (State W) Reduced) [
              | true ↦ stop_here env n us k
              | false ↦ reduce_ends env n us k
            ])
              s)
    go_on true us k s o h = returns (IsReduced-refl env look os power s us o)
    go_on false us k s o h = h

    reduce_ends-IsReduced :
        (us : List Slot) (k : ℕ) (s : State W)
        → Ordered look env.page_size s.world us
        → Ensures (Loop us s) (reduce_ends env n us k s)
    unfolding reduce_ends
    reduce_ends-IsReduced [] k s o = returns (IsReduced-refl env look os power s [] o)
    reduce_ends-IsReduced (u ∷ us) k s o = elim (Bool-cases (ltb k n)) [
      | inr e ↦ rw (reduce_ends, e) (returns (IsReduced-refl env look os power s (u ∷ us) o))
      | inl e ↦ elim (Bool-cases (is_state SlotState.all_protected u.state)) [
        | inr e' ↦
            rw (reduce_ends, e, e')
              (Ensures-bind
                (reduce_ends-IsReduced us k s
                  (tail-Ordered env look os power s.world s.world u us o (λ x out. refl)))
                λ r t red. returns (
                  cons-IsReduced env look os power u u us r.slots s s t o
                    (same-IsCut u s (o.sound 0 u refl)) red))
        | inl e' ↦
            rw (reduce_ends, e, e')
              (Ensures-bind
                (cut_end-IsCut env look os power n u k s (o.sound 0 u refl) (is_state-eq _ _ e'))
                λ k' t cut.
                  let o' = tail-Ordered env look os power s.world t.world u us o cut.elsewhere in
                  Ensures-bind (go_on (leb n k') us k' t o' (reduce_ends-IsReduced us k' t o'))
                    λ r t' red. returns (
                      cons-IsReduced env look os power u (shortened env.page_size u) us r.slots s t
                        t' o cut red))
      ]
    ]

    go_on' :
        (b : Bool) (us : List Slot) (k : ℕ) (s : State W)
        → Ordered look env.page_size s.world us
        → Ensures (Loop us s) (reduce_wholes env n us k s)
        → Ensures (Loop us s) (
            (elim b as (λ x. State W → Result (State W) Reduced) [
              | true ↦ stop_here env n us k
              | false ↦ reduce_wholes env n us k
            ])
              s)
    go_on' true us k s o h = returns (IsReduced-refl env look os power s us o)
    go_on' false us k s o h = h

    whole-IsCut :
        (u : Slot) (s t : State W)
        → u.state ≡ SlotState.begin_protected
        → ((x : ℕ) → (Inside u x → ⊥) → look t.world x ≡ look s.world x)
        → WorldOnly s t
        → IsCut env look os power u (emptied u) s t
    whole-IsCut u s t st out only = record {
      part = λ x i. absurd (omega arith);
      elsewhere = out;
      sound = emptied-IsSound look env.page_size t.world u;
      kept = λ idle. absurd (idle (inr st));
      rest = only;
    }

    reduce_wholes-IsReduced :
        (us : List Slot) (k : ℕ) (s : State W)
        → Ordered look env.page_size s.world us
        → Ensures (Loop us s) (reduce_wholes env n us k s)
    unfolding reduce_wholes
    reduce_wholes-IsReduced [] k s o = returns (IsReduced-refl env look os power s [] o)
    reduce_wholes-IsReduced (u ∷ us) k s o = elim (Bool-cases (ltb k n)) [
      | inr e ↦ rw (reduce_wholes, e) (returns (IsReduced-refl env look os power s (u ∷ us) o))
      | inl e ↦ elim (Bool-cases (is_state SlotState.begin_protected u.state)) [
        | inr e' ↦
            rw (reduce_wholes, e, e')
              (Ensures-bind
                (reduce_wholes-IsReduced us k s
                  (tail-Ordered env look os power s.world s.world u us o (λ x out. refl)))
                λ r t red. returns (
                  cons-IsReduced env look os power u u us r.slots s s t o
                    (same-IsCut u s (o.sound 0 u refl)) red))
        | inl e' ↦
            rw (reduce_wholes, e, e')
              (Ensures-bind (delete_whole-IsCut env look os power n u s (o.sound 0 u refl))
                λ _ t (out, only).
                  let cut = whole-IsCut u s t (is_state-eq _ _ e') out only in
                  let o' = tail-Ordered env look os power s.world t.world u us o out in
                  Ensures-bind (go_on' (leb n _) us _ t o' (reduce_wholes-IsReduced us _ t o'))
                    λ r t' red.
                      returns (
                        cons-IsReduced env look os power u (emptied u) us r.slots s t t' o cut red))
      ]
    ]

    -- `reduceProtectedMemory` keeps the table tidy, and each slot without freed memory.
    pub reduce_protected_memory-Tidy :
        (s : State W)
        → Tidy look env.page_size s
        → Ensures
            (λ _ t. Tidy look env.page_size t × Keeps s.slots t.slots)
            (reduce_protected_memory env n s)
    unfolding reduce_protected_memory put_slots settle
    reduce_protected_memory-Tidy s tidy =
        Ensures-bind (reduce_ends-IsReduced s.slots 0 s tidy.ordered) λ r t red.
          let s1 : State W = record t { slots = r.slots } in
          let tidy1 = reduced-Tidy s t r.slots tidy red in
          Ensures-if _ _ r.enough
            (returns (record { ordered = tidy1.ordered; table = tidy1.table }, red.kept))
            (Ensures-bind (reduce_wholes-IsReduced r.slots r.amount s1 tidy1.ordered) λ r' t' red'.
              let tidy2 = reduced-Tidy s1 t' r'.slots tidy1 red' in
              let both : Keeps s.slots r'.slots =
                λ i u h free. red'.kept i u (red.kept i u h free) free in
              Ensures-if _ _ r'.enough
                (returns (record { ordered = tidy2.ordered; table = tidy2.table }, both))
                (returns (record { ordered = tidy2.ordered; table = tidy2.table }, both)))
