-- ===== src/Allocator/Slack/Laws.antt =====
-- The no man's land as a set of bytes: `_duma_init_slack` and `_duma_check_slack` of duma_hlp.h.
use duma.Prelude.{
  ℕ, zero, suc, ◌+◌, ◌-◌, ◌%◌, ◌≤◌, ◌<◌, ◌≡◌, ◌⊎◌, ◌↔◌, inl, inr, refl, arith, none, some, List, [],
  ◌∷◌, get_elem?,
}
use duma.Memory.{Memory, store, fill}
use duma.Memory.Laws.{fill_lem, all_bytes_iff}
use duma.Slots.Types.{SlotState, Slot}
use duma.Allocator.Slack.{
  acc_begin, acc_end, user_end, init_slack, check_slack, check_all_slacks, touch,
}

-- The bytes of the no man's land of a slot.
abbrev pub IsSlack : Slot → ℕ → Type 0
IsSlack s x = ((acc_begin s ≤ x) × (x < s.user_address)) ⊎ ((user_end s ≤ x) × (x < acc_end s))

abbrev pub Intact : ℕ → Slot → Memory → Type 0
Intact slackfill s m = (x : ℕ) → IsSlack s x → m x ≡ slackfill % 256

module _ (slackfill : ℕ) (s : Slot) where
  -- For a slot with memory and a user's block, the check passes exactly if no byte of the no man's
  -- land differs from the fill value.
  pub check_slack_iff :
      (m : Memory)
      → 0 < s.user_size
      → 0 < s.internal_address
      → (check_slack slackfill s m ≡ none) ↔ Intact slackfill s m
  unfolding check_slack
  check_slack_iff m sized based =
      let below = all_bytes_iff (s.user_address - acc_begin s) (acc_begin s) (slackfill % 256) m in
      let above = all_bytes_iff (acc_end s - user_end s) (user_end s) (slackfill % 256) m in
      (
        λ e x. elim [
          | inl at ↦ below.0 (ground arith) x at.0 (omega (arith, at))
          | inr at ↦ above.0 (ground arith) x at.0 (omega (arith, at))
        ],
        λ h.
            let b = below.1 (λ x lo hi. h x (inl (omega arith))) in
            let a = above.1 (λ x lo hi. h x (inr (omega arith))) in ground arith,
      )

  -- What the allocation writes around the block: every byte of the no man's land holds the fill
  -- value, and no byte of the block changes.
  pub init_slack_lem :
      (m : Memory)
      → 0 < s.user_size
      → acc_begin s ≤ s.user_address
      → user_end s ≤ acc_end s
      → Intact slackfill s (init_slack slackfill s m)
        × ((x : ℕ) → s.user_address ≤ x → x < user_end s → init_slack slackfill s m x ≡ m x)
  unfolding init_slack
  init_slack_lem m sized lo hi =
      let v : ℕ = slackfill % 256 in
      let inner = fill (s.user_address - acc_begin s) (acc_begin s) v m in
      let outer_at = fill_lem (acc_end s - user_end s) (user_end s) v inner in
      let inner_at = fill_lem (s.user_address - acc_begin s) (acc_begin s) v m in
      (
        λ x at. ground (arith, outer_at x, inner_at x),
        λ x from to. ground (arith, outer_at x, inner_at x),
      )

-- Writing each byte and putting it back leaves memory as it was.
pub touch_lem : (n a : ℕ) (m : Memory) (x : ℕ) → touch n a m x ≡ m x
unfolding touch
touch_lem zero a m x = refl
touch_lem (suc n) a m x =
    let m' = store (store m (a + n) ((m (a + n) + 255) % 256)) (a + n) (m (a + n)) in
    ground (arith, touch_lem n a m' x)

abbrev pub Checked : Slot → Type 0
Checked s = (s.state ≡ SlotState.in_use) × (0 < s.user_size) × (0 < s.internal_address)

-- Where the check of all slots passes, the no man's land of every slot in use that has memory and a
-- block of at least a byte holds the fill value.
pub check_all_slacks-Intact :
    (slackfill : ℕ) (slots : List Slot) (m : Memory)
    → (check_all_slacks slackfill slots m ≡ none)
    → (i : ℕ) (s : Slot) → get_elem? slots i ≡ some s
    → Checked s
    → Intact slackfill s m
unfolding check_all_slacks
check_all_slacks-Intact slackfill [] m e i s g c = cc
check_all_slacks-Intact slackfill (t ∷ rest) m e zero s g c =
    let same : t ≡ s = cc in (check_slack_iff slackfill s m c.1 c.2).0 (ground arith)
check_all_slacks-Intact slackfill (t ∷ rest) m e (suc i) s g c =
    check_all_slacks-Intact slackfill rest m (ground arith) i s g c
