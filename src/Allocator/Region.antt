-- ===== src/Allocator/Region.antt =====
-- A region becomes a buffer: the split, the pages and the slot.
use duma.Prelude.{ℕ, ◌/◌, Option, none, some, ltb, ◌==◌, if◌then◌else◌, get_elem?, set}
use duma.Words.Defs.{add64, sub64}
use duma.Layout.{Placement, place_above, place_below, live_size_below}
use duma.Slots.Types.{SlotState, FileSource, Slot}
use duma.Machine.Env.{Env}
use duma.Machine.Monad.{ok, fault, M, ◌>>=◌, ◌>>◌, pure}
use duma.Machine.Paging.{page_allow_access, page_deny_access}
use duma.Allocator.Slack.{init_slack}
use duma.Allocator.Update.{update_slot}
use duma.Allocator.Request.{Request}

module _ {W : Type 0} (env : Env W) where
  abbrev page : ℕ
  page = env.page_size

  -- The surplus of a region goes into an empty slot, as a free region of its own.
  unfoldable pub split_slot : ℕ → ℕ → Option ℕ → M W (Unit {0})
  unfolding update_slot
  split_slot needed i spare s = elim (get_elem? s.slots i) [
    | none ↦ fault
    | some t ↦
        if ltb needed t.internal_size
        then elim spare [
          | none ↦ fault
          | some e ↦
              let at = add64 t.internal_address needed in
              let size = sub64 t.internal_size needed in
              let rest = record t {
                internal_address = at;
                internal_size = size;
                user_address = at;
                user_size = size;
              } in
              ok tt (record s {
                slots =
                    update_slot i (λ u. record u { internal_size = needed })
                      (update_slot e (λ _. rest) s.slots);
                unused_slots = sub64 s.unused_slots 1;
              })
        ]
        else ok tt s
  ]

  -- The addresses in a region, and its live and dead pages: one dead page for no bytes, else the
  -- dead pages behind or before the buffer.
  unfoldable pub place : Request → ℕ → ℕ → ℕ → M W Placement
  unfolding page_allow_access page_deny_access place_above place_below live_size_below
  place r alignment needed a =
      let end = add64 a needed in
      if r.user_size == 0
      then (do
        page_deny_access env a (sub64 end a)
        pure (record { user = add64 a (page / 2); prot = a }))
      else (if r.protect_below
          then (let p = place_below page alignment a in
              do
                page_allow_access env p.user (live_size_below needed p)
                page_deny_access env a (sub64 p.user a)
                pure p)
          else (let p = place_above page alignment needed a r.user_size in
              do
                page_allow_access env a (sub64 p.prot a)
                page_deny_access env p.prot (sub64 end p.prot)
                pure p))

  abbrev pub occupied : Request → Placement → Slot → Slot
  occupied r p t = record t {
    user_address = p.user;
    prot_address = p.prot;
    user_size = r.user_size;
    state = SlotState.in_use;
    allocator = r.allocator;
    file_source = FileSource.allocation;
    filename = r.filename;
    lineno = r.lineno;
  }

  -- The slot is in use, and its no man's land is set up.
  unfoldable pub commit : Request → ℕ → Placement → M W (Unit {0})
  unfolding update_slot init_slack
  commit r i p s = elim (get_elem? s.slots i) [
    | none ↦ fault
    | some t ↦ ok tt (record s {
      slots = set s.slots i (occupied r p t);
      memory = init_slack s.settings.slackfill (occupied r p t) s.memory;
    })
  ]

  -- A region that the table holds becomes the buffer; a slot with no memory gives NULL.
  unfoldable pub use_region : Request → ℕ → ℕ → ℕ → Option ℕ → M W ℕ
  unfolding split_slot place commit
  use_region r alignment needed i spare s = elim (get_elem? s.slots i) [
    | none ↦ fault
    | some t ↦
        if t.internal_size == 0
        then ok 0 s
        else (do
          split_slot needed i spare
          p ← place r alignment needed t.internal_address
          commit r i p
          pure p.user)
            s
  ]
