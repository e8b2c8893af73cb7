-- ===== src/Outbox/Interleaved.antt =====
-- internal/adapters/repos/outbox_repository.go: several publishers and subscribers on one table. Their
-- calls follow each other in any order, since each is one transaction or one statement.
use svc_web_analyzer.Prelude.{
  suc, ◌≡◌, ◌≢◌, refl, String, Bool, false, none, List, [], ◌∷◌, arith, first, inl, inr, ap, ◌∙◌,
}
use svc_web_analyzer.Domain.{OutboxEvent, ok}
use svc_web_analyzer.World.{OutboxRow, World, outcome, external}
use svc_web_analyzer.Libraries.{Libraries}
use svc_web_analyzer.Outbox.Rows.{
  by_id, is_claimable, is_open, set_claimed, set_completed, set_processed, set_published,
  update_rows,
}
use svc_web_analyzer.Outbox.Table.{claim_exhausts}
use svc_web_analyzer.Outbox.Atomic.{in_tx_error, claim_ok, tx_row_ok}
use svc_web_analyzer.Outbox.Claims.{claim_error_unchanged}
use svc_web_analyzer.Outbox.{
  claim_for_processing, mark_completed, mark_processed, mark_published, mark_row, update_where,
}

-- no row of this id can be claimed
abbrev IsClosed : String → World → Type 0
IsClosed id w = first (is_claimable id) w.outbox ≡ none

-- an assignment that opens no row
record NeverOpens (f : OutboxRow → OutboxRow) : Type 0 where
  same_id : (r : OutboxRow) → (f r).id ≡ r.id
  opens : (r : OutboxRow) → is_open r.status ≡ false → is_open (f r).status ≡ false

update-IsClosed :
    (id : String) (p : OutboxRow → Bool) (f : OutboxRow → OutboxRow) (rs : List OutboxRow)
    → NeverOpens f
    → first (is_claimable id) rs ≡ none
    → first (is_claimable id) (update_rows p f rs) ≡ none
unfolding update_rows
update-IsClosed id p f [] k h = refl
update-IsClosed id p f (r ∷ rs) k h =
    ground (arith, k.same_id r, k.opens r, update-IsClosed id p f rs k)

-- what other processes do with the table between two looks at it: claims, publications, and the two
-- marks of the subscriber, each of any event and with any outcome
pub data Others (lib : Libraries) (w : World) : World → Type 0 where
  start : (u : World) → u.outbox ≡ w.outbox → Others lib w u
  claims :
      (u v : World) (j : String)
      → Others lib w u
      → v.outbox ≡ (claim_for_processing lib j u).1.outbox
      → Others lib w v
  publishes :
      (u v : World) (j : String)
      → Others lib w u
      → v.outbox ≡ (mark_published j u).1.outbox
      → Others lib w v
  takes :
      (u v : World) (j : String)
      → Others lib w u
      → v.outbox ≡ (mark_processed j u).1.outbox
      → Others lib w v
  completes :
      (u v : World) (j : String)
      → Others lib w u
      → v.outbox ≡ (mark_completed j u).1.outbox
      → Others lib w v

claim-IsClosed :
    (lib : Libraries) (id j : String) (u : World)
    → IsClosed id u
    → IsClosed id (claim_for_processing lib j u).1
claim-IsClosed lib id j u h = elim (outcome (claim_for_processing lib j u)) [
  | inl (e, v, claimed) ↦
      let (r, _, _, v_is) = claim_ok lib j u claimed in
      let now = (u.script (suc u.calls)).at in
      let table : (claim_for_processing lib j u).1.outbox
          ≡ update_rows (is_claimable j) (set_claimed now) u.outbox =
        ap (λ x. x.1.outbox) claimed ∙ ap (λ x. x.outbox) v_is in
      ap (first (is_claimable id)) table
      ∙ update-IsClosed id (is_claimable j) (set_claimed now) u.outbox
          (record { same_id = λ r. refl; opens = λ r o. refl }) h
  | inr (e, v, refused) ↦
      ap (λ x. first (is_claimable id) x.1.outbox) refused
      ∙ ap (first (is_claimable id)) (claim_error_unchanged lib j u refused)
      ∙ h
]

mark_published-IsClosed :
    (id j : String) (u : World) → IsClosed id u → IsClosed id (mark_published j u).1
unfolding mark_published
mark_published-IsClosed id j u h = elim (outcome (mark_published j u)) [
  | inl (_, v, marked) ↦
      let (_, wrote) = tx_row_ok "failed to mark event as published" j set_published u marked in
      let now = (u.script (suc u.calls)).at in
      ap (λ x. first (is_claimable id) x.1.outbox) marked
      ∙ ap (first (is_claimable id)) wrote
      ∙ update-IsClosed id (by_id j) (set_published now) u.outbox
          (record { same_id = λ r. refl; opens = λ r o. refl }) h
  | inr (e, v, refused) ↦
      ap (λ x. first (is_claimable id) x.1.outbox) refused
      ∙ ap (first (is_claimable id))
          (in_tx_error (mark_row "failed to mark event as published" j set_published) u refused)
      ∙ h
]

mark_processed-IsClosed :
    (id j : String) (u : World) → IsClosed id u → IsClosed id (mark_processed j u).1
unfolding mark_processed mark_row update_where external
mark_processed-IsClosed id j u h = ground (
  arith,
  update-IsClosed id (by_id j) (set_processed (u.script u.calls).at) u.outbox
      (record { same_id = λ r. refl; opens = λ r o. o }),
)

mark_completed-IsClosed :
    (id j : String) (u : World) → IsClosed id u → IsClosed id (mark_completed j u).1
unfolding mark_completed mark_row update_where external
mark_completed-IsClosed id j u h = ground (
  arith,
  update-IsClosed id (by_id j) (set_completed (u.script u.calls).at) u.outbox
      (record { same_id = λ r. refl; opens = λ r o. o }),
)

Others-IsClosed :
    (lib : Libraries) (id : String) {w x : World} → IsClosed id w → Others lib w x → IsClosed id x
Others-IsClosed lib id h (start u same) = ap (first (is_claimable id)) same ∙ h
Others-IsClosed lib id h (claims u v j before same) =
    ap (first (is_claimable id)) same ∙ claim-IsClosed lib id j u (Others-IsClosed lib id h before)
Others-IsClosed lib id h (publishes u v j before same) =
    ap (first (is_claimable id)) same
    ∙ mark_published-IsClosed id j u (Others-IsClosed lib id h before)
Others-IsClosed lib id h (takes u v j before same) =
    ap (first (is_claimable id)) same
    ∙ mark_processed-IsClosed id j u (Others-IsClosed lib id h before)
Others-IsClosed lib id h (completes u v j before same) =
    ap (first (is_claimable id)) same
    ∙ mark_completed-IsClosed id j u (Others-IsClosed lib id h before)

-- Once an event is claimed, no claim of it succeeds after any sequence of claims, publications and
-- marks of the subscriber, of any events and with any outcomes.
pub claim_excludes :
    (lib : Libraries) (id : String) (w v u x : World) {e d : OutboxEvent}
    → claim_for_processing lib id w ≡ (ok e, v)
    → Others lib v u
    → claim_for_processing lib id u ≢ (ok d, x)
claim_excludes lib id w v u x {e} {d} h others again =
    let (r, _, _, v_is) = claim_ok lib id w h in
    let (q, found, _, _) = claim_ok lib id u again in
    let closed : IsClosed id v =
      ap (λ y. first (is_claimable id) y.outbox) v_is
      ∙ claim_exhausts id (w.script (suc w.calls)).at w.outbox in
    let none_there : first (is_claimable id) u.outbox ≡ none =
      Others-IsClosed lib id closed others in
    ground (none_there, found, arith)
