-- ===== src/Outbox/Table.antt =====
-- internal/adapters/repos/outbox_repository.go: what the statements do to the row of an id, in a
-- table whose ids are distinct (the primary key of migrations/002).
use mathlib.Core.Option
use svc_web_analyzer.Prelude.{
  ℕ, ◌≡◌, ◌≢◌, refl, String, Bool, true, false, Option, none, some, List, [], ◌∷◌, arith,
  if◌then◌else◌, str_eq, eq_iff, first,
}
use svc_web_analyzer.World.{OutboxRow}
use svc_web_analyzer.Outbox.Rows.{
  by_id, is_open, is_claimable, update_rows, count_rows, set_claimed,
}

-- the row of an id
abbrev pub lookup : String → List OutboxRow → Option OutboxRow
lookup id = first (by_id id)

abbrev pub HasUniqueIds : List OutboxRow → Type 0
HasUniqueIds [] = Unit
HasUniqueIds (r ∷ rs) = (lookup r.id rs ≡ none) × HasUniqueIds rs

-- an assignment that leaves the id
abbrev pub KeepsId : (OutboxRow → OutboxRow) → Type 0
KeepsId f = (r : OutboxRow) → (f r).id ≡ r.id

module _ (id : String) (f : OutboxRow → OutboxRow) (keeps : KeepsId f) where
  pub lookup-update_self :
      (rs : List OutboxRow) → lookup id (update_rows (by_id id) f rs) ≡ Option.map f (lookup id rs)
  unfolding update_rows
  lookup-update_self [] = refl
  lookup-update_self (r ∷ rs) = ground (arith, keeps r, lookup-update_self rs)

  pub lookup-update_ne :
      (p : OutboxRow → Bool) (j : String) (rs : List OutboxRow)
      → ((r : OutboxRow) → p r ≡ true → str_eq r.id j ≡ false)
      → lookup j (update_rows p f rs) ≡ lookup j rs
  unfolding update_rows
  lookup-update_ne p j [] h = refl
  lookup-update_ne p j (r ∷ rs) h = ground (arith, keeps r, h r, lookup-update_ne p j rs h)

  lookup-update_none :
      (p : OutboxRow → Bool) (j : String) (rs : List OutboxRow)
      → lookup j rs ≡ none
      → lookup j (update_rows p f rs) ≡ none
  unfolding update_rows
  lookup-update_none p j [] h = refl
  lookup-update_none p j (r ∷ rs) h = ground (arith, keeps r, lookup-update_none p j rs)

  updated_id : (b : Bool) (r : OutboxRow) → (if b then f r else r).id ≡ r.id
  updated_id true r = keeps r
  updated_id false r = refl

  pub HasUniqueIds-update :
      (p : OutboxRow → Bool) (rs : List OutboxRow)
      → HasUniqueIds rs
      → HasUniqueIds (update_rows p f rs)
  unfolding update_rows
  HasUniqueIds-update p [] u = tt
  HasUniqueIds-update p (r ∷ rs) (fresh, u) =
      (rw (updated_id (p r) r) (lookup-update_none p r.id rs fresh), HasUniqueIds-update p rs u)

-- the claim's statement changes the row of its id if that row is open
pub lookup-claim :
    (id : String) (now : ℕ) (rs : List OutboxRow)
    → lookup id (update_rows (is_claimable id) (set_claimed now) rs)
      ≡ Option.map (λ r. if is_open r.status then set_claimed now r else r) (lookup id rs)
unfolding update_rows
lookup-claim id now [] = refl
lookup-claim id now (r ∷ rs) = ground (arith, lookup-claim id now rs)

-- after the claim's statement no row of the id can be claimed
pub claim_exhausts :
    (id : String) (now : ℕ) (rs : List OutboxRow)
    → first (is_claimable id) (update_rows (is_claimable id) (set_claimed now) rs) ≡ none
unfolding update_rows
claim_exhausts id now [] = refl
claim_exhausts id now (r ∷ rs) = ground (arith, claim_exhausts id now rs)

first_absent :
    (id : String) (rs : List OutboxRow) → lookup id rs ≡ none → first (is_claimable id) rs ≡ none
first_absent id [] h = refl
first_absent id (r ∷ rs) h = ground (arith, first_absent id rs)

-- with distinct ids, the row that is claimed is the row of the id
pub first-claimable :
    (id : String) (rs : List OutboxRow) {r : OutboxRow}
    → HasUniqueIds rs
    → first (is_claimable id) rs ≡ some r
    → (lookup id rs ≡ some r) × (is_open r.status ≡ true)
first-claimable id [] u h = cc
first-claimable id (x ∷ rs) {r} (fresh, u) h =
    ground (arith, eq_iff x.id id, first_absent id rs, first-claimable id rs {r = r} u)

pub count-eq-zero :
    (id : String) (rs : List OutboxRow) → count_rows (by_id id) rs ≡ 0 → lookup id rs ≡ none
unfolding count_rows
count-eq-zero id [] h = refl
count-eq-zero id (r ∷ rs) h = ground (arith, count-eq-zero id rs)

pub count-ne-zero :
    (id : String) (rs : List OutboxRow) {r : OutboxRow}
    → lookup id rs ≡ some r
    → count_rows (by_id id) rs ≢ 0
unfolding count_rows
count-ne-zero id [] h = cc
count-ne-zero id (x ∷ rs) {r} h = ground (arith, count-ne-zero id rs {r = r})

pub count_absent :
    (id : String) (rs : List OutboxRow) → lookup id rs ≡ none → count_rows (by_id id) rs ≡ 0
unfolding count_rows
count_absent id [] h = refl
count_absent id (r ∷ rs) h = ground (arith, count_absent id rs)

pub lookup-id :
    (id : String) (rs : List OutboxRow) {r : OutboxRow} → lookup id rs ≡ some r → r.id ≡ id
lookup-id id [] h = cc
lookup-id id (x ∷ rs) {r} h = ground (arith, eq_iff x.id id, lookup-id id rs {r = r})
