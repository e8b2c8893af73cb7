-- ===== src/World.antt =====
-- What the service reads and writes outside its own memory, as one state, and the monad of actions
-- over it. `script` answers the calls of the drivers in order: a fault, or success at a time.
use svc_web_analyzer.Prelude.{
  ◌≡◌, refl, ◌⊎◌, inl, inr, ℕ, suc, String, Bool, Option, none, some, List,
}
use svc_web_analyzer.Domain.{
  AnalysisStatus, OutboxStatus, Priority, Error, Result, ok, err, failure, wrapped,
}

-- internal/adapters/repos/outbox_repository.go, `outboxEventRow`
pub record OutboxRow : Type 0 where
  pub id : String
  pub aggregate_id : String
  pub aggregate_type : String
  pub event_type : String
  pub priority : Priority
  pub retry_count : ℕ
  pub max_retries : ℕ
  pub status : OutboxStatus
  pub payload : String
  pub error_details : Option String
  pub created_at : ℕ
  pub started_at : Option ℕ
  pub published_at : Option ℕ
  pub processed_at : Option ℕ
  pub completed_at : Option ℕ
  pub next_retry_at : Option ℕ

-- internal/adapters/repos/analysis_repository.go, `analysisRow` and the columns that only
-- statements name
pub record AnalysisRow : Type 0 where
  pub id : String
  pub url : String
  pub url_normalized : String
  pub status : AnalysisStatus
  pub version : ℕ
  pub content_hash : Option String
  pub content_size : Option ℕ
  pub created_at : ℕ
  pub completed_at : Option ℕ
  pub duration : Option ℕ
  pub results : Option String
  pub error_code : Option String
  pub error_message : Option String
  pub error_status_code : Option ℕ
  pub error_details : Option String
  pub lock_version : ℕ

-- what a driver answers: an error by its text, or success, and the time that it reads
pub record Answer : Type 0 where
  pub fault : Option String
  pub at : ℕ

-- amqp.Publishing, with the exchange and the routing key that it goes to
pub record Publication : Type 0 where
  pub exchange : String
  pub routing_key : String
  pub body : String
  pub retry_count : Option ℕ

pub record World : Type 0 where
  pub script : ℕ → Answer
  pub calls : ℕ
  pub outbox : List OutboxRow
  pub analyses : List AnalysisRow
  pub cache : List (String × String)
  -- the connection to the broker is open
  pub connected : Bool
  -- what the broker took, oldest first
  pub sent : List Publication

-- `(T, error)` from a method that works on the world
abbrev pub M {ℓ} : Type ℓ → Type ℓ
M A = World → Result A × World

module _ {ℓ} {A : Type ℓ} where
  abbrev pub pure : A → M A
  pure a w = (ok a, w)

  abbrev pub fail : Error → M A
  fail e w = (err e, w)

  abbrev pub lifted : Result A → M A
  lifted r w = (r, w)

  -- fmt.Errorf("label: %w", err)
  abbrev pub relabel : String → Result A × World → Result A × World
  relabel s (ok a, w) = (ok a, w)
  relabel s (err e, w) = (err (wrapped s e), w)

  abbrev pub labelled : String → M A → M A
  labelled s m w = relabel s (m w)

module _ {ℓ κ} {A : Type ℓ} {B : Type κ} where
  abbrev pub proceed : Result A × World → (A → M B) → Result B × World
  proceed (ok a, w) f = f a w
  proceed (err e, w) f = (err e, w)

  infixl 5 ◌>>=◌
  abbrev pub ◌>>=◌ : M A → (A → M B) → M B
  ◌>>=◌ m f w = proceed (m w) f

infixl 5 ◌>>◌
abbrev pub ◌>>◌ {ℓ} : {B : Type ℓ} → M (Unit {0}) → M B → M B
m >> n = m >>= λ _. n

-- `if err := e; err != nil { log it }`: the failure is dropped
abbrev pub ignored : Result (Unit {0}) × World → Result (Unit {0}) × World
ignored (r, w) = (ok tt, w)

abbrev pub attempt : M (Unit {0}) → M (Unit {0})
attempt m w = ignored (m w)

abbrev pub answered : Option String → ℕ → Result ℕ
answered none t = ok t
answered (some e) t = err (failure e)

-- one call of a driver
unfoldable pub external : M ℕ
external w =
    (answered (w.script w.calls).fault (w.script w.calls).at, record w { calls = suc w.calls })

-- `defer tx.Rollback()`: the tables are again what they were when the transaction began
abbrev pub roll_back : World → World → World
roll_back begun w = record w { outbox = begun.outbox; analyses = begun.analyses }

module _ {ℓ} {A : Type ℓ} where
  abbrev pub committed : World → A → Result ℕ × World → Result A × World
  committed begun a (ok t, w) = (ok a, w)
  committed begun a (err e, w) = (err (wrapped "failed to commit transaction" e), roll_back begun w)

  -- what follows the statements of a transaction: `tx.Commit()` after success, and the rollback
  unfoldable pub close_tx : World → Result A × World → Result A × World
  unfolding external
  close_tx begun (ok a, w) = committed begun a (external w)
  close_tx begun (err e, w) = (err e, roll_back begun w)

  -- conn.BeginTxx, the statements, tx.Commit
  unfoldable pub in_tx : M A → M A
  in_tx body = do _ ← labelled "failed to begin transaction" external; λ w. close_tx w (body w)

-- what a call returned, with the world that it left
pub outcome {ℓ} :
    {A : Type ℓ} (r : Result A × World)
    → ((a : A) × (v : World) × (r ≡ (ok a, v))) ⊎ ((e : Error) × (v : World) × (r ≡ (err e, v)))
outcome (ok a, v) = inl (a, v, refl)
outcome (err e, v) = inr (e, v, refl)

pub relabel_ok {ℓ} :
    {A : Type ℓ} (label : String) (r : Result A × World) {a : A} {v : World}
    → relabel label r ≡ (ok a, v)
    → r ≡ (ok a, v)
relabel_ok label (ok b, w) h = h
relabel_ok label (err e, w) h = cc

-- a bind that succeeds, taken apart
pub proceed_ok {ℓ κ} :
    {A : Type ℓ} {B : Type κ} (r : Result A × World) (f : A → M B) {b : B} {v : World}
    → proceed r f ≡ (ok b, v)
    → (a : A) × (u : World) × (r ≡ (ok a, u)) × (f a u ≡ (ok b, v))
proceed_ok (ok a, w) f h = (a, w, refl, h)
proceed_ok (err e, w) f h = cc
