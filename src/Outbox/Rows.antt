-- ===== src/Outbox/Rows.antt =====
-- internal/adapters/repos/outbox_repository.go: the conditions, the assignments and the orders that
-- the statements name, as functions of a row.
use svc_web_analyzer.Prelude.{
  ℕ, ◌+◌, String, Bool, true, false, ◌&&◌, ◌||◌, Option, none, some, List, [], ◌∷◌, leb, ltb, ◌==◌,
  if◌then◌else◌, str_eq,
}
use svc_web_analyzer.Domain.{OutboxStatus, Priority}
use svc_web_analyzer.World.{OutboxRow}

abbrev pub is_pending : OutboxStatus → Bool
is_pending OutboxStatus.pending = true
is_pending _ = false

abbrev pub is_failed : OutboxStatus → Bool
is_failed OutboxStatus.failed = true
is_failed _ = false

-- id = $1
abbrev pub by_id : String → OutboxRow → Bool
by_id id r = str_eq r.id id

-- status = 'pending' OR status = 'failed'
abbrev pub is_open : OutboxStatus → Bool
is_open s = is_pending s || is_failed s

-- the condition of the claim
abbrev pub is_claimable : String → OutboxRow → Bool
is_claimable id r = by_id id r && is_open r.status

-- next_retry_at IS NOT NULL AND next_retry_at <= NOW()
abbrev pub is_due : ℕ → Option ℕ → Bool
is_due now none = false
is_due now (some t) = leb t now

-- the condition of FindRetryable
abbrev pub is_retryable : ℕ → OutboxRow → Bool
is_retryable now r =
    is_failed r.status && is_due now r.next_retry_at && ltb r.retry_count r.max_retries

module _ {ℓ} {R : Type ℓ} where
  -- UPDATE … SET … WHERE
  unfoldable pub update_rows : (R → Bool) → (R → R) → List R → List R
  update_rows p f [] = []
  update_rows p f (r ∷ rs) = (if p r then f r else r) ∷ update_rows p f rs

  -- the number of rows that a statement affects
  unfoldable pub count_rows : (R → Bool) → List R → ℕ
  count_rows p [] = 0
  count_rows p (r ∷ rs) = (if p r then 1 else 0) + count_rows p rs

abbrev pub set_claimed : ℕ → OutboxRow → OutboxRow
set_claimed now r = record r { status = OutboxStatus.processing; started_at = some now }

abbrev pub set_published : ℕ → OutboxRow → OutboxRow
set_published now r = record r { status = OutboxStatus.published; published_at = some now }

abbrev pub set_processed : ℕ → OutboxRow → OutboxRow
set_processed now r = record r { processed_at = some now }

abbrev pub set_completed : ℕ → OutboxRow → OutboxRow
set_completed now r = record r { completed_at = some now }

abbrev pub set_failed : String → Option ℕ → ℕ → OutboxRow → OutboxRow
set_failed details next now r = record r {
  status = OutboxStatus.failed;
  retry_count = r.retry_count + 1;
  error_details = some details;
  next_retry_at = next;
}

abbrev pub set_permanently_failed : String → ℕ → OutboxRow → OutboxRow
set_permanently_failed details now r = record r {
  status = OutboxStatus.failed;
  error_details = some details;
  next_retry_at = none;
}

-- the order of the enum type analysis_priority
abbrev pub rank : Priority → ℕ
rank Priority.low = 0
rank Priority.normal = 1
rank Priority.high = 2
rank Priority.urgent = 3

-- ORDER BY priority DESC, created_at ASC
abbrev pub before_pending : OutboxRow → OutboxRow → Bool
before_pending a b =
    ltb (rank b.priority) (rank a.priority)
    || (rank a.priority == rank b.priority && leb a.created_at b.created_at)

-- a NULL sorts last in ascending order
abbrev pub earlier : Option ℕ → Option ℕ → Bool
earlier (some s) (some t) = leb s t
earlier (some s) none = true
earlier none (some t) = false
earlier none none = true

-- ORDER BY next_retry_at ASC
abbrev pub before_retry : OutboxRow → OutboxRow → Bool
before_retry a b = earlier a.next_retry_at b.next_retry_at

-- ORDER BY created_at DESC
abbrev pub newest : OutboxRow → OutboxRow → Bool
newest a b = leb b.created_at a.created_at
