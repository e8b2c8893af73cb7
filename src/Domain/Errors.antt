-- ===== src/Domain/Errors.antt =====
-- internal/domain/errors.go, and what the errors, fmt and database/sql packages add: the chain that
-- `errors.Is` walks and the text that `err.Error()` prints.
use svc_web_analyzer.Prelude.{
  ℕ, zero, suc, ◌/◌, ◌%◌, String, ◌<>◌, Bool, true, false, ltb, ◌==◌, if◌then◌else◌,
}

pub data Error : Type 0 where
  no_rows : Error  -- sql.ErrNoRows
  open_state : Error  -- gobreaker.ErrOpenState
  failure : String → Error  -- an error of a library, by its text
  message : String → Error  -- errors.New, or fmt.Errorf with no %w
  wrapped : String → Error → Error  -- fmt.Errorf("text: %w", err)
  -- DomainError: code, message, status code and cause; the details are for display only
  domain_error : String → String → ℕ → Error → Error
  optimistic_lock : ℕ → ℕ → Error
  invalid_transition : String → String → Error
  max_retries_exceeded : String → ℕ → ℕ → Error

pub data Result {ℓ} (A : Type ℓ) : Type ℓ where
  ok : A → Result A
  err : Error → Result A

unfoldable pub is_no_rows : Error → Bool
is_no_rows no_rows = true
is_no_rows (wrapped s e) = is_no_rows e
is_no_rows (domain_error c m n e) = is_no_rows e
is_no_rows _ = false

unfoldable pub is_open_state : Error → Bool
is_open_state open_state = true
is_open_state (wrapped s e) = is_open_state e
is_open_state (domain_error c m n e) = is_open_state e
is_open_state _ = false

digit : ℕ → String
digit n =
    if n == 0
    then "0"
    else if n == 1
    then "1"
    else if n == 2
    then "2"
    else if n == 3
    then "3"
    else if n == 4
    then "4"
    else if n == 5
    then "5"
    else if n == 6
    then "6"
    else if n == 7
    then "7"
    else if n == 8
    then "8"
    else "9"

-- `%d`; a number below the fuel has fewer digits than that
decimal_digits : ℕ → ℕ → String
decimal_digits zero n = ""
decimal_digits (suc fuel) n =
    let more = decimal_digits fuel (n / 10) <> digit (n % 10) in if ltb n 10 then digit n else more

unfoldable pub decimal : ℕ → String
unfolding decimal_digits digit
decimal n = decimal_digits (suc n) n

unfoldable pub error_text : Error → String
unfolding decimal
error_text no_rows = "sql: no rows in result set"
error_text open_state = "circuit breaker is open"
error_text (failure s) = s
error_text (message s) = s
error_text (wrapped s e) = s <> ": " <> error_text e
error_text (domain_error c m n e) = m <> ": " <> error_text e
error_text (optimistic_lock expected actual) =
    "optimistic lock failed: expected version " <> decimal expected <> ", got " <> decimal actual
error_text (invalid_transition from to) = "invalid state transition from " <> from <> " to " <> to
error_text (max_retries_exceeded id count max) =
    "max retries exceeded for event " <> id <> ": " <> decimal count <> "/" <> decimal max
