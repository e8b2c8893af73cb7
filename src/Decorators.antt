-- ===== src/Decorators.antt =====
-- internal/shared/decorator: logging, tracing and metrics around a handler, and the handlers of
-- internal/usecases, which call one method of a service each. The clock is a script, a duration is in
-- nanoseconds, and the name of an action, which package fmt finds, is given.
pub mod Handlers
use svc_web_analyzer.Prelude.{
  ◌≡◌, refl, ℕ, suc, ◌-◌, String, ◌<>◌, Bool, true, false, List, [], ◌∷◌, ◌++◌, arith,
}
use svc_web_analyzer.Domain.{Error, Result, ok, err}
use svc_web_analyzer.Domain.Errors.{error_text}
use svc_web_analyzer.World.{World}

-- what differs between commands and queries: the prefixes of the counts and of the spans, and a noun
pub record Kind : Type 0 where
  pub counts : String
  pub spans : String
  pub noun : String

abbrev pub commands : Kind
commands = record { counts = "commands"; spans = "commands"; noun = "command" }

abbrev pub queries : Kind
queries = record { counts = "querys"; spans = "queries"; noun = "query" }

-- a line of the log: its text, and the error that it has
pub data Entry : Type 0 where
  traced : String → Entry
  failed : String → Error → Entry

pub record Span : Type 0 where
  pub tracer : String
  pub duration : ℕ
  pub is_error : Bool
  pub status : String
  pub event : String

pub record Telemetry : Type 0 where
  pub logs : List Entry
  pub spans : List Span
  pub counts : List (String × ℕ)
  pub readings : ℕ

-- a handler acts on the world, and the layers around it on the telemetry
abbrev pub Handler : Type 0 → Type 0 → Type 0
Handler C R = C → World × Telemetry → Result R × (World × Telemetry)

abbrev pub is_failure {ℓ} : {R : Type ℓ} → Result R → Bool
is_failure (ok r) = false
is_failure (err e) = true

-- a call of a service, which has no part in the telemetry
abbrev pub bare : {C R : Type 0} → (C → World → Result R × World) → Handler C R
bare call c (w, t) = ((call c w).0, ((call c w).1, t))

-- a deferred call sees the result, which it leaves
abbrev deferred :
    {R : Type 0}
    → (Result R → Telemetry → Telemetry)
    → Result R × (World × Telemetry)
    → Result R × (World × Telemetry)
deferred last (r, (w, t)) = (r, (w, last r t))

module _ (clock : ℕ → ℕ) (seconds : ℕ → ℕ) (kind : Kind) (action : String) where
  abbrev read_clock : Telemetry → Telemetry
  read_clock t = record t { readings = suc t.readings }

  -- the time since the reading `start`
  abbrev since : ℕ → Telemetry → ℕ
  since begun t = clock t.readings - clock begun

  abbrev outcome_key : Bool → String
  outcome_key true = "failure"
  outcome_key false = "success"

  -- the deferred call of the metrics
  abbrev count : ℕ → Bool → Telemetry → Telemetry
  count start is_error t = record (read_clock t) {
    counts =
        t.counts
        ++ (kind.counts <> "." <> action <> ".duration", seconds (since start t))
          ∷ (kind.counts <> "." <> action <> "." <> outcome_key is_error, 1)
          ∷ [];
  }

  abbrev status_text : Bool → String
  status_text true = kind.spans <> "." <> action <> ".failure"
  status_text false = kind.spans <> "." <> action

  -- the deferred call of the tracing
  abbrev trace : ℕ → Bool → Telemetry → Telemetry
  trace start is_error t = record (read_clock t) {
    spans =
        t.spans
        ++ record {
          tracer = kind.spans <> "." <> action;
          duration = since start t;
          is_error = is_error;
          status = status_text is_error;
          event = kind.spans <> "." <> action <> "." <> outcome_key is_error;
        }
          ∷ [];
  }

  -- the deferred call of the logging
  abbrev entry : {R : Type 0} → Result R → Entry
  entry (ok r) = traced (kind.noun <> " executed successfully")
  entry (err e) = failed ("failed to execute " <> kind.noun) e

  abbrev log : {R : Type 0} → Result R → Telemetry → Telemetry
  log r t = record t { logs = t.logs ++ entry r ∷ [] }

  -- what a call adds to the telemetry: one entry, one span and two counts, all of one outcome
  pub record IsObserved {R : Type 0} (r : Result R) (before after : Telemetry) : Type 0 where
    pub logs_added : after.logs ≡ before.logs ++ entry r ∷ []
    pub span : Span
    pub spans_added : after.spans ≡ before.spans ++ span ∷ []
    pub same_outcome : span.is_error ≡ is_failure r
    pub took : ℕ
    pub counts_added :
        after.counts
        ≡ before.counts
          ++ (kind.counts <> "." <> action <> ".duration", took)
            ∷ (kind.counts <> "." <> action <> "." <> outcome_key (is_failure r), 1)
            ∷ []

  module _ {C R : Type 0} where
    unfoldable pub metrics_decorator : Handler C R → Handler C R
    metrics_decorator base c (w, t) =
        deferred (λ r. count t.readings (is_failure r)) (base c (w, read_clock t))

    unfoldable pub tracing_decorator : Handler C R → Handler C R
    tracing_decorator base c (w, t) =
        deferred (λ r. trace t.readings (is_failure r)) (base c (w, read_clock t))

    -- the entry that is begun before the call is never sent
    unfoldable pub logging_decorator : Handler C R → Handler C R
    logging_decorator base c (w, t) = deferred log (base c (w, t))

    unfoldable pub apply_decorators : Handler C R → Handler C R
    apply_decorators handler = logging_decorator (tracing_decorator (metrics_decorator handler))

    -- A decorated call returns what the call returns and leaves the world as the call does, and it
    -- adds one entry to the log, one span and two counts, which agree on whether it failed.
    pub apply_decorators-IsObserved :
        (call : C → World → Result R × World) (c : C) (w : World) (t : Telemetry)
        → let out = apply_decorators (bare call) c (w, t) in
          (out.0 ≡ (call c w).0) × (out.1.0 ≡ (call c w).1) × IsObserved (call c w).0 t out.1.1
    unfolding apply_decorators logging_decorator tracing_decorator metrics_decorator
    apply_decorators-IsObserved call c w t = (
      refl,
      refl,
      record {
        logs_added = refl;
        span = record {
          tracer = kind.spans <> "." <> action;
          duration = clock (suc (suc (suc t.readings))) - clock t.readings;
          is_error = is_failure (call c w).0;
          status = status_text (is_failure (call c w).0);
          event = kind.spans <> "." <> action <> "." <> outcome_key (is_failure (call c w).0);
        };
        spans_added = refl;
        same_outcome = refl;
        took = seconds (clock (suc (suc t.readings)) - clock (suc t.readings));
        counts_added = refl;
      },
    )
