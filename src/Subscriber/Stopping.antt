-- ===== src/Subscriber/Stopping.antt =====
-- internal/service/subscriber_service.go: `return &ProcessAnalysisMessageResult{…}, nil` ends the
-- method with a result; a step either goes on with a value or stops with that result.
use svc_web_analyzer.Prelude.{String, ◌<>◌, false}
use svc_web_analyzer.Domain.{ProcessResult, Error, Result, ok, err, error_text}
use svc_web_analyzer.World.{World, M}

pub data Step {ℓ} (A : Type ℓ) : Type ℓ where
  done : A → Step A
  stop : ProcessResult → Step A

abbrev pub Steps {ℓ} : Type ℓ → Type ℓ
Steps A = World → Step A × World

abbrev pub failed_with : String → String → Error → ProcessResult
failed_with code label e = record {
  success = false;
  content_hash = "";
  error_code = code;
  error_message = label <> error_text e;
}

module _ {ℓ} {A : Type ℓ} where
  abbrev pub stopped : String → String → Result A × World → Step A × World
  stopped code label (ok a, w) = (done a, w)
  stopped code label (err e, w) = (stop (failed_with code label e), w)

  -- `if err != nil { return a result with this code and this text, nil }`
  abbrev pub or_stop : String → String → M A → Steps A
  or_stop code label m w = stopped code label (m w)

module _ {ℓ κ} {A : Type ℓ} {B : Type κ} where
  abbrev pub go_on : Step A × World → (A → Steps B) → Step B × World
  go_on (done a, w) f = f a w
  go_on (stop r, w) f = (stop r, w)

  infixl 5 ◌>>=◌
  abbrev pub ◌>>=◌ : Steps A → (A → Steps B) → Steps B
  ◌>>=◌ m f w = go_on (m w) f

infixl 5 ◌>>◌
abbrev pub ◌>>◌ {ℓ} : {B : Type ℓ} → Steps (Unit {0}) → Steps B → Steps B
m >> n = m >>= λ _. n

abbrev pub result_of : Step ProcessResult × World → Result ProcessResult × World
result_of (done r, w) = (ok r, w)
result_of (stop r, w) = (ok r, w)
