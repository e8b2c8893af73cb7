-- ===== src/Libraries.antt =====
-- What the service asks of packages that are not in the repository: google/uuid, encoding/json,
-- net/url and crypto/sha256, each as a function. A marshaller or a parser answers `none` when it fails.
use svc_web_analyzer.Prelude.{String, Option}
use svc_web_analyzer.Domain.{
  Analysis, AnalysisData, AnalysisOptions, AnalysisRequestPayload, Payload,
}

pub record Libraries : Type 0 where
  -- uuid.Parse followed by String
  pub parse_uuid : String → Option String
  -- uuid.NewSHA1(namespace, name)
  pub new_sha1 : String → String → String
  -- the SHA-256 digest of a content in hexadecimal
  pub sha256_hex : String → String
  -- domain.NewNormalizedURL over net/url
  pub normalize_url : String → Option String
  pub marshal_payload : Payload → Option String
  pub unmarshal_request : String → Option AnalysisRequestPayload
  pub unmarshal_any : String → Option String
  pub marshal_options : AnalysisOptions → Option String
  pub marshal_results : AnalysisData → Option String
  pub unmarshal_results : String → Option AnalysisData
  pub marshal_analysis : Analysis → Option String
  pub unmarshal_analysis : String → Option Analysis
  -- the JSON text of a `queue.Message` with this body
  pub marshal_message : Payload → Option String
  -- what the driver reports for a second row with one primary key
  pub duplicate_key : String
