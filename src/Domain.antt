-- ===== src/Domain.antt =====
-- internal/domain: the data that every part of the service shares, and the errors it returns.
-- A UUID and a JSON text are strings, a time is a number on one clock; counters are not negative.
pub mod Errors
pub mod Event
pub mod Url
pub mod Version
pub use Errors.*
use svc_web_analyzer.Prelude.{ℕ, String, Bool, Option, List}

pub data AnalysisStatus : Type 0 where
  requested in_progress completed failed : AnalysisStatus

pub data HtmlVersion : Type 0 where
  html5 html401 xhtml10 xhtml11 unknown : HtmlVersion

pub data LinkType : Type 0 where
  internal external : LinkType

pub data EventType : Type 0 where
  started progress completed failed heartbeat : EventType

pub data OutboxStatus : Type 0 where
  pending processing published failed : OutboxStatus

pub data Priority : Type 0 where
  low normal high urgent : Priority

pub record Link : Type 0 where
  pub url : String
  pub type : LinkType

pub record HeadingCounts : Type 0 where
  pub h1 : ℕ
  pub h2 : ℕ
  pub h3 : ℕ
  pub h4 : ℕ
  pub h5 : ℕ
  pub h6 : ℕ

pub record InaccessibleLink : Type 0 where
  pub url : String
  pub status_code : ℕ
  pub error : String

pub record LinkAnalysis : Type 0 where
  pub internal_count : ℕ
  pub external_count : ℕ
  pub total_count : ℕ
  pub external_links : List Link
  pub inaccessible_links : List InaccessibleLink

pub record LoginForm : Type 0 where
  pub method : String
  pub action : String
  pub fields : List String

pub record FormAnalysis : Type 0 where
  pub total_count : ℕ
  pub login_forms_detected : ℕ
  pub login_form_details : List LoginForm

pub record AnalysisData : Type 0 where
  pub html_version : HtmlVersion
  pub title : String
  pub heading_counts : HeadingCounts
  pub links : LinkAnalysis
  pub forms : FormAnalysis
  pub fetch_time : ℕ
  pub processing_time : ℕ

pub record AnalysisError : Type 0 where
  pub code : String
  pub message : String
  pub status_code : ℕ
  pub details : String

pub record AnalysisOptions : Type 0 where
  pub include_headings : Bool
  pub check_links : Bool
  pub detect_forms : Bool
  pub timeout : ℕ

pub record Analysis : Type 0 where
  pub id : String
  pub url : String
  pub status : AnalysisStatus
  pub content_hash : String
  pub content_size : ℕ
  pub created_at : ℕ
  pub completed_at : Option ℕ
  pub duration : Option ℕ
  pub results : Option AnalysisData
  pub error : Option AnalysisError
  pub lock_version : ℕ

pub record WebPageContent : Type 0 where
  pub url : String
  pub status_code : ℕ
  pub html : String
  pub content_type : String
  pub headers : List (String × String)
  pub fetch_duration : ℕ

-- the payload of an analysis event
pub record AnalysisRequestPayload : Type 0 where
  pub analysis_id : String
  pub url : String
  pub options : AnalysisOptions
  pub priority : Priority
  pub created_at : ℕ

-- `Payload any`: a request, or the JSON value of an event of another type
pub data Payload : Type 0 where
  request : AnalysisRequestPayload → Payload
  generic : String → Payload

pub record OutboxEvent : Type 0 where
  pub id : String
  pub aggregate_id : String
  pub aggregate_type : String
  pub event_type : String
  pub priority : Priority
  pub retry_count : ℕ
  pub max_retries : ℕ
  pub status : OutboxStatus
  pub payload : Payload
  pub error_details : Option String
  pub created_at : ℕ
  pub started_at : Option ℕ
  pub published_at : Option ℕ
  pub processed_at : Option ℕ
  pub completed_at : Option ℕ
  pub next_retry_at : Option ℕ

pub record ProcessResult : Type 0 where
  pub success : Bool
  pub content_hash : String
  pub error_code : String
  pub error_message : String

pub record PublishResult : Type 0 where
  pub published : Bool
  pub error : String

-- the texts of the event types that the outbox knows
abbrev pub analysis_requested : String
analysis_requested = "analysis.requested"

abbrev pub analysis_retry : String
analysis_retry = "analysis.retry"
