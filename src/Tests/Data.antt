-- ===== src/Tests/Data.antt =====
-- Small concrete libraries, tables and services.
use svc_web_analyzer.Prelude.{
  ℕ, String, ◌<>◌, true, false, none, some, List, [], str_eq, if◌then◌else◌,
}
use svc_web_analyzer.Domain.{
  AnalysisData, AnalysisOptions, AnalysisRequestPayload, AnalysisStatus, HtmlVersion, OutboxEvent,
  OutboxStatus, request, Priority, WebPageContent, ok,
}
use svc_web_analyzer.World.{Answer, AnalysisRow, OutboxRow, World}
use svc_web_analyzer.Libraries.{Libraries}
use svc_web_analyzer.Publisher.{PublisherService}
use svc_web_analyzer.Subscriber.Work.{SubscriberService}
use svc_web_analyzer.Application.{AppService}

abbrev pub options : AnalysisOptions
options = record { include_headings = true; check_links = false; detect_forms = true; timeout = 30 }

abbrev pub payload : AnalysisRequestPayload
payload = record {
  analysis_id = "a1";
  url = "http://a.test";
  options = options;
  priority = Priority.normal;
  created_at = 5;
}

abbrev pub found : AnalysisData
found = record {
  html_version = HtmlVersion.html5;
  title = "A page";
  heading_counts = record { h1 = 1; h2 = 0; h3 = 0; h4 = 0; h5 = 0; h6 = 0 };
  links = record {
    internal_count = 0;
    external_count = 0;
    total_count = 0;
    external_links = [];
    inaccessible_links = [];
  };
  forms = record { total_count = 0; login_forms_detected = 0; login_form_details = [] };
  fetch_time = 0;
  processing_time = 0;
}

-- two spellings of one page have one normal form
abbrev pub lib : Libraries
lib = record {
  parse_uuid = λ s. some s;
  new_sha1 = λ space name. space <> "/" <> name;
  sha256_hex = λ s. "sha:" <> s;
  normalize_url = λ u. if str_eq u "HTTP://a.test" then some "http://a.test" else some u;
  marshal_payload = λ p. some "{}";
  unmarshal_request = λ s. some payload;
  unmarshal_any = λ s. some s;
  marshal_options = λ o. some "{}";
  marshal_results = λ d. some "{}";
  unmarshal_results = λ s. some found;
  marshal_analysis = λ a. some a.id;
  unmarshal_analysis = λ s. none;
  marshal_message = λ p. some "body";
  duplicate_key = "duplicate key";
}

abbrev pub row : String → OutboxStatus → ℕ → OutboxRow
row id status retries = record {
  id = id;
  aggregate_id = "a1";
  aggregate_type = "analysis";
  event_type = "analysis.requested";
  priority = Priority.normal;
  retry_count = retries;
  max_retries = 3;
  status = status;
  payload = "{}";
  error_details = none;
  created_at = 5;
  started_at = none;
  published_at = none;
  processed_at = none;
  completed_at = none;
  next_retry_at = none;
}

abbrev pub event : String → OutboxStatus → ℕ → OutboxEvent
event id status retries = record {
  id = id;
  aggregate_id = "a1";
  aggregate_type = "analysis";
  event_type = "analysis.requested";
  priority = Priority.normal;
  retry_count = retries;
  max_retries = 3;
  status = status;
  payload = request payload;
  error_details = none;
  created_at = 5;
  started_at = none;
  published_at = none;
  processed_at = none;
  completed_at = none;
  next_retry_at = none;
}

abbrev pub analysis_row : String → String → AnalysisRow
analysis_row id url = record {
  id = id;
  url = url;
  url_normalized = "http://a.test";
  status = AnalysisStatus.requested;
  version = 1;
  content_hash = none;
  content_size = none;
  created_at = 5;
  completed_at = none;
  duration = none;
  results = none;
  error_code = none;
  error_message = none;
  error_status_code = none;
  error_details = none;
  lock_version = 1;
}

abbrev pub succeeds : ℕ → Answer
succeeds n = record { fault = none; at = 100 }

abbrev pub fails : ℕ → Answer
fails n = record { fault = some "connection refused"; at = 100 }

abbrev pub world : (ℕ → Answer) → List OutboxRow → List AnalysisRow → World
world script outbox analyses = record {
  script = script;
  calls = 0;
  outbox = outbox;
  analyses = analyses;
  cache = [];
  connected = true;
  sent = [];
}

abbrev pub publisher : PublisherService
publisher = record { lib = lib; exchange_name = "events"; backoff = λ retries call. 7 }

abbrev pub page : WebPageContent
page = record {
  url = "http://a.test";
  status_code = 200;
  html = "<p>";
  content_type = "text/html";
  headers = [];
  fetch_duration = 9;
}

abbrev pub subscriber : SubscriberService
subscriber = record {
  lib = lib;
  has_cache = false;
  fetch = λ url timeout n. ok page;
  analyze = λ url html o n. ok found;
  link_checker = none;
}

abbrev pub app : AppService
app = record { lib = lib; max_retries = record { low = 3; normal = 5; high = 7; urgent = 10 } }
