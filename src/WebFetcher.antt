-- ===== src/WebFetcher.antt =====
-- internal/adapters/web_fetcher.go: which URLs are fetched, and which answers are taken for a page.
-- The HTTP client, the circuit breaker, packages net, net/url and strings are parameters.
pub mod Fetched
use svc_web_analyzer.Prelude.{
  ℕ, ◌≤◌, String, ◌<>◌, Bool, true, false, not, ◌&&◌, ◌||◌, Option, none, some, List, [], ◌∷◌, any,
  leb, ltb, ◌==◌, str_eq, if◌then◌else◌,
}
use svc_web_analyzer.Domain.{
  WebPageContent, Error, Result, ok, err, decimal, domain_error, is_open_state, message, wrapped,
}

-- what the code reads of a parsed URL
pub record Url : Type 0 where
  pub scheme : String
  pub host : String
  pub hostname : String

-- the four bytes of an address that net.ParseIP and To4 find
pub record Ip4 : Type 0 where
  pub byte0 : ℕ
  pub byte1 : ℕ
  pub byte2 : ℕ
  pub byte3 : ℕ

-- an answer; `size` is the length of its body in bytes, `headers` the first value of each header
pub record HttpResponse : Type 0 where
  pub url : String
  pub status_code : ℕ
  pub status : String
  pub body : String
  pub size : ℕ
  pub content_type : String
  pub headers : List (String × String)

-- `n` numbers the calls; `get` has the timeout that it runs with, and the client's own retries
pub record WebFetcher : Type 0 where
  pub max_response_size_bytes : ℕ
  pub parse_url : String → Result Url
  pub parse_ip4 : String → Option Ip4
  pub to_lower : String → String
  pub has_suffix : String → String → Bool
  pub before_last_colon : String → Option String
  pub byte_length : String → ℕ
  pub refuses : ℕ → Option Error
  pub get : String → ℕ → ℕ → Result HttpResponse
  pub elapsed : ℕ → ℕ

abbrev pub private_hosts : List String
private_hosts = "localhost" ∷ "127.0.0.1" ∷ "::1" ∷ "0.0.0.0" ∷ []

-- 10.0.0.0/8, 172.16.0.0/12 and 192.168.0.0/16
abbrev pub is_private_ip4 : Ip4 → Bool
is_private_ip4 ip =
    ip.byte0 == 10
    || (ip.byte0 == 172 && leb 16 ip.byte1 && leb ip.byte1 31)
    || (ip.byte0 == 192 && ip.byte1 == 168)

abbrev pub min_input_size : ℕ
min_input_size = 3

abbrev pub max_input_size : ℕ
max_input_size = 10000

module _ (f : WebFetcher) where
  abbrev pub is_private_host : String → Bool
  is_private_host lower = any (λ h. str_eq lower h || f.has_suffix lower ("." <> h)) private_hosts

  abbrev pub or_host : String → Option String → String
  or_host host none = host
  or_host host (some stripped) = stripped

  abbrev pub is_private_address : Option Ip4 → Bool
  is_private_address none = false
  is_private_address (some ip) = is_private_ip4 ip

  abbrev pub is_private_or_local_url : String → Bool
  is_private_or_local_url host =
      if is_private_host (f.to_lower host)
      then true
      else is_private_address (f.parse_ip4 (or_host host (f.before_last_colon host)))

  abbrev pub check_url : Result Url → Result (Unit {0})
  check_url (err e) = err (wrapped "invalid URL format" e)
  check_url (ok u) =
      if str_eq u.scheme ""
      then err (message "URL must include a scheme (http or https)")
      else if not (str_eq u.scheme "http") && not (str_eq u.scheme "https")
      then err (message ("URL scheme must be http or https, got: " <> u.scheme))
      else if str_eq u.host ""
      then err (message "URL must include a host")
      else if is_private_or_local_url u.hostname
      then err (message "access to private or local networks is not allowed")
      else ok tt

  abbrev pub validate_url : String → Result (Unit {0})
  validate_url url =
      if str_eq url ""
      then err (message "URL cannot be empty")
      else if ltb (f.byte_length url) min_input_size
      then err (message ("URL must be at least " <> decimal min_input_size <> " characters long"))
      else if ltb max_input_size (f.byte_length url)
      then err (message ("URL must not exceed " <> decimal max_input_size <> " characters"))
      else check_url (f.parse_url url)

  abbrev pub page_of : HttpResponse → ℕ → WebPageContent
  page_of r n = record {
    url = r.url;
    status_code = r.status_code;
    html = r.body;
    content_type = r.content_type;
    headers = r.headers;
    fetch_duration = f.elapsed n;
  }

  -- the status, then the size
  abbrev pub check_response : String → ℕ → Result HttpResponse → Result WebPageContent
  check_response url n (err e) =
      err (domain_error "URL_NOT_REACHABLE" ("URL " <> url <> " is not reachable") 0 e)
  check_response url n (ok r) =
      if ltb r.status_code 200 || leb 300 r.status_code
      then err (
          domain_error "URL_NOT_REACHABLE" ("URL " <> url <> " is not reachable") r.status_code
            (message ("HTTP " <> decimal r.status_code <> ": " <> r.status)))
      else if ltb f.max_response_size_bytes r.size
      then err (
          domain_error "RESPONSE_TOO_LARGE"
            ("Response size "
              <> decimal r.size
              <> " bytes exceeds maximum allowed "
              <> decimal f.max_response_size_bytes
              <> " bytes")
            413 (message "response is too large"))
      else ok (page_of r n)

  abbrev pub fetch_with_retry : String → ℕ → ℕ → Result WebPageContent
  fetch_with_retry url timeout n = check_response url n (f.get url timeout n)

  -- the breaker's own errors, or those of the call
  abbrev pub failed_fetch : Error → Error
  failed_fetch e =
      if is_open_state e
      then domain_error "CIRCUIT_BREAKER_OPEN"
          "service temporarily unavailable due to repeated failures" 503 e
      else e

  abbrev pub relabelled : Result WebPageContent → Result WebPageContent
  relabelled (ok c) = ok c
  relabelled (err e) = err (failed_fetch e)

  abbrev pub executed : String → ℕ → ℕ → Option Error → Result WebPageContent
  executed url timeout n none = fetch_with_retry url timeout n
  executed url timeout n (some e) = err e

  -- `SetTimeout` on the client that all calls share: a call with no timeout runs with the last one set
  abbrev pub set_timeout : ℕ → ℕ → ℕ
  set_timeout timeout current = if ltb 0 timeout then timeout else current

  abbrev pub after_validation : String → ℕ → ℕ → ℕ → Result (Unit {0}) → Result WebPageContent × ℕ
  after_validation url timeout current n (err e) =
      (err (domain_error "INVALID_URL" ("Invalid URL: " <> url) 400 e), current)
  after_validation url timeout current n (ok _) = (
    relabelled (executed url (set_timeout timeout current) n (f.refuses n)),
    set_timeout timeout current,
  )

  -- with the client's timeout before and after
  unfoldable pub fetch : String → ℕ → ℕ → ℕ → Result WebPageContent × ℕ
  fetch url timeout current n = after_validation url timeout current n (validate_url url)
