-- ===== src/LinkChecker.antt =====
-- internal/adapters/link_checker.go: which links of a page are checked, and what a check reports.
-- The HTTP client, the circuit breaker and net/url are parameters; the checks of one page run at
-- once, so the order in which they end is a parameter too.
pub mod Filter
pub mod Checks
use svc_web_analyzer.Prelude.{
  ℕ, String, Bool, true, false, Option, none, some, List, [], ◌∷◌, leb, if◌then◌else◌, take, member,
}
use svc_web_analyzer.Domain.{
  Link, LinkType, InaccessibleLink, Error, Result, ok, err, error_text, is_open_state,
}

pub record Response : Type 0 where
  pub status_code : ℕ
  pub status : String

-- `n` numbers the calls: the same link may answer differently at another time. `refuses n` is the
-- breaker's own error, when it does not run the call.
pub record LinkChecker : Type 0 where
  pub max_links_to_check : ℕ
  pub parses : String → Bool
  pub refuses : ℕ → Option Error
  pub head : String → ℕ → Result Response
  pub get : String → ℕ → Result Response
  pub finished : List Link → List (Link × ℕ)

pub record CheckResult : Type 0 where
  pub status_code : ℕ
  pub error : String

abbrev pub is_internal : LinkType → Bool
is_internal LinkType.internal = true
is_internal LinkType.external = false

module _ (c : LinkChecker) where
  -- the loop, with the URLs it has seen
  abbrev pub filter_from : List String → List Link → List Link
  filter_from seen [] = []
  filter_from seen (link ∷ links) =
      let skip = filter_from seen links in
      let marked = filter_from (link.url ∷ seen) links in
      if is_internal link.type
      then skip
      else if member link.url seen
      then skip
      else if c.parses link.url
      then link ∷ marked
      else marked

  abbrev pub filter_external_links : List Link → List Link
  filter_external_links links = filter_from [] links

  abbrev pub check_result : Response → CheckResult
  check_result r = record {
    status_code = r.status_code;
    error = if leb 400 r.status_code then r.status else "";
  }

  abbrev pub after_get : Result Response → Result CheckResult
  after_get (ok r) = ok (check_result r)
  after_get (err e) = err e

  -- a HEAD request first; if it fails, a GET request
  abbrev pub after_head : String → ℕ → Result Response → Result CheckResult
  after_head url n (ok r) = ok (check_result r)
  after_head url n (err e) = after_get (c.get url n)

  abbrev pub perform_link_check : String → ℕ → Result CheckResult
  perform_link_check url n = after_head url n (c.head url n)

  -- the breaker runs the call, or answers with its own error
  abbrev pub guarded : String → ℕ → Option Error → Result CheckResult
  guarded url n none = perform_link_check url n
  guarded url n (some e) = err e

  abbrev pub report : Link → Result CheckResult → Option InaccessibleLink
  report link (ok r) =
      if leb 400 r.status_code
      then some (record { url = link.url; status_code = r.status_code; error = r.error })
      else none
  report link (err e) =
      if is_open_state e
      then some (record {
        url = link.url;
        status_code = 503;
        error = "Service temporarily unavailable (circuit breaker open)";
      })
      else some (record { url = link.url; status_code = 0; error = error_text e })

  abbrev pub check_single_link : Link → ℕ → Option InaccessibleLink
  check_single_link link n = report link (guarded link.url n (c.refuses n))

  abbrev pub appended : Option InaccessibleLink → List InaccessibleLink → List InaccessibleLink
  appended none rest = rest
  appended (some l) rest = l ∷ rest

  -- one goroutine for each link; each appends what it found when it ends
  abbrev pub gathered : List (Link × ℕ) → List InaccessibleLink
  gathered [] = []
  gathered ((link, n) ∷ checks) = appended (check_single_link link n) (gathered checks)

  abbrev pub check_links : List Link → List InaccessibleLink
  check_links links = gathered (c.finished links)

  abbrev pub check_accessibility : List Link → List InaccessibleLink
  check_accessibility [] = []
  check_accessibility (link ∷ links) =
      check_links (take c.max_links_to_check (filter_external_links (link ∷ links)))
