-- ===== src/WebFetcher/Fetched.antt =====
-- internal/adapters/web_fetcher.go: what is known of a page that was fetched.
use svc_web_analyzer.Prelude.{
  ℕ, ◌≤◌, ◌<◌, ◌≡◌, ◌⊎◌, refl, String, false, Option, none, some, arith, eq_iff,
}
use svc_web_analyzer.Domain.{WebPageContent, Error, Result, ok, err}
use svc_web_analyzer.WebFetcher.{
  HttpResponse, Url, WebFetcher, after_validation, check_url, executed, fetch,
  is_private_or_local_url, page_of, relabelled, set_timeout, validate_url,
}

-- a URL that may be fetched
pub record IsFetchable (f : WebFetcher) (url : String) : Type 0 where
  pub parsed : Url
  pub parses : f.parse_url url ≡ ok parsed
  pub is_web : (parsed.scheme ≡ "http") ⊎ (parsed.scheme ≡ "https")
  pub is_public : is_private_or_local_url f parsed.hostname ≡ false
  pub long_enough : 3 ≤ f.byte_length url
  pub short_enough : f.byte_length url ≤ 10000

checked :
    (f : WebFetcher) (url : String) (u : Url)
    → f.parse_url url ≡ ok u
    → 3 ≤ f.byte_length url
    → f.byte_length url ≤ 10000
    → check_url f (ok u) ≡ ok tt
    → IsFetchable f url
checked f url u q low high h = record {
  parsed = u;
  parses = q;
  is_web = ground (arith, eq_iff u.scheme "http", eq_iff u.scheme "https", h);
  is_public = ground (arith, h);
  long_enough = low;
  short_enough = high;
}

validate_url-IsFetchable :
    (f : WebFetcher) (url : String) → validate_url f url ≡ ok tt → IsFetchable f url
validate_url-IsFetchable f url h = go (f.parse_url url) refl
  where
    go : (r : Result Url) → f.parse_url url ≡ r → IsFetchable f url
    go (err e) q = absurd (ground (arith, q, h))
    go (ok u) q = checked f url u q (ground (arith, h)) (ground (arith, h)) (ground (arith, q, h))

-- the page is the answer of the server, a success of a size within the limit
pub record IsAnswer (f : WebFetcher) (url : String) (timeout n : ℕ) (c : WebPageContent)
    : Type 0 where
  pub response : HttpResponse
  pub answered : f.get url timeout n ≡ ok response
  pub is_page : c ≡ page_of f response n
  pub at_least : 200 ≤ response.status_code
  pub below : response.status_code < 300
  pub within : response.size ≤ f.max_response_size_bytes

executed-IsAnswer :
    (f : WebFetcher) (url : String) (timeout n : ℕ) (refusal : Option Error) {c : WebPageContent}
    → relabelled f (executed f url timeout n refusal) ≡ ok c
    → IsAnswer f url timeout n c
executed-IsAnswer f url timeout n (some e) h = absurd (cc)
executed-IsAnswer f url timeout n none {c} h = go (f.get url timeout n) refl
  where
    go : (r : Result HttpResponse) → f.get url timeout n ≡ r → IsAnswer f url timeout n c
    go (err e) q = absurd (ground (arith, q, h))
    go (ok r) q = record {
      response = r;
      answered = q;
      is_page = ground (arith, q, h);
      at_least = ground (arith, q, h);
      below = ground (arith, q, h);
      within = ground (arith, q, h);
    }

-- A page is fetched only from a URL that parses, has 3 to 10000 bytes, the scheme http or https and
-- a host that the filter of private hosts lets pass; the page is the server's answer, with a status
-- from 200 to 299 and a body within the configured size.
pub fetch_ok :
    (f : WebFetcher) (url : String) (timeout current n : ℕ) {c : WebPageContent}
    → (fetch f url timeout current n).0 ≡ ok c
    → IsFetchable f url × IsAnswer f url (set_timeout f timeout current) n c
unfolding fetch
fetch_ok f url timeout current n {c} h = go (validate_url f url) refl h
  where
    go :
        (r : Result (Unit {0}))
        → validate_url f url ≡ r
        → (after_validation f url timeout current n r).0 ≡ ok c
        → IsFetchable f url × IsAnswer f url (set_timeout f timeout current) n c
    go (err e) q g = absurd (cc)
    go (ok tt) q g = (
      validate_url-IsFetchable f url q,
      executed-IsAnswer f url (set_timeout f timeout current) n (f.refuses n) g,
    )
