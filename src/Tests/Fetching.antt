-- ===== src/Tests/Fetching.antt =====
-- The web fetcher.
use svc_web_analyzer.Prelude.{refl, false, none, []}
use svc_web_analyzer.Domain.{ok}
use svc_web_analyzer.WebFetcher.{WebFetcher, fetch}
use svc_web_analyzer.WebFetcher.Fetched.{IsAnswer, IsFetchable, fetch_ok}

-- a client with one page, of eight bytes
abbrev fetcher : WebFetcher
fetcher = record {
  max_response_size_bytes = 100;
  parse_url = λ u. ok (record { scheme = "http"; host = "a.test"; hostname = "a.test" });
  parse_ip4 = λ h. none;
  to_lower = λ h. h;
  has_suffix = λ h part. false;
  before_last_colon = λ h. none;
  byte_length = λ u. 13;
  refuses = λ n. none;
  get = λ u timeout n. ok (record {
    url = "http://a.test";
    status_code = 200;
    status = "200 OK";
    body = "<p>a</p>";
    size = 8;
    content_type = "text/html";
    headers = [];
  });
  elapsed = λ n. 5;
}

fetch_ok_example :
    IsFetchable fetcher "http://a.test"
    × IsAnswer fetcher "http://a.test" 9 0 (record {
      url = "http://a.test";
      status_code = 200;
      html = "<p>a</p>";
      content_type = "text/html";
      headers = [];
      fetch_duration = 5;
    })
unfolding fetch
fetch_ok_example = fetch_ok fetcher "http://a.test" 0 9 0 refl
