-- ===== src/Tests/Urls.antt =====
-- The normal form of a URL, and what a client reads of an analysis it has started.
use svc_web_analyzer.Prelude.{◌≡◌, refl, String, ◌<>◌, some, str_eq, if◌then◌else◌}
use svc_web_analyzer.Domain.{Analysis, ok, err, failure}
use svc_web_analyzer.Domain.Url.{Url, UrlPackages, new_normalized_url, normalized_url_again}
use svc_web_analyzer.Cache
use svc_web_analyzer.Domain.Errors.{decimal}
use svc_web_analyzer.Outbox
use svc_web_analyzer.Application.{AppService}
use svc_web_analyzer.Application.Fetch.{unlocked}
use svc_web_analyzer.Worker.{Json, field, no_fields, object, text}
use svc_web_analyzer.Tests.Codec.{decode_as, encode}
use svc_web_analyzer.Tests.Data.{app, lib}
use svc_web_analyzer.Tests.Service.{started}

abbrev address : Url
address = record { scheme = "http"; host = "a.test:80"; path = "/"; fragment = "top"; rest = "" }

abbrev plain : Url
plain = record { scheme = "http"; host = "a.test"; path = ""; fragment = ""; rest = "" }

-- the addresses of one site
abbrev packages : UrlPackages
packages = record {
  parse = λ s.
      if str_eq s "http://a.test:80/#top"
      then ok address
      else if str_eq s "http://a.test"
      then ok plain
      else err (failure "invalid URL");
  to_text = λ u. u.scheme <> "://" <> u.host <> u.path <> u.fragment;
  to_lower = λ s. s;
  has_suffix = λ s suffix. str_eq s ("a.test" <> suffix);
  before_last_colon = λ s. "a.test";
  sha256_hex = λ s. s;
}

normalized_url_again_example :
    (n : String) × (new_normalized_url packages "http://a.test:80/#top" ≡ ok n)
    × (new_normalized_url packages n ≡ ok n)
normalized_url_again_example =
    normalized_url_again packages (λ s. refl) (λ s. refl) (λ s h. refl) "http://a.test:80/#top"
      address refl refl refl refl

-- the JSON of an analysis that has just been started, without its lock version
abbrev analysis_json : Analysis → Json
analysis_json a = object (
    field "analysis_id" (text a.id) (
      field "url" (text a.url) (
        field "status" (text "requested")
          (field "created_at" (text (decimal a.created_at)) no_fields))))

abbrev reading : AppService
reading = record app {
  lib = record lib {
    marshal_analysis = λ a. some (encode (analysis_json a));
    unmarshal_analysis = decode_as (analysis_json started) (unlocked started);
  };
}
