-- ===== src/Tests/Pages.antt =====
-- The HTML analyzer and the link checker.
use svc_web_analyzer.Prelude.{
  any, member, if◌then◌else◌, ℕ, arith, str_eq, ◌≡◌, ◌≤◌, ◌↔◌, refl, true, false, none, some, List,
  [], ◌∷◌, length, All, member, Distinct, if◌then◌else◌,
}
use svc_web_analyzer.Domain.{Link, LinkType, ok, err, failure}
use svc_web_analyzer.LinkChecker.{
  LinkChecker, filter_external_links, check_single_link, check_accessibility,
}
use svc_web_analyzer.LinkChecker.Filter.{points_out, urls, filter_external_links-Distinct}
use svc_web_analyzer.LinkChecker.Checks.{
  IsReachable, IsUnreachable, check_single_link-none, check_accessibility_reports,
}
use svc_web_analyzer.HtmlAnalyzer.{HtmlAnalyzer, analyze, extract_forms}
use svc_web_analyzer.HtmlAnalyzer.Links.{IsTally, analyze-IsTally}
use svc_web_analyzer.HtmlAnalyzer.Forms.{IsLoginForm, extract_forms-IsLoginForm}
use svc_web_analyzer.Tests.Data.{options}

abbrev numbered : List Link → List (Link × ℕ)
numbered [] = []
numbered (l ∷ ls) = (l, 0) ∷ numbered ls

length-numbered : (ls : List Link) → length (numbered ls) ≡ length ls
length-numbered [] = refl
length-numbered (l ∷ ls) = omega (arith, length-numbered ls)

abbrev checker : LinkChecker
checker = record {
  max_links_to_check = 1;
  parses = λ u. true;
  refuses = λ n. none;
  head = λ u n. err (failure "method not allowed");
  get = λ u n. ok (record { status_code = 404; status = "404 Not Found" });
  finished = numbered;
}

abbrev out : Link
out = record { url = "http://b.test"; type = LinkType.external }

abbrev inside : Link
inside = record { url = "http://a.test/x"; type = LinkType.internal }

abbrev links : List Link
links = out ∷ inside ∷ out ∷ []

filter_external_links-Distinct_example :
    Distinct (urls (filter_external_links checker links))
    × (member "http://b.test" (urls (filter_external_links checker links)) ≡ (
        if checker.parses "http://b.test" then any (points_out "http://b.test") links else false))
filter_external_links-Distinct_example =
    filter_external_links-Distinct checker "http://b.test" links

check_single_link-none_example :
    (check_single_link checker out 0 ≡ none) ↔ IsReachable checker "http://b.test" 0
check_single_link-none_example = check_single_link-none checker out 0

check_accessibility_reports_example :
    (length (check_accessibility checker links) ≤ 1)
    × All IsUnreachable (check_accessibility checker links)
check_accessibility_reports_example = check_accessibility_reports checker links length-numbered

abbrev analyzer : HtmlAnalyzer
analyzer = record {
  parse = λ html. ok (record {
    title = "A page";
    headings = record { h1 = 1; h2 = 0; h3 = 0; h4 = 0; h5 = 0; h6 = 0 };
    hrefs = some "http://b.test" ∷ none ∷ some "/x" ∷ some "http://b.test" ∷ [];
    forms =
        record {
          method = some "POST";
          action = none;
          names = some "user" ∷ some "user" ∷ [];
          passwords = "pw" ∷ [];
        }
        ∷ [];
  });
  parse_url =
      λ u. ok (record { text = u; host = if str_eq u "http://b.test" then "b.test" else "a.test" });
  resolve = λ base u. u;
  matches = λ pattern text. false;
  trim_space = λ s. s;
  to_upper = λ s. s;
  one_space = λ s. s;
  has_prefix = λ s prefix. false;
}

analyze-IsTally_example :
    IsTally
      (analyze analyzer "http://a.test" "<p>" options).links
      (analyze analyzer "http://a.test" "<p>" options).links.total_count
analyze-IsTally_example = analyze-IsTally analyzer "http://a.test" "<p>" options

extract_forms-IsLoginForm_example :
    ((extract_forms analyzer "<p>" "http://a.test").login_forms_detected
      ≡ length (extract_forms analyzer "<p>" "http://a.test").login_form_details)
    × ((extract_forms analyzer "<p>" "http://a.test").login_forms_detected ≤ 1)
    × All (IsLoginForm analyzer) (extract_forms analyzer "<p>" "http://a.test").login_form_details
extract_forms-IsLoginForm_example = extract_forms-IsLoginForm analyzer "<p>" "http://a.test"
