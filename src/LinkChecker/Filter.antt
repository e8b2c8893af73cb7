-- ===== src/LinkChecker/Filter.antt =====
-- internal/adapters/link_checker.go, filterExternalLinks: no URL twice, and exactly the right ones.
use svc_web_analyzer.Prelude.{
  ◌≡◌, String, Bool, false, List, [], ◌∷◌, str_eq, eq_iff, eq_refl, arith, any, if◌then◌else◌,
  member, Distinct,
}
use svc_web_analyzer.Domain.{Link}
use svc_web_analyzer.LinkChecker.{LinkChecker, filter_from, filter_external_links, is_internal}

abbrev pub urls : List Link → List String
urls [] = []
urls (l ∷ ls) = l.url ∷ urls ls

-- a link that points out of the site, to this URL
abbrev pub points_out : String → Link → Bool
points_out u l = if is_internal l.type then false else str_eq u l.url

member-filter_from :
    (c : LinkChecker) (u : String) (seen : List String) (links : List Link)
    → member u (urls (filter_from c seen links))
      ≡ (if member u seen then false else if c.parses u then any (points_out u) links else false)
member-filter_from c u seen [] = ground arith
member-filter_from c u seen (l ∷ ls) = ground (
  arith,
  eq_iff u l.url,
  member-filter_from c u seen ls,
  member-filter_from c u (l.url ∷ seen) ls,
)

filter_from-Distinct :
    (c : LinkChecker) (seen : List String) (links : List Link)
    → Distinct (urls (filter_from c seen links))
filter_from-Distinct c seen [] = tt
filter_from-Distinct c seen (l ∷ ls) = ground (
  arith,
  filter_from-Distinct c seen ls,
  filter_from-Distinct c (l.url ∷ seen) ls,
  member-filter_from c l.url (l.url ∷ seen) ls,
  eq_refl l.url,
)

-- The links that are checked have different URLs, and a URL stands among them exactly when it parses
-- and some link that is not internal has it.
pub filter_external_links-Distinct :
    (c : LinkChecker) (u : String) (links : List Link)
    → Distinct (urls (filter_external_links c links))
      × (member u (urls (filter_external_links c links))
          ≡ (if c.parses u then any (points_out u) links else false))
filter_external_links-Distinct c u links =
    (filter_from-Distinct c [] links, member-filter_from c u [] links)
