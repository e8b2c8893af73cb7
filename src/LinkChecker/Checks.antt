-- ===== src/LinkChecker/Checks.antt =====
-- internal/adapters/link_checker.go: what a check of a link and the check of a page report.
use svc_web_analyzer.Prelude.{
  ℕ, suc, ◌≡◌, ◌≤◌, ◌<◌, ◌↔◌, ◌⊎◌, inr, refl, String, Option, none, some, List, [], ◌∷◌, length,
  take, length-take-le, All, arith,
}
use svc_web_analyzer.Domain.{Link, InaccessibleLink, Error, Result, ok, err}
use svc_web_analyzer.LinkChecker.{
  LinkChecker, Response, CheckResult, guarded, report, check_single_link, appended,
  filter_external_links, gathered, check_accessibility,
}

-- the server answered, to the HEAD request or else to the GET request
pub data Answers (c : LinkChecker) (url : String) (n : ℕ) : Response → Type 0 where
  to_head : (r : Response) → c.head url n ≡ ok r → Answers c url n r
  to_get :
      (r : Response) (e : Error) → c.head url n ≡ err e → c.get url n ≡ ok r → Answers c url n r

abbrev pub IsReachable : LinkChecker → String → ℕ → Type 0
IsReachable c url n =
    (c.refuses n ≡ none) × (r : Response) × Answers c url n r × (r.status_code < 400)

IsReachable-unreported :
    (c : LinkChecker) (link : Link) (n : ℕ)
    → IsReachable c link.url n
    → check_single_link c link n ≡ none
IsReachable-unreported c link n (admitted, r, to_head _ h, small) =
    ground (arith, admitted, h, small)
IsReachable-unreported c link n (admitted, r, to_get _ e h g, small) =
    ground (arith, admitted, h, g, small)

unreported-IsReachable :
    (c : LinkChecker) (link : Link) (n : ℕ)
    → check_single_link c link n ≡ none
    → IsReachable c link.url n
unreported-IsReachable c link n h =
    from (c.refuses n) (c.head link.url n) (c.get link.url n) refl refl refl
  where
    from :
        (a : Option Error) (u v : Result Response)
        → c.refuses n ≡ a
        → c.head link.url n ≡ u
        → c.get link.url n ≡ v
        → IsReachable c link.url n
    from (some x) u v ea eu ev = absurd (ground (arith, ea, h))
    from none (ok r) v ea eu ev = (ea, r, to_head r eu, ground (arith, ea, eu, h))
    from none (err x) (ok r) ea eu ev = (ea, r, to_get r x eu ev, ground (arith, ea, eu, ev, h))
    from none (err x) (err y) ea eu ev = absurd (ground (arith, ea, eu, ev, h))

-- The check of a link reports nothing exactly when the breaker let the call through and the server
-- answered, to the HEAD request or else to the GET request, with a status below 400.
pub check_single_link-none :
    (c : LinkChecker) (link : Link) (n : ℕ)
    → (check_single_link c link n ≡ none) ↔ IsReachable c link.url n
check_single_link-none c link n = (unreported-IsReachable c link n, IsReachable-unreported c link n)

-- no answer at all, or an answer that is an error
abbrev pub IsUnreachable : InaccessibleLink → Type 0
IsUnreachable l = (l.status_code ≡ 0) ⊎ (400 ≤ l.status_code)

report-IsUnreachable :
    (c : LinkChecker) (link : Link) (r : Result CheckResult) {l : InaccessibleLink}
    → report c link r ≡ some l
    → IsUnreachable l
report-IsUnreachable c link (ok r) h = inr (ground (arith, h))
report-IsUnreachable c link (err e) h = ground (arith, h)

appended-IsUnreachable :
    (c : LinkChecker) (o : Option InaccessibleLink) (rest : List InaccessibleLink)
    → ((l : InaccessibleLink) → o ≡ some l → IsUnreachable l)
    → All IsUnreachable rest
    → All IsUnreachable (appended c o rest)
appended-IsUnreachable c none rest h all = all
appended-IsUnreachable c (some l) rest h all = (h l refl, all)

gathered-IsUnreachable :
    (c : LinkChecker) (checks : List (Link × ℕ)) → All IsUnreachable (gathered c checks)
gathered-IsUnreachable c [] = tt
gathered-IsUnreachable c ((link, n) ∷ checks) =
    appended-IsUnreachable c (check_single_link c link n) (gathered c checks)
      (λ l. report-IsUnreachable c link (guarded c link.url n (c.refuses n)))
      (gathered-IsUnreachable c checks)

appended-length :
    (c : LinkChecker) (o : Option InaccessibleLink) (rest : List InaccessibleLink)
    → length (appended c o rest) ≤ suc (length rest)
appended-length c none rest = omega arith
appended-length c (some l) rest = omega arith

gathered-length :
    (c : LinkChecker) (checks : List (Link × ℕ)) → length (gathered c checks) ≤ length checks
gathered-length c [] = omega arith
gathered-length c ((link, n) ∷ checks) = omega (
  arith,
  gathered-length c checks,
  appended-length c (check_single_link c link n) (gathered c checks),
)

-- Where each link that is checked ends once, a page has at most the configured number of reports,
-- and each report has the status 0, or one from 400 on.
pub check_accessibility_reports :
    (c : LinkChecker) (links : List Link)
    → ((ls : List Link) → length (c.finished ls) ≡ length ls)
    → (length (check_accessibility c links) ≤ c.max_links_to_check)
      × All IsUnreachable (check_accessibility c links)
check_accessibility_reports c [] runs = (omega arith, tt)
check_accessibility_reports c (link ∷ links) runs =
    let checked = take c.max_links_to_check (filter_external_links c (link ∷ links)) in
    (
      omega (
        arith,
        gathered-length c (c.finished checked),
        runs checked,
        length-take-le c.max_links_to_check (filter_external_links c (link ∷ links)),
      ),
      gathered-IsUnreachable c (c.finished checked),
    )
