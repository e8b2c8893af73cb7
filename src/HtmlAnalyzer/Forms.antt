-- ===== src/HtmlAnalyzer/Forms.antt =====
-- internal/adapters/html_analyzer.go, ExtractForms: what is reported as a login form.
use svc_web_analyzer.Prelude.{
  ◌≤◌, ◌≡◌, refl, String, true, Option, List, [], ◌∷◌, str_eq, eq_iff, eq_refl, arith, length, All,
  member, Distinct, Avoids, Avoids-cons, if-both, not, ◌&&◌,
}
use svc_web_analyzer.Domain.{LoginForm, Result, ok, err}
use svc_web_analyzer.HtmlAnalyzer.{
  HtmlAnalyzer, Document, FormNode, Url, or_default, fields_from, is_likely_login_form,
  normal_method, login_forms, forms_of, extract_forms,
}

-- what a list of field names promises after `seen`
abbrev IsFresh : List String → List String → Type 0
IsFresh seen names = Avoids seen names × Distinct names

member_head : (u : String) (seen : List String) → member u (u ∷ seen) ≡ true
member_head u seen = rw (eq_refl u) refl

fields_from-IsFresh :
    (a : HtmlAnalyzer) (seen : List String) (attrs : List (Option String))
    → IsFresh seen (fields_from a seen attrs)
fields_from-IsFresh a seen [] = ((λ x h. refl), tt)
fields_from-IsFresh a seen (attr ∷ attrs) =
    let name = or_default "" attr in
    let (avoids, distinct) = fields_from-IsFresh a (name ∷ seen) attrs in
    if-both (IsFresh seen) (not (str_eq name "") && not (member name seen)) _ _
      (λ new. (
        Avoids-cons name seen _ (ground (arith, new)) avoids,
        (avoids name (member_head name seen), distinct),
      ))
      (λ _. fields_from-IsFresh a seen attrs)

-- a login form is sent by POST, and none of its fields is listed twice
abbrev pub IsLoginForm : HtmlAnalyzer → LoginForm → Type 0
IsLoginForm a f = (f.method ≡ a.to_upper "POST") × Distinct f.fields

login_forms-IsLoginForm :
    (a : HtmlAnalyzer) (base : Url) (forms : List FormNode)
    → All (IsLoginForm a) (login_forms a base forms)
login_forms-IsLoginForm a base [] = tt
login_forms-IsLoginForm a base (form ∷ forms) =
    let rest = login_forms-IsLoginForm a base forms in
    if-both (All (IsLoginForm a)) (is_likely_login_form a (normal_method a form.method) form) _ _
      (λ likely. ((posted likely, (fields_from-IsFresh a [] form.names).1), rest)) (λ _. rest)
  where
    posted :
        is_likely_login_form a (normal_method a form.method) form ≡ true
        → normal_method a form.method ≡ a.to_upper "POST"
    posted likely = ground (arith, eq_iff (normal_method a form.method) (a.to_upper "POST"), likely)

login_forms-length :
    (a : HtmlAnalyzer) (base : Url) (forms : List FormNode)
    → length (login_forms a base forms) ≤ length forms
login_forms-length a base [] = omega arith
login_forms-length a base (form ∷ forms) =
    let rest = login_forms-length a base forms in
    if-both (λ ls. length ls ≤ length (form ∷ forms))
      (is_likely_login_form a (normal_method a form.method) form) _ _ (λ _. omega (arith, rest))
      (λ _. omega (arith, rest))

-- Every page has as many login forms detected as it lists, at most as many as it has forms; each is
-- sent by POST and lists no field twice.
pub extract_forms-IsLoginForm :
    (a : HtmlAnalyzer) (html base_url : String)
    → ((extract_forms a html base_url).login_forms_detected
        ≡ length (extract_forms a html base_url).login_form_details)
      × ((extract_forms a html base_url).login_forms_detected
          ≤ (extract_forms a html base_url).total_count)
      × All (IsLoginForm a) (extract_forms a html base_url).login_form_details
extract_forms-IsLoginForm a html base_url = go (a.parse html) (a.parse_url base_url)
  where
    go :
        (d : Result Document) (u : Result Url)
        → ((forms_of a d u).login_forms_detected ≡ length (forms_of a d u).login_form_details)
          × ((forms_of a d u).login_forms_detected ≤ (forms_of a d u).total_count)
          × All (IsLoginForm a) (forms_of a d u).login_form_details
    go (ok doc) (ok base) =
        (refl, login_forms-length a base doc.forms, login_forms-IsLoginForm a base doc.forms)
    go (ok doc) (err x) = (refl, omega arith, tt)
    go (err x) u = (refl, omega arith, tt)
