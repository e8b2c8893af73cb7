-- ===== src/HtmlAnalyzer.antt =====
-- internal/adapters/html_analyzer.go: what a page holds. The HTML parser and its selections, regular
-- expressions, net/url and the functions of package strings are parameters. The goroutines of
-- Analyze write different fields, so their order is left out.
pub mod Version
pub mod Links
pub mod Forms
use svc_web_analyzer.Prelude.{
  ℕ, suc, String, Bool, true, false, ◌||◌, ◌&&◌, not, Option, none, some, List, [], ◌∷◌, str_eq,
  if◌then◌else◌, ◌++◌, length, member,
}
use svc_web_analyzer.Domain.{
  Link, LinkType, LinkAnalysis, LoginForm, FormAnalysis, HeadingCounts, AnalysisData,
  AnalysisOptions, HtmlVersion, Result, ok, err,
}
use Version.{extract_html_version}

-- a form as the selections read it: attributes, the names of its fields, its password inputs
pub record FormNode : Type 0 where
  pub method : Option String
  pub action : Option String
  pub names : List (Option String)
  pub passwords : List String

-- what the selections of this file find in a document, in the document's order
pub record Document : Type 0 where
  pub title : String
  pub headings : HeadingCounts
  pub hrefs : List (Option String)
  pub forms : List FormNode

pub record Url : Type 0 where
  pub text : String
  pub host : String

pub record HtmlAnalyzer : Type 0 where
  pub parse : String → Result Document
  pub parse_url : String → Result Url
  pub resolve : Url → Url → Url
  pub matches : String → String → Bool
  pub trim_space : String → String
  pub to_upper : String → String
  pub one_space : String → String
  pub has_prefix : String → String → Bool

-- `s.AttrOr(name, text)`
abbrev pub or_default : String → Option String → String
or_default text none = text
or_default text (some s) = s

abbrev pub has_any : List String → Bool
has_any [] = false
has_any (x ∷ xs) = true

module _ (a : HtmlAnalyzer) where
  unfoldable pub title_of : Result Document → String
  title_of (ok doc) = a.one_space (a.trim_space doc.title)
  title_of (err e) = ""

  abbrev pub extract_title : String → String
  unfolding title_of
  extract_title html = title_of (a.parse html)

  abbrev pub no_headings : HeadingCounts
  no_headings = record { h1 = 0; h2 = 0; h3 = 0; h4 = 0; h5 = 0; h6 = 0 }

  abbrev pub headings_of : Result Document → HeadingCounts
  headings_of (ok doc) = doc.headings
  headings_of (err e) = no_headings

  abbrev pub extract_heading_counts : String → HeadingCounts
  extract_heading_counts html = headings_of (a.parse html)

  -- the link is no page: an anchor of this page, a script, an address or a telephone number
  abbrev pub is_excluded : String → String → Bool
  is_excluded href final =
      str_eq final ""
      || a.has_prefix href "#"
      || a.has_prefix href "javascript:"
      || a.has_prefix href "mailto:"
      || a.has_prefix href "tel:"

  abbrev pub link_type : Url → Url → LinkType
  link_type base u = if str_eq u.host base.host then LinkType.internal else LinkType.external

  abbrev pub link_to : Url → Url → Link
  link_to base u = record { url = u.text; type = link_type base u }

  -- what a link adds to the links after it, without and with its own URL among the seen ones
  abbrev pub found_link :
      Url → List String → String → List Link → (String → List Link) → Result Url → List Link
  found_link base seen href skip marked (err e) = skip
  found_link base seen href skip marked (ok u) =
      let final = a.resolve base u in
      let rest = marked final.text in
      if member final.text seen
      then skip
      else if is_excluded href final.text
      then rest
      else link_to base final ∷ rest

  -- the callback of `Each`, with the URLs that `seen` holds
  abbrev pub links_from : Url → List String → List (Option String) → List Link
  links_from base seen [] = []
  links_from base seen (none ∷ hrefs) = links_from base seen hrefs
  links_from base seen (some href ∷ hrefs) =
      let skip = links_from base seen hrefs in
      let found =
        found_link base seen href skip (λ url. links_from base (url ∷ seen) hrefs)
          (a.parse_url href) in
      if str_eq href "" then skip else found

  abbrev pub links_of : Result Document → Result Url → Result (List Link)
  links_of (err e) u = err e
  links_of (ok doc) (err e) = err e
  links_of (ok doc) (ok base) = ok (links_from base [] doc.hrefs)

  abbrev pub extract_links : String → String → Result (List Link)
  extract_links html base_url = links_of (a.parse html) (a.parse_url base_url)

  abbrev pub count_type : LinkAnalysis → Link → LinkType → LinkAnalysis
  count_type found link LinkType.internal = record found {
    internal_count = suc found.internal_count;
  }
  count_type found link LinkType.external = record found {
    external_count = suc found.external_count;
    external_links = found.external_links ++ link ∷ [];
  }

  -- the loop over the links, which counts both types and collects the external ones
  abbrev pub count_links : LinkAnalysis → List Link → LinkAnalysis
  count_links found [] = found
  count_links found (link ∷ links) = count_links (count_type found link link.type) links

  abbrev pub counted : ℕ → LinkAnalysis
  counted total = record {
    internal_count = 0;
    external_count = 0;
    total_count = total;
    external_links = [];
    inaccessible_links = [];
  }

  -- links that cannot be extracted are logged, and counted as none
  abbrev pub link_analysis : Result (List Link) → LinkAnalysis
  link_analysis (err e) = counted 0
  link_analysis (ok links) = count_links (counted (length links)) links

  abbrev pub normal_method : Option String → String
  normal_method attr =
      let method = a.to_upper (a.trim_space (or_default "GET" attr)) in
      if not (str_eq method (a.to_upper "POST")) && not (str_eq method (a.to_upper "GET"))
      then a.to_upper "GET"
      else method

  abbrev pub resolved_action : Url → String → Result Url → String
  resolved_action base action (err e) = action
  resolved_action base action (ok u) = (a.resolve base u).text

  abbrev pub form_action : Url → Option String → String
  form_action base attr =
      let action = or_default "" attr in
      if str_eq action "" then action else resolved_action base action (a.parse_url action)

  -- the names of the fields, each once
  abbrev pub fields_from : List String → List (Option String) → List String
  fields_from seen [] = []
  fields_from seen (attr ∷ attrs) =
      let name = or_default "" attr in
      let skip = fields_from seen attrs in
      let rest = fields_from (name ∷ seen) attrs in
      if not (str_eq name "") && not (member name seen) then name ∷ rest else skip

  abbrev pub is_likely_login_form : String → FormNode → Bool
  is_likely_login_form method form =
      if str_eq method (a.to_upper "POST") then has_any form.passwords else false

  abbrev pub login_form : Url → FormNode → LoginForm
  login_form base form = record {
    method = normal_method form.method;
    action = form_action base form.action;
    fields = fields_from [] form.names;
  }

  abbrev pub login_forms : Url → List FormNode → List LoginForm
  login_forms base [] = []
  login_forms base (form ∷ forms) =
      let rest = login_forms base forms in
      if is_likely_login_form (normal_method form.method) form
      then login_form base form ∷ rest
      else rest

  abbrev pub no_forms : FormAnalysis
  no_forms = record { total_count = 0; login_forms_detected = 0; login_form_details = [] }

  abbrev pub forms_of : Result Document → Result Url → FormAnalysis
  forms_of (err e) u = no_forms
  forms_of (ok doc) (err e) = no_forms
  forms_of (ok doc) (ok base) = record {
    total_count = length doc.forms;
    login_forms_detected = length (login_forms base doc.forms);
    login_form_details = login_forms base doc.forms;
  }

  abbrev pub extract_forms : String → String → FormAnalysis
  extract_forms html base_url = forms_of (a.parse html) (a.parse_url base_url)

  unfoldable pub analyze : String → String → AnalysisOptions → AnalysisData
  analyze url html options = record {
    html_version = extract_html_version a.matches a.trim_space html;
    title = extract_title html;
    heading_counts = if options.include_headings then extract_heading_counts html else no_headings;
    links = link_analysis (extract_links html url);
    forms = if options.detect_forms then extract_forms html url else no_forms;
    fetch_time = 0;
    processing_time = 0;
  }
