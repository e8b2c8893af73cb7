-- ===== src/HtmlAnalyzer/Links.antt =====
-- internal/adapters/html_analyzer.go, ExtractLinks and the counting in Analyze.
use svc_web_analyzer.Prelude.{
  ℕ, suc, ◌+◌, ◌≡◌, refl, subst, ◌∙◌, String, true, Option, none, some, List, [], ◌∷◌, str_eq,
  eq_refl, arith, length, length-append, All, All-append, member, Distinct, Avoids, Avoids-tail,
  Avoids-cons, if-both,
}
use svc_web_analyzer.Domain.{Link, LinkType, LinkAnalysis, AnalysisOptions, Result, ok, err}
use svc_web_analyzer.HtmlAnalyzer.{
  HtmlAnalyzer, Document, Url, found_link, links_from, links_of, extract_links, is_excluded,
  count_type, count_links, counted, link_analysis, analyze,
}

abbrev pub urls : List Link → List String
urls [] = []
urls (l ∷ ls) = l.url ∷ urls ls

-- what `seen` promises of the links found after it
abbrev IsFresh : List String → List Link → Type 0
IsFresh seen links = Avoids seen (urls links) × Distinct (urls links)

member_head : (u : String) (seen : List String) → member u (u ∷ seen) ≡ true
member_head u seen = rw (eq_refl u) refl

found_link-IsFresh :
    (a : HtmlAnalyzer) (base : Url) (seen : List String) (href : String) (skip : List Link)
    (marked : String → List Link) (r : Result Url)
    → IsFresh seen skip
    → ((u : String) → IsFresh (u ∷ seen) (marked u))
    → IsFresh seen (found_link a base seen href skip marked r)
found_link-IsFresh a base seen href skip marked (err e) h k = h
found_link-IsFresh a base seen href skip marked (ok u) h k =
    let final = (a.resolve base u).text in
    let (avoids, distinct) = k final in
    if-both (IsFresh seen) (member final seen) _ _ (λ _. h)
      (λ new.
        if-both (IsFresh seen) (is_excluded a href final) _ _
          (λ _. (Avoids-tail final seen _ avoids, distinct))
          (λ _. (
            Avoids-cons final seen _ new avoids,
            (avoids final (member_head final seen), distinct),
          )))

links_from-IsFresh :
    (a : HtmlAnalyzer) (base : Url) (seen : List String) (hrefs : List (Option String))
    → IsFresh seen (links_from a base seen hrefs)
links_from-IsFresh a base seen [] = ((λ x h. refl), tt)
links_from-IsFresh a base seen (none ∷ hrefs) = links_from-IsFresh a base seen hrefs
links_from-IsFresh a base seen (some href ∷ hrefs) =
    let skip = links_from-IsFresh a base seen hrefs in
    let found =
      found_link-IsFresh a base seen href (links_from a base seen hrefs)
        (λ u. links_from a base (u ∷ seen) hrefs) (a.parse_url href) skip
        (λ u. links_from-IsFresh a base (u ∷ seen) hrefs) in
    if-both (IsFresh seen) (str_eq href "") _ _ (λ _. skip) (λ _. found)

-- the counts add up, and only external links are listed
pub record IsTally (found : LinkAnalysis) (links : ℕ) : Type 0 where
  pub sums : found.internal_count + found.external_count ≡ links
  pub listed : length found.external_links ≡ found.external_count
  pub external : All (λ l. l.type ≡ LinkType.external) found.external_links

count_type-IsTally :
    (a : HtmlAnalyzer) (found : LinkAnalysis) (link : Link) (t : LinkType) {n : ℕ}
    → link.type ≡ t
    → IsTally found n
    → IsTally (count_type a found link t) (suc n)
count_type-IsTally a found link LinkType.internal is_t h = record {
  sums = omega (arith, h.sums);
  listed = h.listed;
  external = h.external;
}
count_type-IsTally a found link LinkType.external is_t h = record {
  sums = omega (arith, h.sums);
  listed = omega (arith, h.listed, length-append found.external_links (link ∷ []));
  external = All-append _ found.external_links (link ∷ []) h.external (is_t, tt);
}

count_links-IsTally :
    (a : HtmlAnalyzer) (found : LinkAnalysis) (links : List Link) {n : ℕ}
    → IsTally found n
    → IsTally (count_links a found links) (length links + n)
count_links-IsTally a found [] h = subst (IsTally found) (omega arith) h
count_links-IsTally a found (link ∷ links) {n} h =
    subst (IsTally (count_links a found (link ∷ links))) (omega arith) (
      count_links-IsTally a (count_type a found link link.type) links
        (count_type-IsTally a found link link.type refl h))

count_links-total :
    (a : HtmlAnalyzer) (found : LinkAnalysis) (links : List Link)
    → (count_links a found links).total_count ≡ found.total_count
count_links-total a found [] = refl
count_links-total a found (link ∷ links) =
    count_links-total a (count_type a found link link.type) links ∙ same link.type
  where
    same : (t : LinkType) → (count_type a found link t).total_count ≡ found.total_count
    same LinkType.internal = refl
    same LinkType.external = refl

link_analysis-IsTally :
    (a : HtmlAnalyzer) (r : Result (List Link))
    → IsTally (link_analysis a r) (link_analysis a r).total_count
link_analysis-IsTally a (err e) = record { sums = refl; listed = refl; external = tt }
link_analysis-IsTally a (ok links) =
    subst (IsTally (count_links a (counted a (length links)) links)) (eq) (
      count_links-IsTally a (counted a (length links)) links
        (record { sums = refl; listed = refl; external = tt }))
  where
    eq : length links + 0 ≡ (count_links a (counted a (length links)) links).total_count
    eq = omega (arith, count_links-total a (counted a (length links)) links)

-- In every analysis the internal and the external links add up to the total, the external links
-- are listed, as many as were counted, and every listed link is external.
pub analyze-IsTally :
    (a : HtmlAnalyzer) (url html : String) (o : AnalysisOptions)
    → IsTally (analyze a url html o).links (analyze a url html o).links.total_count
unfolding analyze
analyze-IsTally a url html o = link_analysis-IsTally a (extract_links a html url)

-- The links of a page that can be extracted have different URLs.
extract_links-Distinct :
    (a : HtmlAnalyzer) (html base_url : String) {links : List Link}
    → extract_links a html base_url ≡ ok links
    → Distinct (urls links)
extract_links-Distinct a html base_url {links} h = go (a.parse html) (a.parse_url base_url) h
  where
    go : (d : Result Document) (u : Result Url) → links_of a d u ≡ ok links → Distinct (urls links)
    go (ok doc) (ok base) e =
        subst (λ ls. Distinct (urls ls)) (cc) (links_from-IsFresh a base [] doc.hrefs).1
    go (ok doc) (err x) e = absurd (cc)
    go (err x) u e = absurd (cc)
