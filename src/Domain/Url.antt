-- ===== src/Domain/Url.antt =====
-- internal/domain/value_objects.go: the normal form of a URL, whose text the id of an analysis is made
-- from, and the hash of a content. Packages net/url, strings and crypto/sha256 are parameters.
use svc_web_analyzer.Prelude.{
  ◌≡◌, refl, ap, subst, ◌∙◌, String, Bool, false, ◌&&◌, ◌||◌, arith, str_eq, if-both, if◌then◌else◌,
}
use svc_web_analyzer.Domain.{Result, ok, err, wrapped}

-- url.URL, with the parts that are not looked at in one
pub record Url : Type 0 where
  pub scheme : String
  pub host : String
  pub path : String
  pub fragment : String
  pub rest : String

pub record UrlPackages : Type 0 where
  pub parse : String → Result Url
  pub to_text : Url → String
  pub to_lower : String → String
  pub has_suffix : String → String → Bool
  -- s[:strings.LastIndex(s, ":")]
  pub before_last_colon : String → String
  pub sha256_hex : String → String

module _ (p : UrlPackages) where
  abbrev with_scheme : Url → Url
  with_scheme u = if str_eq u.scheme "" then (record u { scheme = "https" }) else u

  abbrev lowered : Url → Url
  lowered u = record u { scheme = p.to_lower u.scheme; host = p.to_lower u.host }

  abbrev has_default_port : Url → Bool
  has_default_port u =
      (str_eq u.scheme "http" && p.has_suffix u.host ":80")
      || (str_eq u.scheme "https" && p.has_suffix u.host ":443")

  abbrev without_port : Url → Url
  without_port u =
      if has_default_port u then (record u { host = p.before_last_colon u.host }) else u

  abbrev without_root : Url → Url
  without_root u = if str_eq u.path "/" then (record u { path = "" }) else u

  abbrev without_fragment : Url → Url
  without_fragment u = record u { fragment = "" }

  abbrev pub normal : Url → Url
  normal u = without_fragment (without_root (without_port (lowered (with_scheme u))))

  abbrev normalized : Result Url → Result String
  normalized (ok u) = ok (p.to_text (normal u))
  normalized (err e) = err (wrapped "failed to parse URL" e)

  unfoldable pub new_normalized_url : String → Result String
  new_normalized_url raw = normalized (p.parse raw)

  unfoldable new_content_hash : String → String
  new_content_hash content = p.sha256_hex content

  -- a URL that each step of the normalization leaves alone
  record IsNormal (u : Url) : Type 0 where
    has_scheme : str_eq u.scheme "" ≡ false
    lower_scheme : p.to_lower u.scheme ≡ u.scheme
    lower_host : p.to_lower u.host ≡ u.host
    no_port : has_default_port u ≡ false
    no_root : str_eq u.path "/" ≡ false
    no_fragment : u.fragment ≡ ""

  normal-fixed : (u : Url) → IsNormal u → normal u ≡ u
  normal-fixed u i =
      ground
        (arith, i.has_scheme, i.lower_scheme, i.lower_host, i.no_port, i.no_root, i.no_fragment)

  module _ (lower_again : (s : String) → p.to_lower (p.to_lower s) ≡ p.to_lower s)
      (lower_empty : (s : String) → str_eq (p.to_lower s) "" ≡ str_eq s "")
      (lower_cut : (s : String)
        → p.to_lower s ≡ s
        → p.to_lower (p.before_last_colon s) ≡ p.before_last_colon s) where
    abbrev IsLowered : Url → Type 0
    IsLowered u =
        (str_eq u.scheme "" ≡ false)
        × (p.to_lower u.scheme ≡ u.scheme)
        × (p.to_lower u.host ≡ u.host)

    lowered-IsLowered : (u : Url) → IsLowered (lowered (with_scheme u))
    lowered-IsLowered u =
        if-both (λ v. IsLowered (lowered v)) (str_eq u.scheme "") _ _
          (λ h. (lower_empty "https", lower_again "https", lower_again u.host))
          (λ h. (lower_empty u.scheme ∙ h, lower_again u.scheme, lower_again u.host))

    without_port-IsLowered :
        (u : Url)
        → p.has_suffix (p.before_last_colon u.host) ":80" ≡ false
        → p.has_suffix (p.before_last_colon u.host) ":443" ≡ false
        → IsLowered u
        → IsLowered (without_port u) × (has_default_port (without_port u) ≡ false)
    without_port-IsLowered u no_80 no_443 (scheme, low, host) =
        if-both (λ v. IsLowered v × (has_default_port v ≡ false)) (has_default_port u) _ _
          (λ h. ((scheme, low, lower_cut u.host host), ground (arith, no_80, no_443)))
          (λ h. ((scheme, low, host), h))

    without_root-IsNormal :
        (u : Url)
        → IsLowered u
        → has_default_port u ≡ false
        → IsNormal (without_fragment (without_root u))
    without_root-IsNormal u (scheme, low, host) port =
        if-both (λ v. IsNormal (without_fragment v)) (str_eq u.path "/") _ _
          (λ h. record {
            has_scheme = scheme;
            lower_scheme = low;
            lower_host = host;
            no_port = port;
            no_root = refl;
            no_fragment = refl;
          })
          (λ h. record {
            has_scheme = scheme;
            lower_scheme = low;
            lower_host = host;
            no_port = port;
            no_root = h;
            no_fragment = refl;
          })

    normal-IsNormal :
        (u : Url)
        → p.has_suffix (p.before_last_colon (p.to_lower u.host)) ":80" ≡ false
        → p.has_suffix (p.before_last_colon (p.to_lower u.host)) ":443" ≡ false
        → IsNormal (normal u)
    normal-IsNormal u no_80 no_443 =
        let v : Url = lowered (with_scheme u) in
        let host : p.to_lower u.host ≡ v.host = ap p.to_lower (
          if-both {A = Url} (λ x. u.host ≡ x.host) (str_eq u.scheme "") _ _ (λ h. refl)
            (λ h. refl)) in
        let (low, port) =
          without_port-IsLowered v
            (subst (λ h. p.has_suffix (p.before_last_colon h) ":80" ≡ false) host no_80)
            (subst (λ h. p.has_suffix (p.before_last_colon h) ":443" ≡ false) host no_443)
            (lowered-IsLowered u) in
        without_root-IsNormal (without_port v) low port

    -- The normal form of a URL is its own normal form: where net/url parses the text, the lowered host
    -- without what follows its last colon does not end in a default port again, and the text of the
    -- normal form is parsed as it was printed. ToLower is taken to change nothing a second time, to
    -- give the empty text from that alone, and to leave alone what is cut from a lowered text.
    pub normalized_url_again :
        (raw : String) (u : Url)
        → p.parse raw ≡ ok u
        → p.has_suffix (p.before_last_colon (p.to_lower u.host)) ":80" ≡ false
        → p.has_suffix (p.before_last_colon (p.to_lower u.host)) ":443" ≡ false
        → p.parse (p.to_text (normal u)) ≡ ok (normal u)
        → (n : String) × (new_normalized_url raw ≡ ok n) × (new_normalized_url n ≡ ok n)
    unfolding new_normalized_url
    normalized_url_again raw u parsed no_80 no_443 prints =
        let again : normal (normal u) ≡ normal u =
          normal-fixed (normal u) (normal-IsNormal u no_80 no_443) in
        (
          p.to_text (normal u),
          ap normalized parsed,
          ap normalized prints ∙ ap (λ v. ok (p.to_text v)) again,
        )
