-- ===== src/Loader/Reload.antt =====
-- internal/config/loader.go, handleConfigReload: what a reload changes.
use svc_web_analyzer.Prelude.{
  Option-cases, ◌≡◌, ◌⊎◌, inl, inr, refl, sym, ap, subst, ◌∙◌, ℕ, zero, suc, ◌+◌, ◌==◌, String,
  Option, none, some, List, arith, if-both,
}
use svc_web_analyzer.Domain.{Error, Result, ok, err, wrapped}
use svc_web_analyzer.Vault.{Secret, SecretValue, entry, fields_of}
use svc_web_analyzer.Loader.{
  Loader, LoaderState, answer, next, get_secret_version, load_secrets_from_path, relabel,
  section_of, version_value,
}
use svc_web_analyzer.Loader.Load.{
  handle_config_reload, if_newer, load, reloaded, report_reload_status, with_metadata, with_version,
}
use svc_web_analyzer.Loader.Retry.{IsTried, get_secrets_with_retry-IsTried}

-- reads of Vault change the calls and the time asleep, and a report the channel
abbrev pub IsRead : LoaderState → LoaderState → Type 0
IsRead st u = u ≡ record st { calls = u.calls; slept = u.slept; reload_errors = u.reload_errors }

IsRead-trans : (st u v : LoaderState) → IsRead st u → IsRead u v → IsRead st v
IsRead-trans st u v h k =
    k
    ∙ ap {A = LoaderState}
        (λ x. record x { calls = v.calls; slept = v.slept; reload_errors = v.reload_errors }) h

kept-IsRead :
    (st u : LoaderState) → u ≡ record st { calls = u.calls; slept = u.slept } → IsRead st u
kept-IsRead st u h =
    h
    ∙ ap (λ x. record st { calls = u.calls; slept = u.slept; reload_errors = x.reload_errors })
        (sym h)

module _ (l : Loader) where
  report-IsRead :
      (e : Option Error) (st u : LoaderState) → IsRead st u → IsRead st (report_reload_status l e u)
  report-IsRead e st u h = elim (Option-cases u.reload_errors) [
    | inl free ↦
        let same : report_reload_status l e u ≡ record u { reload_errors = some e } =
          ground (arith, free) in
        subst (IsRead st) (sym same)
          (ap {A = LoaderState} (λ x. record x { reload_errors = some e }) h)
    | inr (first, full) ↦
        let same : report_reload_status l e u ≡ u = ground (arith, full) in
        subst (IsRead st) (sym same) h
  ]

  -- a section of the secrets that some read of Vault answered with
  record IsSection (section : String) (m : Option (List (String × SecretValue))) : Type 0 where
    pub call : ℕ
    pub path : String
    pub secret : Option Secret
    pub is_answer : l.get_secrets call path ≡ ok secret
    pub is_section : section_of l section (fields_of secret) ≡ ok m

  -- what a read of a section leaves and returns
  abbrev IsSectionRead :
      String → LoaderState → Result (Option (List (String × SecretValue))) × LoaderState → Type 0
  IsSectionRead section st r =
      IsRead st r.1
      × (((e : Error) × (r.0 ≡ err e))
          ⊎ ((m : Option (List (String × SecretValue))) × (r.0 ≡ ok m) × IsSection section m))

  section_of_cases :
      (section : String) (st u : LoaderState) (call : ℕ) (path : String) (s : Option Secret)
      (r : Result (Option (List (String × SecretValue))))
      → section_of l section (fields_of s) ≡ r
      → l.get_secrets call path ≡ ok s
      → IsRead st u
      → IsSectionRead section st (r, u)
  section_of_cases section st u call path s (err e) q asked read = (read, inl (e, refl))
  section_of_cases section st u call path s (ok m) q asked read = (
    read,
    inr (
      m,
      refl,
      record { call = call; path = path; secret = s; is_answer = asked; is_section = q },
    ),
  )

  next-IsSectionRead :
      (label section path : String) (st : LoaderState) (r : Result (Option Secret) × LoaderState)
      → IsTried l path l.storage.max_retries st r
      → IsSectionRead section st
          (next (relabel label r.0, r.1) (λ s. answer (section_of l section (fields_of s))))
  next-IsSectionRead label section path st (err e, u) tried =
      (kept-IsRead st u tried.same_rest, inl (wrapped label e, refl))
  next-IsSectionRead label section path st (ok s, u) tried =
      section_of_cases section st u (st.calls + tried.failures) path s _ refl tried.last
        (kept-IsRead st u tried.same_rest)

  load_secrets_from_path-IsSectionRead :
      (section : String) (st : LoaderState)
      → IsSectionRead section st (load_secrets_from_path l section st)
  unfolding load_secrets_from_path
  load_secrets_from_path-IsSectionRead section st =
      let (r, same, tried) = get_secrets_with_retry-IsTried l "data" l.storage.mount_path st in
      subst
        (λ q. IsSectionRead section st (next q (λ s. answer (section_of l section (fields_of s)))))
        (sym same) (next-IsSectionRead _ section _ st r tried)

  -- a reload that reads a version other than the last one loads, and keeps the outcome of that load
  abbrev IsReloaded : LoaderState → LoaderState → Type 0
  IsReloaded st u = IsRead st u ⊎ ((v : LoaderState) × IsRead st v × (u ≡ reloaded l (load l v)))

  if_newer-IsReloaded :
      (current : ℕ) (st u : LoaderState) → IsRead st u → IsReloaded st (if_newer l current u)
  if_newer-IsReloaded current st u h =
      if-both (IsReloaded st) (current == u.last_version) _ _ (λ same. inl h)
        (λ newer. inr (u, h, refl))

  with_version-IsReloaded :
      (r : Result ℕ) (st u : LoaderState) → IsRead st u → IsReloaded st (with_version l r u)
  with_version-IsReloaded (err e) st u h = inl (report-IsRead _ st u h)
  with_version-IsReloaded (ok current) st u h = if_newer-IsReloaded current st u h

  with_metadata-IsReloaded :
      (st : LoaderState) (r : Result (Option (List (String × SecretValue))) × LoaderState)
      → IsRead st r.1
      → IsReloaded st (with_metadata l r)
  with_metadata-IsReloaded st (err e, u) h = inl (report-IsRead _ st u h)
  with_metadata-IsReloaded st (ok m, u) h = with_version-IsReloaded (get_secret_version m) st u h

  -- A reload either changes nothing but the count of reads, the time asleep and the report, or does
  -- that and then keeps what one run of Load left, with the report of its outcome and, where it
  -- succeeded, its version as the last one.
  handle_config_reload-IsReloaded : (st : LoaderState) → IsReloaded st (handle_config_reload l st)
  unfolding handle_config_reload
  handle_config_reload-IsReloaded st =
      with_metadata-IsReloaded st _ (load_secrets_from_path-IsSectionRead "metadata" st).0

  -- no answer of Vault has a current version in its metadata, as the data endpoint of KV v2 has none
  abbrev pub HasNoVersion : Type 0
  HasNoVersion =
      (call : ℕ) (path : String) (s : Option Secret) (m : List (String × SecretValue))
      → l.get_secrets call path ≡ ok s
      → section_of l "metadata" (fields_of s) ≡ ok (some m)
      → entry "current_version" m ≡ none

  metadata_version :
      (m : Option (List (String × SecretValue)))
      → HasNoVersion
      → IsSection "metadata" m
      → get_secret_version m ≡ ok 0
  unfolding get_secret_version
  metadata_version none no_version i = refl
  metadata_version (some m) no_version i =
      ap version_value (no_version i.call i.path i.secret m i.is_answer i.is_section)

  with_metadata-IsRead :
      (st : LoaderState) (r : Result (Option (List (String × SecretValue))) × LoaderState)
      → HasNoVersion
      → st.last_version ≡ 0
      → IsSectionRead "metadata" st r
      → IsRead st (with_metadata l r)
  with_metadata-IsRead st (r, u) no_version zeroth (h, inl (e, q)) =
      subst (λ x. IsRead st (with_metadata l (x, u))) (sym q) (report-IsRead _ st u h)
  with_metadata-IsRead st (r, u) no_version zeroth (h, inr (m, q, i)) =
      let version : u.last_version ≡ 0 = ap (λ x. x.last_version) h ∙ zeroth in
      let unloaded : if_newer l 0 u ≡ u = ground (arith, version) in
      subst (λ x. IsRead st (with_metadata l (x, u))) (sym q)
        (subst (λ x. IsRead st (with_version l x u)) (sym (metadata_version m no_version i))
          (subst (IsRead st) (sym unloaded) h))

  handle_config_reload-IsRead :
      (st : LoaderState)
      → HasNoVersion
      → st.last_version ≡ 0
      → IsRead st (handle_config_reload l st)
  unfolding handle_config_reload
  handle_config_reload-IsRead st no_version zeroth =
      with_metadata-IsRead st _ no_version zeroth
        (load_secrets_from_path-IsSectionRead "metadata" st)

  abbrev pub reloads : ℕ → LoaderState → LoaderState
  reloads zero st = st
  reloads (suc n) st = reloads n (handle_config_reload l st)

  -- Where no answer of Vault has a current version in its metadata, and the loader began with version
  -- 0, no number of reloads applies a secret: the credentials, the environment, the token and the
  -- version stay as they were.
  pub reloads-IsRead :
      (n : ℕ) (st : LoaderState) → HasNoVersion → st.last_version ≡ 0 → IsRead st (reloads n st)
  reloads-IsRead zero st no_version zeroth = refl
  reloads-IsRead (suc n) st no_version zeroth =
      let u = handle_config_reload l st in
      let read : IsRead st u = handle_config_reload-IsRead st no_version zeroth in
      IsRead-trans st u _ read
        (reloads-IsRead n u no_version (ap (λ x. x.last_version) read ∙ zeroth))
