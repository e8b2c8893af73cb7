-- ===== src/Keys/Trusted.antt =====
-- internal/infrastructure/paseto_key_service.go: where the keys come from that the service hands out.
use svc_web_analyzer.Prelude.{
  Option-cases, ◌≡◌, ◌⊎◌, inl, inr, refl, sym, ap, subst, ◌∙◌, ℕ, suc, ◌+◌, ◌≤◌, ◌<◌, String,
  Option, none, some, arith,
}
use svc_web_analyzer.Keys.{
  KeyState, Loaded, PasetoKeyService, answer_key, check_cache, key, load_fallback_key,
  load_key_from_vault, loaded, refresh_key, stored, valid_key, after_check,
}

module _ (s : PasetoKeyService) where
  -- Vault answered a call so far with this key, and its time in the cache ends at `expiry`
  pub record IsFromVault (st : KeyState) (k : String) (expiry : ℕ) : Type 0 where
    pub call : ℕ
    pub reading : ℕ
    pub was_made : call < st.vault_calls
    pub is_answer : answer_key s (s.get_secrets call s.config.paseto_key_path) ≡ some k
    pub was_read : reading < st.readings
    pub is_expiry : expiry ≡ s.clock reading + s.config.key_cache_ttl

  -- a cached key is one that Vault gave
  abbrev pub IsSound : KeyState → Type 0
  IsSound st =
      (st.cached_key ≡ none)
      ⊎ ((k : String) × (st.cached_key ≡ some k) × IsFromVault st k st.cached_key_expiry)

  later :
      (st u : KeyState) (k : String) (e : ℕ)
      → st.vault_calls ≤ u.vault_calls
      → st.readings ≤ u.readings
      → IsFromVault st k e
      → IsFromVault u k e
  later st u k e calls readings f = record {
    call = f.call;
    reading = f.reading;
    was_made = omega (arith, f.was_made, calls);
    is_answer = f.is_answer;
    was_read = omega (arith, f.was_read, readings);
    is_expiry = f.is_expiry;
  }

  -- the key of a result: the fallback key, or one from Vault that had time left when the clock was
  -- read, or that was read from Vault just then
  abbrev pub IsTrusted : Loaded × KeyState → Type 0
  IsTrusted r =
      (r.0 ≡ load_fallback_key s)
      ⊎ ((k : String) × (expiry : ℕ) × (at : ℕ) × (r.0 ≡ key k)
          × IsFromVault r.1 k expiry
          × (at < r.1.readings)
          × (s.clock at < expiry ⊎ (expiry ≡ s.clock at + s.config.key_cache_ttl)))

  valid_key_ok :
      (st : KeyState) {k : String}
      → valid_key s st ≡ some k
      → (st.cached_key ≡ some k)
        × (s.clock st.readings < st.cached_key_expiry)
        × (after_check s st ≡ record st { readings = suc st.readings })
  valid_key_ok st {k} h = elim (Option-cases st.cached_key) [
    | inl none_q ↦ absurd (ground (arith, none_q, h))
    | inr (c, q) ↦ (ground (arith, q, h), ground (arith, q, h), ground (arith, q, h))
  ]

  after_check-IsSound : (st : KeyState) → IsSound st → IsSound (after_check s st)
  after_check-IsSound st (inl empty) =
      let same : after_check s st ≡ st = ground (arith, empty) in
      subst IsSound (sym same) (inl empty)
  after_check-IsSound st (inr (k, q, f)) =
      let u : KeyState = record st { readings = suc st.readings } in
      let same : after_check s st ≡ u = ground (arith, q) in
      subst IsSound (sym same)
        (inr (k, q, later st u k st.cached_key_expiry (omega arith) (omega arith) f))

  stored-IsSound :
      (st : KeyState) (r : Option String)
      → answer_key s (s.get_secrets st.vault_calls s.config.paseto_key_path) ≡ r
      → IsSound st
      → let done = stored s (record st { vault_calls = suc st.vault_calls }) r in
        IsSound done.1 × IsTrusted done
  stored-IsSound st none answer (inl empty) = (inl empty, inl refl)
  stored-IsSound st none answer (inr (k, q, f)) =
      let u : KeyState = record st { vault_calls = suc st.vault_calls } in
      (inr (k, q, later st u k st.cached_key_expiry (omega arith) (omega arith) f), inl refl)
  stored-IsSound st (some k) answer i =
      let u = (stored s (record st { vault_calls = suc st.vault_calls }) (some k)).1 in
      let f : IsFromVault u k u.cached_key_expiry = record {
        call = st.vault_calls;
        reading = st.readings;
        was_made = omega arith;
        is_answer = answer;
        was_read = omega arith;
        is_expiry = refl;
      } in
      (inr (k, refl, f), inr (k, u.cached_key_expiry, st.readings, refl, f, omega arith, inr refl))

  cached-IsTrusted :
      (st : KeyState) (k : String)
      → valid_key s st ≡ some k
      → IsSound st
      → IsTrusted (key k, after_check s st)
  cached-IsTrusted st k valid (inl empty) = absurd (ground (arith, empty, valid))
  cached-IsTrusted st k valid (inr (c, q, f)) =
      let (is_k, in_time, same) = valid_key_ok st valid in
      let u : KeyState = record st { readings = suc st.readings } in
      let same_key : c ≡ k = ground (arith, q, is_k) in
      subst (λ v. IsTrusted (key k, v)) (sym same)
        (inr (
          k,
          st.cached_key_expiry,
          st.readings,
          refl,
          later st u k st.cached_key_expiry (omega arith) (omega arith)
              (subst (λ c. IsFromVault st c st.cached_key_expiry) same_key f),
          omega arith,
          inl in_time,
        ))

  loaded-IsTrusted :
      (st : KeyState) (o : Option String)
      → valid_key s st ≡ o
      → IsSound st
      → let done = loaded s (o, after_check s st) in IsSound done.1 × IsTrusted done
  loaded-IsTrusted st (some k) valid i = (after_check-IsSound st i, cached-IsTrusted st k valid i)
  loaded-IsTrusted st none valid i =
      stored-IsSound (after_check s st) _ refl (after_check-IsSound st i)

  pub load_key_from_vault-IsTrusted :
      (st : KeyState)
      → IsSound st
      → IsSound (load_key_from_vault s st).1 × IsTrusted (load_key_from_vault s st)
  unfolding load_key_from_vault check_cache
  load_key_from_vault-IsTrusted st i = loaded-IsTrusted st (valid_key s st) refl i

  -- A forced refresh while the cached key has time left asks Vault nothing and keeps that key and its
  -- expiry: it only reads the clock.
  refresh_key_keeps :
      (st : KeyState) {k : String}
      → st.cached_key ≡ some k
      → s.clock st.readings < st.cached_key_expiry
      → refresh_key s st ≡ record st { readings = suc st.readings }
  unfolding refresh_key load_key_from_vault check_cache
  refresh_key_keeps st {k} cached in_time =
      let valid : valid_key s st ≡ some k = ground (arith, cached, in_time) in
      let same : after_check s st ≡ record st { readings = suc st.readings } =
        ground (arith, cached) in
      ap (λ o. (loaded s (o, after_check s st)).1) valid ∙ same
