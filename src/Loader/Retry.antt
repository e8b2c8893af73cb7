-- ===== src/Loader/Retry.antt =====
-- internal/config/loader.go, getSecretsWithRetry: how often Vault is asked, and what the answer is.
use svc_web_analyzer.Prelude.{
  ◌≡◌, ◌⊎◌, inl, inr, refl, sym, ap, ◌∙◌, ℕ, zero, suc, ◌+◌, ◌≤◌, ◌<◌, String, ◌<>◌, Option, arith,
  subst,
}
use svc_web_analyzer.Domain.{Error, Result, ok, err}
use svc_web_analyzer.Vault.{Secret}
use svc_web_analyzer.Loader.{
  Loader, LoaderState, attempts, get_secrets_with_retry, read_label, relabel,
}

answers :
    (r : Result (Option Secret)) → ((s : Option Secret) × (r ≡ ok s)) ⊎ ((e : Error) × (r ≡ err e))
answers (ok s) = inl (s, refl)
answers (err e) = inr (e, refl)

module _ (l : Loader) (path : String) where
  abbrev pub IsFailure : ℕ → Type 0
  IsFailure call = (e : Error) × (l.get_secrets call path ≡ err e)

  -- the calls from one number up to another, the first excluded from what follows, all failed
  abbrev IsFailingFrom : ℕ → ℕ → Type 0
  IsFailingFrom first n = (i : ℕ) → i < n → IsFailure (first + i)

  -- `n` reads failed, and one more gave the result, which is an error only where none was left
  pub record IsTried (left : ℕ) (st : LoaderState) (r : Result (Option Secret) × LoaderState)
      : Type 0 where
    pub failures : ℕ
    pub within : failures ≤ left
    pub all_failed : IsFailingFrom st.calls failures
    pub last : l.get_secrets (st.calls + failures) path ≡ r.0
    pub counted : r.1.calls ≡ suc (st.calls + failures)
    pub is_final : ((s : Option Secret) × (r.0 ≡ ok s)) ⊎ (failures ≡ left)
    pub same_rest : r.1 ≡ record st { calls = r.1.calls; slept = r.1.slept }

  attempts_ok :
      (left attempt : ℕ) (st : LoaderState) {s : Option Secret}
      → l.get_secrets st.calls path ≡ ok s
      → attempts l (suc left) attempt path st ≡ (ok s, record st { calls = suc st.calls })
  unfolding attempts
  attempts_ok left attempt st now = ground (arith, now)

  attempts_err :
      (left attempt : ℕ) (st : LoaderState) {e : Error}
      → l.get_secrets st.calls path ≡ err e
      → attempts l (suc left) attempt path st
        ≡ attempts l left
            (suc attempt)
            path
            (record st { calls = suc st.calls; slept = st.slept + suc attempt })
  unfolding attempts
  attempts_err left attempt st now = ground (arith, now)

  -- a failure before others
  one_more :
      (first n : ℕ) → IsFailure first → IsFailingFrom (suc first) n → IsFailingFrom first (suc n)
  one_more first n now rest zero h = (now.0, ap (λ k. l.get_secrets k path) (omega arith) ∙ now.1)
  one_more first n now rest (suc i) h =
      let (e, failed) = rest i (omega (arith, h)) in
      (e, ap (λ k. l.get_secrets k path) (omega arith) ∙ failed)

  retried_ok :
      (left : ℕ) (st : LoaderState) (s : Option Secret)
      → l.get_secrets st.calls path ≡ ok s
      → IsTried (suc left) st (ok s, record st { calls = suc st.calls })
  retried_ok left st s now = record {
    failures = 0;
    within = omega arith;
    all_failed = λ i h. absurd (omega (arith, h));
    last = ap (λ k. l.get_secrets k path) (omega arith) ∙ now;
    counted = omega arith;
    is_final = inl (s, refl);
    same_rest = refl;
  }

  retried_err :
      (left attempt : ℕ) (st : LoaderState) (e : Error) (r : Result (Option Secret) × LoaderState)
      → l.get_secrets st.calls path ≡ err e
      → IsTried left (record st { calls = suc st.calls; slept = st.slept + suc attempt }) r
      → IsTried (suc left) st r
  retried_err left attempt st e r now tried = record {
    failures = suc tried.failures;
    within = omega (arith, tried.within);
    all_failed = one_more st.calls tried.failures (e, now) tried.all_failed;
    last = ap (λ k. l.get_secrets k path) (omega arith) ∙ tried.last;
    counted = omega (arith, tried.counted);
    is_final = elim tried.is_final [ inl done ↦ inl done | inr same ↦ inr (omega (arith, same)) ];
    same_rest = tried.same_rest;
  }

  attempts-IsTried :
      (left attempt : ℕ) (st : LoaderState) → IsTried left st (attempts l left attempt path st)
  unfolding attempts
  attempts-IsTried zero attempt st = record {
    failures = 0;
    within = omega arith;
    all_failed = λ i h. absurd (omega (arith, h));
    last = ap (λ n. l.get_secrets n path) (omega arith);
    counted = omega arith;
    is_final = inr refl;
    same_rest = refl;
  }
  attempts-IsTried (suc left) attempt st = elim (answers (l.get_secrets st.calls path)) [
    | inl (s, now) ↦
        subst (IsTried (suc left) st) (sym (attempts_ok left attempt st now))
          (retried_ok left st s now)
    | inr (e, now) ↦
        subst (IsTried (suc left) st) (sym (attempts_err left attempt st now))
          (retried_err left attempt st e _ now (attempts-IsTried left (suc attempt) _))
  ]

-- A read of Vault's secrets ends with an answer for every script of answers: it asks at most one time
-- more often than the number of retries, only after failures asks again, returns the last
-- answer that it got, and returns an error only after that many retries; of the loader's
-- state it changes only the calls and the time asleep.
pub get_secrets_with_retry-IsTried :
    (l : Loader) (path_type mount_path : String) (st : LoaderState)
    → let path = "apps/" <> path_type <> "/" <> mount_path in
      (r : Result (Option Secret) × LoaderState) × (get_secrets_with_retry l path_type mount_path st
        ≡ (relabel (read_label path l.storage.max_retries) r.0, r.1))
      × IsTried l path l.storage.max_retries st r
unfolding get_secrets_with_retry
get_secrets_with_retry-IsTried l path_type mount_path st =
    let path = "apps/" <> path_type <> "/" <> mount_path in
    (
      attempts l l.storage.max_retries 0 path st,
      refl,
      attempts-IsTried l path l.storage.max_retries 0 st,
    )
