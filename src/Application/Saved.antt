-- ===== src/Application/Saved.antt =====
-- internal/adapters/repos/analysis_repository.go, SaveInTx: what it writes where it succeeds.
use svc_web_analyzer.Prelude.{
  Bool-cases, Option-cases, inl, inr, false≢true, ◌==◌, ℕ, ◌+◌, ◌≡◌, refl, sym, ap, subst, ◌∙◌,
  String, Bool, true, false, ◌&&◌, ◌||◌, Option, none, some, List, [], ◌∷◌, ◌++◌, arith, str_eq,
  any,
}
use svc_web_analyzer.Domain.{Analysis, AnalysisOptions, Error, Result, ok, failure, wrapped}
use svc_web_analyzer.World.{World, M, ◌>>=◌, external, labelled, proceed_ok, relabel_ok}
use svc_web_analyzer.Outbox
use svc_web_analyzer.Analyses.Insert.{
  max_version, analysis_id, insert_row, insert_new, get_next_version, save_in_tx, new_row,
  new_analysis, conflicts, clock,
}
use svc_web_analyzer.Analyses.{by_id}
use svc_web_analyzer.Application.{AppService}

any_or :
    {A : Type 0} (p q : A → Bool) (xs : List A) → any p xs ≡ true → any (λ x. p x || q x) xs ≡ true
any_or p q [] h = absurd (ground (arith, h))
any_or p q (x ∷ xs) h = ground (arith, h, any_or p q xs)

not_any_or :
    {A : Type 0} (p q : A → Bool) (xs : List A)
    → any (λ x. p x || q x) xs ≡ false
    → any p xs ≡ false
not_any_or p q xs h = elim (Bool-cases (any p xs)) [
  | inl taken ↦ absurd (false≢true (sym h ∙ any_or p q xs taken))
  | inr free ↦ free
]

-- the id of a new row stands in no row before it
insert_new_free :
    (s : AppService) (url n : String) (version : ℕ) (o : AnalysisOptions) (w : World) {a : Analysis}
    {v : World}
    → insert_new s.lib url n version o w ≡ (ok a, v)
    → any (by_id (analysis_id s.lib n version)) w.analyses ≡ false
unfolding insert_new clock external insert_row
insert_new_free s url n version o w {a} {v} h =
    let r = new_row (analysis_id s.lib n version) url n version (w.script w.calls).at in
    not_any_or (by_id r.id) (λ q. str_eq q.url url && q.version == version) w.analyses free
  where
    free :
        any
          (conflicts (new_row (analysis_id s.lib n version) url n version (w.script w.calls).at))
          w.analyses
        ≡ false
    free = elim (Option-cases (s.lib.marshal_options o)) [
      | inl none_q ↦ absurd (ground (arith, none_q, h))
      | inr (json, q) ↦ ground (arith, q, h)
    ]

insert_new_ok :
    (s : AppService) (url n : String) (version : ℕ) (o : AnalysisOptions) (w : World) {a : Analysis}
    {v : World}
    → insert_new s.lib url n version o w ≡ (ok a, v)
    → (a ≡ new_analysis (analysis_id s.lib n version) url (w.script w.calls).at)
      × (v.analyses
          ≡ w.analyses
            ++ new_row (analysis_id s.lib n version) url n version (w.script w.calls).at ∷ [])
      × (v.outbox ≡ w.outbox)
unfolding insert_new clock external insert_row
insert_new_ok s url n version o w {a} {v} h = go (s.lib.marshal_options o) refl
  where
    go :
        (j : Option String)
        → s.lib.marshal_options o ≡ j
        → (a ≡ new_analysis (analysis_id s.lib n version) url (w.script w.calls).at)
          × (v.analyses
              ≡ w.analyses
                ++ new_row (analysis_id s.lib n version) url n version (w.script w.calls).at ∷ [])
          × (v.outbox ≡ w.outbox)
    go none q = absurd (ground (arith, q, h))
    go (some json) q = (ground (arith, q, h), ground (arith, q, h), ground (arith, q, h))

-- what SaveInTx writes
pub record IsSaved (s : AppService) (url : String) (w v : World) (a : Analysis) : Type 0 where
  pub normalized : String
  pub time : ℕ
  pub is_normalized : s.lib.normalize_url url ≡ some normalized
  pub is_analysis :
      a ≡ new_analysis (analysis_id s.lib normalized (max_version url w.analyses + 1)) url time
  pub adds :
      v.analyses
      ≡ w.analyses
        ++ new_row
            (analysis_id s.lib normalized (max_version url w.analyses + 1))
            url
            normalized
            (max_version url w.analyses + 1)
            time
          ∷ []
  pub is_new :
      any (by_id (analysis_id s.lib normalized (max_version url w.analyses + 1))) w.analyses ≡ false
  pub same_outbox : v.outbox ≡ w.outbox

or_error_ok :
    {A : Type 0} (o : Option A) (e : Error) (w : World) {a : A} {v : World}
    → ◌≡◌ {A = Result A × World} (Outbox.or_error o e, w) (ok a, v)
    → (o ≡ some a) × (v ≡ w)
or_error_ok none e w h = absurd (ground (arith, h))
or_error_ok (some b) e w h = (ground (arith, h), ground (arith, h))

next_version_ok :
    (url : String) (w : World) {n : ℕ} {v : World}
    → get_next_version url w ≡ (ok n, v)
    → (n ≡ max_version url w.analyses + 1) × (v.analyses ≡ w.analyses) × (v.outbox ≡ w.outbox)
unfolding get_next_version external
next_version_ok url w {n} {v} h = ground (arith, h)

pub save_in_tx-IsSaved :
    (s : AppService) (url : String) (o : AnalysisOptions) (w : World) {a : Analysis} {v : World}
    → save_in_tx s.lib url o w ≡ (ok a, v)
    → IsSaved s url w v a
unfolding save_in_tx
save_in_tx-IsSaved s url o w {a} {v} h =
    let bad = wrapped "failed to normalize URL" (failure "invalid URL") in
    let numbered : String → M Analysis = λ n.
      labelled "failed to get next version" (get_next_version url) >>= λ k.
      insert_new s.lib url n k o in
    let (n, w₁, ran₁, rest₁) =
      proceed_ok (Outbox.or_error (s.lib.normalize_url url) bad, w) numbered h in
    let (normal, same₁) = or_error_ok (s.lib.normalize_url url) bad w ran₁ in
    let (k, w₂, ran₂, rest₂) =
      proceed_ok (labelled "failed to get next version" (get_next_version url) w₁)
        (λ k. insert_new s.lib url n k o) rest₁ in
    let (version, same_rows, same_out) =
      next_version_ok url w₁ (relabel_ok "failed to get next version" _ ran₂) in
    let (is_new, rows, out) = insert_new_ok s url n k o w₂ rest₂ in
    let same_w : w₁.analyses ≡ w.analyses = ap (λ u. u.analyses) same₁ in
    let before : w₂.analyses ≡ w.analyses = same_rows ∙ same_w in
    let number : k ≡ max_version url w.analyses + 1 =
      version ∙ ap (λ rs. max_version url rs + 1) same_w in
    record {
      normalized = n;
      time = (w₂.script w₂.calls).at;
      is_normalized = normal;
      is_analysis =
          is_new
          ∙ ap (λ k. new_analysis (analysis_id s.lib n k) url (w₂.script w₂.calls).at) number;
      adds =
          rows
          ∙ ap (λ rs. rs ++ new_row (analysis_id s.lib n k) url n k (w₂.script w₂.calls).at ∷ [])
              before
          ∙ ap
              (λ k.
                w.analyses ++ new_row (analysis_id s.lib n k) url n k (w₂.script w₂.calls).at ∷ [])
              number;
      is_new =
          subst (λ k. any (by_id (analysis_id s.lib n k)) w.analyses ≡ false) number
            (subst (λ rs. any (by_id (analysis_id s.lib n k)) rs ≡ false) before
              (insert_new_free s url n k o w₂ rest₂));
      same_outbox = out ∙ same_out ∙ ap (λ u. u.outbox) same₁;
    }
