-- ===== src/Loader/Load.antt =====
-- internal/config/loader.go: Load, and the reload that a signal asks for.
use svc_web_analyzer.Prelude.{
  ℕ, suc, ◌==◌, String, ◌<>◌, ◌||◌, Option, none, some, List, str_eq, if◌then◌else◌,
}
use svc_web_analyzer.Domain.{Error, Result, ok, err, message, wrapped}
use svc_web_analyzer.Vault.{SecretValue}
use svc_web_analyzer.Loader.{
  L, Loader, LoaderState, ◌>>=◌, answer, apply_secrets_to_config, get_secret_version, labelled,
  load_secrets_from_path,
}

module _ (l : Loader) where
  abbrev logged_in : Result (Option String) → L (Unit {0})
  logged_in (err e) = answer (err (wrapped "failed to authenticate via approle" e))
  logged_in (ok none) = answer (err (message "no auth info returned from Vault"))
  logged_in (ok (some token)) = λ st. (ok tt, record st { client_token = token })

  abbrev authenticate_token : L (Unit {0})
  authenticate_token st =
      if str_eq l.storage.token ""
      then (err (message "token is required for token auth method"), st)
      else (ok tt, record st { client_token = l.storage.token })

  abbrev authenticate_approle : L (Unit {0})
  authenticate_approle st =
      if str_eq l.storage.role_id "" || str_eq l.storage.secret_id ""
      then (err (message "role_id and secret_id are required for approle auth method"), st)
      else (logged_in (l.login st.calls) (record st { calls = suc st.calls }))

  authenticate_vault : L (Unit {0})
  authenticate_vault =
      if str_eq (l.to_lower l.storage.auth_method) "token"
      then authenticate_token
      else if str_eq (l.to_lower l.storage.auth_method) "approle"
      then authenticate_approle
      else (answer (err (message ("unsupported auth method: " <> l.storage.auth_method))))

  -- the metadata after the data has been applied
  load_version : L ℕ
  load_version =
      labelled "failed to load secret metadata" (load_secrets_from_path l "metadata")
      >>= λ metadata. labelled "failed to get secret version" (answer (get_secret_version metadata))

  pub load_enabled : L ℕ
  load_enabled = labelled "failed to authenticate with Vault" authenticate_vault >>= λ _.
      labelled "failed to load secrets from Vault" (load_secrets_from_path l "data") >>= λ data_map.
      labelled "failed to apply secrets to config" (apply_secrets_to_config l data_map) >>= λ _.
      load_version

  unfoldable pub load : L ℕ
  load =
      if l.storage.enabled
      then load_enabled
      else (answer (err (message "secret storage is not enabled")))

  -- a send that is dropped where the channel is full
  abbrev pub report_reload_status : Option Error → LoaderState → LoaderState
  report_reload_status e st = elim st.reload_errors [
    | none ↦ record st { reload_errors = some e }
    | some first ↦ st
  ]

  abbrev pub reloaded : Result ℕ × LoaderState → LoaderState
  reloaded (err e, st) = report_reload_status (some e) st
  reloaded (ok version, st) = report_reload_status none (record st { last_version = version })

  abbrev pub if_newer : ℕ → LoaderState → LoaderState
  if_newer current st = if current == st.last_version then st else reloaded (load st)

  abbrev pub with_version : Result ℕ → LoaderState → LoaderState
  with_version (err e) st =
      report_reload_status (some (wrapped "failed to get secret version" e)) st
  with_version (ok current) st = if_newer current st

  abbrev pub with_metadata :
      Result (Option (List (String × SecretValue))) × LoaderState → LoaderState
  with_metadata (err e, st) =
      report_reload_status (some (wrapped "failed to load secret metadata" e)) st
  with_metadata (ok metadata, st) = with_version (get_secret_version metadata) st

  unfoldable pub handle_config_reload : LoaderState → LoaderState
  handle_config_reload st = with_metadata (load_secrets_from_path l "metadata" st)
