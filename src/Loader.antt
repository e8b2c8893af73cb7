-- ===== src/Loader.antt =====
-- internal/config/loader.go: the secrets that the configuration takes from Vault. Vault's answers are
-- scripts, by the number of the call; the order in which Go walks a map is the order of its list. A
-- negative number of retries is left out, and so are the fields of the configuration that no secret
-- sets.
pub mod Load
pub mod Retry
pub mod Reload
pub mod Watch
use svc_web_analyzer.Prelude.{
  ℕ, zero, suc, ◌+◌, ◌*◌, ◌==◌, String, ◌<>◌, Bool, true, false, ◌||◌, Option, none, some, List, [],
  ◌∷◌, str_eq, if◌then◌else◌,
}
use svc_web_analyzer.Domain.{Error, Result, ok, err, failure, message, wrapped}
use svc_web_analyzer.Domain.Errors.{decimal}
use svc_web_analyzer.Vault.{
  Secret, SecretField, SecretValue, bad_number, entry, fields_of, float, json_number, object, other,
  scalar, text, uint,
}

pub record SecretStorageConfig : Type 0 where
  pub enabled : Bool
  pub token : String
  pub role_id : String
  pub secret_id : String
  pub auth_method : String
  pub mount_path : String
  pub max_retries : ℕ
  pub poll_interval : ℕ

-- the fields of the configuration that secrets set
pub record Credentials : Type 0 where
  pub storage_username : String
  pub storage_password : String
  pub storage_host : String
  pub storage_database : String
  pub cache_password : String
  pub cache_addr : String
  pub queue_username : String
  pub queue_password : String
  pub queue_host : String
  pub auth_secret_key : String

-- the loader's configuration of Vault, with what it calls: Vault's reads, its login, os.Setenv and
-- strings.ToLower; a login may answer without a token
pub record Loader : Type 0 where
  pub storage : SecretStorageConfig
  pub get_secrets : ℕ → String → Result (Option Secret)
  pub login : ℕ → Result (Option String)
  pub set_env : String → String → Option Error
  pub to_lower : String → String

pub record LoaderState : Type 0 where
  pub credentials : Credentials
  pub env : List (String × String)
  pub last_version : ℕ
  pub calls : ℕ
  pub client_token : String
  -- seconds asleep between attempts
  pub slept : ℕ
  -- reloadErrors, with room for one
  pub reload_errors : Option (Option Error)

-- `(T, error)` from a method of the loader
abbrev pub L {ℓ} : Type ℓ → Type ℓ
L A = LoaderState → Result A × LoaderState

module _ {ℓ κ} {A : Type ℓ} {B : Type κ} where
  abbrev pub next : Result A × LoaderState → (A → L B) → Result B × LoaderState
  next (ok a, st) f = f a st
  next (err e, st) f = (err e, st)

  infixl 5 ◌>>=◌
  abbrev pub ◌>>=◌ : L A → (A → L B) → L B
  ◌>>=◌ m f st = next (m st) f

module _ {ℓ} {A : Type ℓ} where
  abbrev pub answer : Result A → L A
  answer r st = (r, st)

  abbrev pub relabel : String → Result A → Result A
  relabel label (ok a) = ok a
  relabel label (err e) = err (wrapped label e)

  -- fmt.Errorf("label: %w", err)
  abbrev pub labelled : String → L A → L A
  labelled label m st = (relabel label (m st).0, (m st).1)

abbrev pub read_label : String → ℕ → String
unfolding decimal
read_label path retries =
    "failed to read from path " <> path <> " after " <> decimal retries <> " retries"

-- the switch over the known keys
abbrev set_credential : String → String → Credentials → Credentials
set_credential key v c =
    if str_eq key "POSTGRES_USERNAME"
    then (record c { storage_username = v })
    else if str_eq key "POSTGRES_PASSWORD"
    then (record c { storage_password = v })
    else if str_eq key "POSTGRES_HOST"
    then (record c { storage_host = v })
    else if str_eq key "POSTGRES_DATABASE"
    then (record c { storage_database = v })
    else if str_eq key "KEYDB_PASSWORD"
    then (record c { cache_password = v })
    else if str_eq key "KEYDB_ADDR"
    then (record c { cache_addr = v })
    else if str_eq key "RABBITMQ_USERNAME"
    then (record c { queue_username = v })
    else if str_eq key "RABBITMQ_PASSWORD"
    then (record c { queue_password = v })
    else if str_eq key "RABBITMQ_HOST"
    then (record c { queue_host = v })
    else if str_eq key "AUTH_SECRET_KEY"
    then (record c { auth_secret_key = v })
    else c

abbrev pub version_value : Option SecretValue → Result ℕ
version_value none = ok 0
version_value (some (float n)) = ok n
version_value (some (uint n)) = ok n
version_value (some (json_number n)) = ok n
version_value (some (bad_number e)) = err (wrapped "failed to parse version" (failure e))
version_value (some (text s)) = err (message "unexpected version type: string")
version_value (some other) = err (message "unexpected version type")

unfoldable pub get_secret_version : Option (List (String × SecretValue)) → Result ℕ
get_secret_version none = ok 0
get_secret_version (some metadata) = version_value (entry "current_version" metadata)

module _ (l : Loader) where
  -- one read, and after a failure the others that are left, each after a longer sleep
  unfoldable pub attempts : ℕ → ℕ → String → L (Option Secret)
  attempts zero attempt path st = (l.get_secrets st.calls path, record st { calls = suc st.calls })
  attempts (suc left) attempt path st = elim (l.get_secrets st.calls path) [
    | ok s ↦ (ok s, record st { calls = suc st.calls })
    | err e ↦
        attempts left (suc attempt) path
          (record st { calls = suc st.calls; slept = st.slept + suc attempt })
  ]

  unfoldable pub get_secrets_with_retry : String → String → L (Option Secret)
  get_secrets_with_retry path_type mount_path =
      let path = "apps/" <> path_type <> "/" <> mount_path in
      labelled (read_label path l.storage.max_retries) (attempts l.storage.max_retries 0 path)

  abbrev no_section : String → Error
  no_section path_type = message (
      "invalid secret format at path apps/data/" <> l.storage.mount_path <> ", missing '"
      <> path_type <> "' key")

  -- the map under a key of the secret
  abbrev pub section_of :
      String → Option (List (String × SecretField)) → Result (Option (List (String × SecretValue)))
  section_of path_type none = ok none
  section_of path_type (some fields) = elim (entry path_type fields) [
    | some (object m) ↦ ok (some m)
    | some scalar ↦ err (no_section path_type)
    | none ↦ err (no_section path_type)
  ]

  -- the path is that of the data, whatever is asked for
  unfoldable pub load_secrets_from_path : String → L (Option (List (String × SecretValue)))
  load_secrets_from_path path_type = get_secrets_with_retry "data" l.storage.mount_path >>= λ s.
      answer (section_of path_type (fields_of s))

  apply_secret_to_config : String → String → L (Unit {0})
  apply_secret_to_config key value st = elim (l.set_env key value) [
    | some e ↦ (err (wrapped ("failed to set environment variable " <> key) e), st)
    | none ↦ (
      ok tt,
      record st {
        credentials = set_credential key value st.credentials;
        env = (key, value) ∷ st.env;
      },
    )
  ]

  -- an entry that is no text, or an empty one, is passed over
  abbrev apply_entry : String → SecretValue → L (Unit {0})
  apply_entry key (text value) =
      if str_eq value ""
      then answer (ok tt)
      else (labelled "failed to apply secrets to config" (apply_secret_to_config key value))
  apply_entry key value = answer (ok tt)

  pub apply_entries : List (String × SecretValue) → L (Unit {0})
  apply_entries [] = answer (ok tt)
  apply_entries ((key, value) ∷ rest) = apply_entry key value >>= λ _. apply_entries rest

  abbrev pub apply_secrets_to_config : Option (List (String × SecretValue)) → L (Unit {0})
  apply_secrets_to_config none = answer (ok tt)
  apply_secrets_to_config (some m) = apply_entries m
