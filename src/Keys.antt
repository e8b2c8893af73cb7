-- ===== src/Keys.antt =====
-- internal/infrastructure/paseto_key_service.go: the public key of the tokens, from Vault or from the
-- configuration. What runs under one lock is one step. Vault's answers and the readings of the clock
-- are scripts, by the number of the call.
pub mod Trusted
use svc_web_analyzer.Prelude.{
  ℕ, suc, ◌+◌, String, Bool, true, false, ltb, Option, none, some, List, [], ◌∷◌, str_eq,
  if◌then◌else◌,
}
use svc_web_analyzer.Domain.{Result, ok, err}
use svc_web_analyzer.Vault.{
  Secret, SecretField, SecretValue, entry, fields_of, object, scalar, text,
}

pub record KeyConfig : Type 0 where
  pub use_vault_keys : Bool
  pub paseto_key_path : String
  pub key_cache_ttl : ℕ
  pub fallback_key_hex : String

-- the service's configuration with what it calls
pub record PasetoKeyService : Type 0 where
  pub config : KeyConfig
  pub get_secrets : ℕ → String → Result (Option Secret)
  pub parse_hex : String → Result String
  pub clock : ℕ → ℕ

pub record KeyState : Type 0 where
  pub cached_key : Option String
  pub cached_key_expiry : ℕ
  pub vault_calls : ℕ
  pub readings : ℕ

-- a key, or the end of the process that a fatal log line brings
pub data Loaded : Type 0 where
  key : String → Loaded
  exits : Loaded

abbrev pub initial : KeyState
initial = record { cached_key = none; cached_key_expiry = 0; vault_calls = 0; readings = 0 }

abbrev non_empty : String → Option String
non_empty hex = if str_eq hex "" then none else some hex

abbrev text_of : Option SecretValue → Option String
text_of (some (text hex)) = non_empty hex
text_of _ = none

abbrev public_key_field : Option SecretField → Option String
public_key_field (some (object fields)) = text_of (entry "public_key" fields)
public_key_field _ = none

abbrev data_field : Option (List (String × SecretField)) → Option String
data_field none = none
data_field (some m) = public_key_field (entry "data" m)

-- the key in hexadecimal that an answer of Vault holds
abbrev answer_hex : Result (Option Secret) → Option String
answer_hex (err e) = none
answer_hex (ok s) = data_field (fields_of s)

module _ (s : PasetoKeyService) where
  abbrev parsed_hex : Option String → Option String
  parsed_hex none = none
  parsed_hex (some hex) = elim (s.parse_hex hex) [ ok k ↦ some k | err e ↦ none ]

  -- the key that an answer of Vault holds
  abbrev pub answer_key : Result (Option Secret) → Option String
  answer_key answer = parsed_hex (answer_hex answer)

  abbrev fallback_of : Result String → Loaded
  fallback_of (ok k) = key k
  fallback_of (err e) = exits

  unfoldable pub load_fallback_key : Loaded
  load_fallback_key = fallback_of (s.parse_hex s.config.fallback_key_hex)

  -- time.Now().Before(s.cachedKeyExpiry), which reads the clock where there is a key
  abbrev pub valid_key : KeyState → Option String
  valid_key st = elim st.cached_key [
    | none ↦ none
    | some k ↦ if ltb (s.clock st.readings) st.cached_key_expiry then some k else none
  ]

  abbrev pub after_check : KeyState → KeyState
  after_check st = elim st.cached_key [
    | none ↦ st
    | some k ↦ record st { readings = suc st.readings }
  ]

  -- the cache check under the read lock
  unfoldable pub check_cache : KeyState → Option String × KeyState
  check_cache st = (valid_key st, after_check st)

  abbrev pub stored : KeyState → Option String → Loaded × KeyState
  stored st none = (load_fallback_key, st)
  stored st (some k) = (
    key k,
    record st {
      cached_key = some k;
      cached_key_expiry = s.clock st.readings + s.config.key_cache_ttl;
      readings = suc st.readings;
    },
  )

  abbrev pub loaded : Option String × KeyState → Loaded × KeyState
  loaded (some k, st) = (key k, st)
  loaded (none, st) =
      stored (record st { vault_calls = suc st.vault_calls })
        (answer_key (s.get_secrets st.vault_calls s.config.paseto_key_path))

  -- under the write lock, with the check once more
  unfoldable pub load_key_from_vault : KeyState → Loaded × KeyState
  unfolding check_cache
  load_key_from_vault st = loaded (check_cache st)

  unfoldable pub refresh_key : KeyState → KeyState
  unfolding load_key_from_vault
  refresh_key st = (load_key_from_vault st).1

  abbrev pub or_load : (KeyState → KeyState) → Option String × KeyState → Loaded × KeyState
  or_load others (some k, st) = (key k, st)
  or_load others (none, st) = load_key_from_vault (others st)

  -- `others` is what other requests do between the two locks
  unfoldable pub get_public_key : (KeyState → KeyState) → KeyState → Loaded × KeyState
  unfolding check_cache load_key_from_vault
  get_public_key others st =
      if s.config.use_vault_keys then or_load others (check_cache st) else (load_fallback_key, st)
