-- ===== src/Vault.antt =====
-- What the service reads from Vault through its SecretsRepository: HashiCorp's api.Secret, as far as
-- internal/infrastructure/paseto_key_service.go and internal/config/loader.go look into it.
use svc_web_analyzer.Prelude.{ℕ, String, Option, none, some, List, [], ◌∷◌, str_eq, if◌then◌else◌}

-- a JSON value by the type assertions that are made on it; a json.Number that is no int64 has an
-- error's text; a negative number is left out
pub data SecretValue : Type 0 where
  text : String → SecretValue
  float : ℕ → SecretValue
  uint : ℕ → SecretValue
  json_number : ℕ → SecretValue
  bad_number : String → SecretValue
  other : SecretValue

-- a field of Secret.Data: a map, or anything else
pub data SecretField : Type 0 where
  object : List (String × SecretValue) → SecretField
  scalar : SecretField

-- `data` is `none` for a nil map
pub record Secret : Type 0 where
  pub data_map : Option (List (String × SecretField))

abbrev pub entry {ℓ} : {A : Type ℓ} → String → List (String × A) → Option A
entry k [] = none
entry k ((j, v) ∷ m) = let rest = entry k m in if str_eq j k then some v else rest

-- secret.Data of a secret that may be nil
abbrev pub fields_of : Option Secret → Option (List (String × SecretField))
fields_of none = none
fields_of (some s) = s.data_map
