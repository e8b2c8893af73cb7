-- ===== src/Tests/Config.antt =====
-- The key service and the configuration loader.
use svc_web_analyzer.Prelude.{◌≡◌, refl, true, false, none, some, Option, [], ◌∷◌, arith}
use svc_web_analyzer.Domain.{Result, ok}
use svc_web_analyzer.Vault.{Secret, object, text, uint}
use svc_web_analyzer.Keys.{PasetoKeyService}
use svc_web_analyzer.Loader.{Loader, LoaderState, get_secrets_with_retry, read_label, relabel}
use svc_web_analyzer.Loader.Reload.{HasNoVersion, IsRead, reloads, reloads-IsRead}
use svc_web_analyzer.Loader.Retry.{IsTried, get_secrets_with_retry-IsTried}
use svc_web_analyzer.Loader.Watch.{
  IsStuck, Watch, after, cancel, here, sending_sighup, sigusr1, step, watch-IsStuck,
}

abbrev secret : Secret
secret = record {
  data_map = some (
      ("data", object (("public_key", text "abc") ∷ ("KEYDB_ADDR", text "cache:1") ∷ []))
      ∷ ("metadata", object (("version", uint 7) ∷ []))
      ∷ []);
}

abbrev keys : PasetoKeyService
keys = record {
  config = record {
    use_vault_keys = true;
    paseto_key_path = "secret/data/paseto/public-key";
    key_cache_ttl = 60;
    fallback_key_hex = "def";
  };
  get_secrets = λ call path. ok (some secret);
  parse_hex = λ hex. ok hex;
  clock = λ reading. reading;
}

abbrev loader : Loader
loader = record {
  storage = record {
    enabled = true;
    token = "token";
    role_id = "";
    secret_id = "";
    auth_method = "token";
    mount_path = "svc";
    max_retries = 3;
    poll_interval = 60;
  };
  get_secrets = λ call path. ok (some secret);
  login = λ call. ok none;
  set_env = λ key value. none;
  to_lower = λ s. s;
}

abbrev state : LoaderState
state = record {
  credentials = record {
    storage_username = "u";
    storage_password = "p";
    storage_host = "h";
    storage_database = "d";
    cache_password = "p";
    cache_addr = "a";
    queue_username = "u";
    queue_password = "p";
    queue_host = "h";
    auth_secret_key = "k";
  };
  env = [];
  last_version = 0;
  calls = 0;
  client_token = "";
  slept = 0;
  reload_errors = none;
}

get_secrets_with_retry-IsTried_example :
    (r : Result (Option Secret) × LoaderState) × (get_secrets_with_retry loader "data" "svc" state
      ≡ (relabel (read_label "apps/data/svc" 3) r.0, r.1))
    × IsTried loader "apps/data/svc" 3 state r
get_secrets_with_retry-IsTried_example = get_secrets_with_retry-IsTried loader "data" "svc" state

no_version : HasNoVersion loader
no_version call path s m asked found = ground (arith, asked, found)

reloads-IsRead_example : IsRead state (reloads loader 3 state)
reloads-IsRead_example = reloads-IsRead loader 3 state no_version refl

abbrev watch : Watch
watch = record { place = sending_sighup; signals = some sigusr1; cancelled = false; loader = state }

watch-IsStuck_example : IsStuck loader watch (record watch { cancelled = true })
unfolding step
watch-IsStuck_example = watch-IsStuck loader watch refl refl (after cancel here refl)
