-- ===== src/Auth/Accepted.antt =====
-- internal/adapters/middleware/auth.go: what a request that is served has shown.
use svc_web_analyzer.Prelude.{◌≤◌, ◌≡◌, ◌<◌, ◌⊎◌, String, true}
use svc_web_analyzer.Domain.{Error, ok, err, error_text}
use svc_web_analyzer.Auth.{PasetoAuthMiddleware, PasetoTokenClaims, is_valid_issuer}

-- the claims hold now: a known issuer, not expired, already valid
pub record IsCurrent (m : PasetoAuthMiddleware) (c : PasetoTokenClaims) : Type 0 where
  pub known_issuer : is_valid_issuer m c.issuer ≡ true
  pub not_expired : (c.expires_at ≡ 0) ⊎ (m.now ≤ c.expires_at)
  pub has_begun : c.not_before ≤ m.now

-- a token that the library refused for its signature, with more than 88 bytes after its prefix
pub record IsUnverified (m : PasetoAuthMiddleware) (token key : String) : Type 0 where
  pub error : Error
  pub not_parsed : m.parse_v4_public key token ≡ err error
  pub bad_signature : m.contains (error_text error) "bad signature" ≡ true
  pub is_long : 88 < m.byte_length (m.trim_prefix token "v4.public.")

-- the two ways in
pub record IsAdmitted (m : PasetoAuthMiddleware) (token : String) (c : PasetoTokenClaims)
    : Type 0 where
  pub key : String
  pub has_prefix : m.has_prefix token "v4.public." ≡ true
  pub has_key : m.public_key ≡ ok key
  pub way_in :
      ((json : String) × (m.parse_v4_public key token ≡ ok json) × IsCurrent m c)
      ⊎ IsUnverified m token key
