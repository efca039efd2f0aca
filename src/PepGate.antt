-- ===== src/PepGate.antt =====
-- functions/pep-gate.js: verifyPEP. The check of a token by Firebase is a parameter.
pub mod Admission
use sentinel_engine_sovereig.Base.{
  ℕ, String, Bool, true, false, Option, none, some, List, [], ◌∷◌, Result, ok, err, ◌>>=◌, length,
  truthy, or_null, or_text, ltb, ◌||◌, if◌then◌else◌,
}
use sentinel_engine_sovereig.SecurityManager.Patterns.{Text, codes, strip}

pub data Code : Type 0 where
  pep_no_token pep_empty_token pep_auth_failure pep_no_tenant : Code

pub record PepError : Type 0 where
  pub code : Code
  pub http_status : ℕ

-- the fields of app_metadata or user_metadata
pub record Metadata : Type 0 where
  pub tenant_id : Option String
  pub role : Option String

-- a decoded token, where a missing field is `none`
pub record Claims : Type 0 where
  pub uid : Option String
  pub tenant_id : Option String
  pub role : Option String
  pub user_role : Option String
  pub app_metadata : Option Metadata
  pub user_metadata : Option Metadata

-- admin.auth().verifyIdToken(token, true); `none` where it rejects
abbrev pub Firebase : Type 0
Firebase = Text → Option Claims

pub record SentinelContext : Type 0 where
  pub tenant_id : String
  pub user_role : String
  pub auth_method : String
  pub sub : String
  pub verified_at : String

-- the text before the next "Bearer "
unfoldable pub up_to_bearer : Text → Text
up_to_bearer [] = []
up_to_bearer (c ∷ text) =
    let rest = up_to_bearer text in
    elim (strip (codes "Bearer ") (c ∷ text)) [ some end ↦ [] | none ↦ c ∷ rest ]

-- The token of a header: it begins with "Bearer ", so split('Bearer ')[1] is what follows, up to the
-- next one.
unfoldable pub token_of : Option Text → Result PepError Text
unfolding up_to_bearer
token_of none = err (record { code = pep_no_token; http_status = 401 })
token_of (some header) = elim (strip (codes "Bearer ") header) [
  | none ↦ err (record { code = pep_no_token; http_status = 401 })
  | some rest ↦
      if ltb (length (up_to_bearer rest)) 10
      then err (record { code = pep_empty_token; http_status = 401 })
      else ok (up_to_bearer rest)
]

-- verifyWithFirebase, as its caller sees it
verify_with_firebase : Firebase → Text → Result PepError Claims
verify_with_firebase firebase token = elim (firebase token) [
  | some claims ↦ ok claims
  | none ↦ err (record { code = pep_auth_failure; http_status = 401 })
]

-- metadata?.field
abbrev in_metadata : (Metadata → Option String) → Option Metadata → Option String
in_metadata field none = none
in_metadata field (some metadata) = field metadata

-- a || b
abbrev or_else : Option String → Option String → Option String
or_else a b = if truthy a then a else b

unfoldable pub tenant_of : Claims → Option String
tenant_of claims = or_null (
    or_else claims.tenant_id (
      or_else (in_metadata (λ m. m.tenant_id) claims.app_metadata)
        (in_metadata (λ m. m.tenant_id) claims.user_metadata)))

unfoldable pub role_of : Claims → String
role_of claims =
    or_text
      (or_else claims.role
        (or_else (in_metadata (λ m. m.role) claims.app_metadata) claims.user_role))
      "viewer"

unfoldable pub context_of : String → Claims → Result PepError SentinelContext
context_of now claims = elim (tenant_of claims) [
  | none ↦ err (record { code = pep_no_tenant; http_status = 403 })
  | some tenant ↦ ok (record {
    tenant_id = tenant;
    user_role = role_of claims;
    auth_method = "FIREBASE_ADMIN";
    sub = or_text claims.uid "unknown";
    verified_at = now;
  })
]

-- verifyPEP: the context that is put into the request and returned
unfoldable pub verify_pep : Firebase → String → Option Text → Result PepError SentinelContext
unfolding verify_with_firebase token_of context_of
verify_pep firebase now header = do
  token ← token_of header
  claims ← verify_with_firebase firebase token
  context_of now claims
