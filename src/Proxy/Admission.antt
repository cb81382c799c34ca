-- ===== src/Proxy/Admission.antt =====
-- apps/gateway/src/proxy/orchestrator.ts: what a request must pass before its text is read:
-- `assertPolicyAllowsRequest` and `acquireSession`. The generated uuid and the clock are arguments.
pub mod Gates
use vibe_shield.Prelude.{
  ℕ, ◌+◌, ◌*◌, Bool, true, false, ◌&&◌, ◌||◌, not, List, [], ◌∷◌, Option, none, some, Text, codes,
  same_text, leb, includes, if◌then◌else◌, Result, ok, err, ◌>>=◌, ◌>>◌, require, or_throw,
  map_error,
}
use vibe_shield.Policy.Config.{PolicyConfig}
use vibe_shield.Vault.Rows.{Session, Db}
use vibe_shield.Vault.Sessions.{SessionError, CreateSession, create, get}

pub data AdmissionError : Type 0 where
  model_not_allowed max_tokens_exceeded zdr_required session_not_found : AdmissionError
  session : SessionError → AdmissionError

pub record Request : Type 0 where
  pub model : Text
  pub max_tokens : ℕ
  pub session_id : Option Text

pub record Auth : Type 0 where
  pub tenant_id : Text
  pub app_id : Text

abbrev pub is_model_allowed : List Text → Text → Bool
is_model_allowed [] model = true
is_model_allowed (m ∷ models) model = includes model (m ∷ models)

abbrev pub is_within_ceiling : Option ℕ → ℕ → Bool
is_within_ceiling none n = true
is_within_ceiling (some ceiling) n = leb n ceiling

unfoldable pub assert_policy_allows_request :
    Bool → PolicyConfig → Request → Result AdmissionError (Unit {0})
assert_policy_allows_request zdr_enabled policy request = do
  require (is_model_allowed policy.allowed_models request.model) model_not_allowed
  require (is_within_ceiling policy.max_tokens_ceiling request.max_tokens) max_tokens_exceeded
  require (not policy.zdr_required || zdr_enabled) zdr_required

abbrev pub ephemeral : Auth → ℕ → CreateSession
ephemeral auth ttl = record {
  tenant_id = auth.tenant_id;
  app_id = auth.app_id;
  user_id = codes "ephemeral";
  ttl_minutes = some ttl;
  policy_id = none;
}

unfoldable pub acquire_session :
    ℕ → Text → ℕ → Request → Auth → Db → Result AdmissionError (Text × Db)
acquire_session default_ttl id now request auth db = elim request.session_id [
  | some s ↦ do
    found ← map_error session (get s now db)
    existing ← or_throw found session_not_found
    require (same_text existing.tenant_id auth.tenant_id) session_not_found
    ok (existing.id, db)
  | none ↦ let (row, db') = create (ephemeral auth default_ttl) id now db in ok (row.id, db')
]
