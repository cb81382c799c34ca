-- ===== src/Examples/Auth.antt =====
-- Credentials at concrete inputs; a hash is the text itself.
use vibe_shield.Prelude.{ℕ, ◌≡◌, refl, true, List, [], ◌∷◌, none, Text, codes, same_text, err, any}
use vibe_shield.Auth.UserSessions
use vibe_shield.Auth.UserSessions.{UserSession, StoreError, session_invalid, Call, validating}
use vibe_shield.Auth.UserSessions.Revoked.{validate-revoke}
use vibe_shield.Auth.ApiKeys
use vibe_shield.Auth.ApiKeys.{
  ApiKey, KeyError, key_revoked, ResolvedKey, generate_api_key, is_plausible_key, key_body_length,
}
use vibe_shield.Auth.ApiKeys.Format.{is_plausible-generate_api_key}
use vibe_shield.Auth.ApiKeys.Revocation.{resolve-revoke}

abbrev same : Text → Text
same t = t

abbrev secret : Text
secret = codes "secret"

abbrev session_row : UserSession
session_row = record {
  token_hash = secret;
  user_id = codes "ann";
  last_seen_at = 0;
  expires_at = 60000;
  user_agent = none;
  revoked_at = none;
}

session_there : any (UserSessions.has_hash secret) (session_row ∷ []) ≡ true
unfolding same_text
session_there = refl

validate-revoke_example :
    UserSessions.validate same 1 secret 30 (
      UserSessions.calls same 1
        (validating secret 20 ∷ [])
        (UserSessions.revoke same 1 secret 10 (session_row ∷ [])))
    ≡ err session_invalid
validate-revoke_example =
    validate-revoke same 1 secret 10 30 (validating secret 20 ∷ []) (session_row ∷ []) session_there

abbrev sample_bytes : List ℕ
sample_bytes =
    0 ∷ 61 ∷ 62 ∷ 255 ∷ 1 ∷ 2 ∷ 3 ∷ 4 ∷ 5 ∷ 6 ∷ 7 ∷ 8 ∷ 9 ∷ 10 ∷ 11 ∷ 12 ∷ 13 ∷ 14 ∷ 15 ∷ 16 ∷ 17
    ∷ 18 ∷ 19 ∷ 20 ∷ []

abbrev key_row : ApiKey
key_row = record {
  key_hash = generate_api_key sample_bytes;
  tenant_id = codes "firm";
  app_id = codes "mybooks";
  name = codes "laptop";
  created_at = 0;
  last_used_at = none;
  revoked_at = none;
}

key_there : any (ApiKeys.has_hash (generate_api_key sample_bytes)) (key_row ∷ []) ≡ true
unfolding same_text generate_api_key ApiKeys.key_body
key_there = refl

resolve-revoke_example :
    ApiKeys.resolve same
      (generate_api_key sample_bytes)
      30
      (ApiKeys.calls same [] (ApiKeys.revoke (generate_api_key sample_bytes) 10 (key_row ∷ [])).1)
    ≡ err key_revoked
resolve-revoke_example =
    resolve-revoke same (generate_api_key sample_bytes) 10 30 [] (key_row ∷ [])
      (is_plausible-generate_api_key sample_bytes refl) key_there
