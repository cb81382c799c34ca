-- ===== src/Vault/Rows.antt =====
-- The tables vs_sessions, vs_tokens and vs_token_index (packages/schema/src/schema): a table is the
-- list of its rows, a uuid is its text, and a time is in milliseconds. The columns `created_at` of
-- the two token tables are left out, since nothing reads them.
use vibe_shield.Prelude.{ℕ, Bool, ◌&&◌, List, Text, Option, same_text}

pub record Session : Type 0 where
  pub id : Text
  pub tenant_id : Text
  pub app_id : Text
  pub user_id : Text
  pub policy_id : Option Text
  pub created_at : ℕ
  pub expires_at : ℕ

pub record TokenRow : Type 0 where
  pub session_id : Text
  pub token : Text
  pub entity_type : Text
  pub cleartext_encrypted : Text
  pub hash : Text

pub record IndexRow : Type 0 where
  pub session_id : Text
  pub hash : Text
  pub token : Text

pub record Db : Type 0 where
  pub sessions : List Session
  pub tokens : List TokenRow
  pub token_index : List IndexRow

-- `eq(sessions.id, id)`
abbrev pub has_id : Text → Session → Bool
has_id id s = same_text s.id id

-- `eq(tokens.sessionId, …)` and `eq(tokens.token, …)`
abbrev pub is_token : Text → Text → TokenRow → Bool
is_token session token r = same_text r.session_id session && same_text r.token token

abbrev pub is_typed : Text → Text → TokenRow → Bool
is_typed session entity r = same_text r.session_id session && same_text r.entity_type entity

abbrev pub is_indexed : Text → Text → IndexRow → Bool
is_indexed session hash r = same_text r.session_id session && same_text r.hash hash
