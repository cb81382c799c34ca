-- ===== src/Auth/UserSessions.antt =====
-- packages/schema/src/vault/user-session-store.ts, `UserSessionStore`, and its table
-- (packages/schema/src/schema/user-sessions.ts). SHA-256, the generated token and the clock are
-- arguments. An INSERT whose token_hash is taken fails, as it is the table's primary key.
pub mod Revoked
pub mod Sliding
use vibe_shield.Prelude.{
  ℕ, ◌+◌, ◌*◌, ◌≡◌, refl, Bool, true, false, ◌&&◌, List, [], ◌∷◌, Option, none, some, Text,
  same_text, same_text_refl, ltb, leb, find?, update, any, if◌then◌else◌, Result, ok, err, arith,
  Bool-cases, inl, inr, and_left, and_right,
}

pub record UserSession : Type 0 where
  pub token_hash : Text
  pub user_id : Text
  pub last_seen_at : ℕ
  pub expires_at : ℕ
  pub user_agent : Option Text
  pub revoked_at : Option ℕ

pub data StoreError : Type 0 where
  unique_violation session_invalid : StoreError

abbrev pub default_idle_ttl_minutes : ℕ
default_idle_ttl_minutes = 24 * 60

abbrev pub is_null : Option ℕ → Bool
is_null none = true
is_null (some t) = false

abbrev pub has_hash : Text → UserSession → Bool
has_hash h r = same_text r.token_hash h

-- The WHERE clause of `validate`.
abbrev pub is_valid : Text → ℕ → UserSession → Bool
is_valid h now r = has_hash h r && (ltb now r.expires_at && is_null r.revoked_at)

-- The calls of the store, and what each leaves of the table; a call that throws changes nothing.
pub data Call : Type 0 where
  issuing : Text → ℕ → Text → Option Text → Call
  validating : Text → ℕ → Call
  revoking : Text → ℕ → Call
  revoking_all : Text → ℕ → Call

abbrev left_by :
    List UserSession → Result StoreError ((Text × ℕ) × List UserSession) → List UserSession
left_by rows (ok (_, rows')) = rows'
left_by rows (err e) = rows

module _ (hash : Text → Text) (idle_ttl_minutes : ℕ) where
  -- The issued session is the token and when it expires.
  unfoldable pub issue :
      Text
      → ℕ
      → Text
      → Option Text
      → List UserSession
      → Result StoreError ((Text × ℕ) × List UserSession)
  issue token now user_id user_agent rows =
      if any (has_hash (hash token)) rows
      then err unique_violation
      else ok (
        (token, now + idle_ttl_minutes * 60000),
        record {
          token_hash = hash token;
          user_id = user_id;
          last_seen_at = now;
          expires_at = now + idle_ttl_minutes * 60000;
          user_agent = user_agent;
          revoked_at = none;
        }
            ∷ rows,
      )

  -- The user, and when the session now expires.
  unfoldable pub validate :
      Text → ℕ → List UserSession → Result StoreError ((Text × ℕ) × List UserSession)
  validate token now rows = elim (find? (is_valid (hash token) now) rows) [
    | none ↦ err session_invalid
    | some row ↦ ok (
      (row.user_id, now + idle_ttl_minutes * 60000),
      update (is_valid (hash token) now)
          (λ r. record r { last_seen_at = now; expires_at = now + idle_ttl_minutes * 60000 }) rows,
    )
  ]

  unfoldable pub revoke : Text → ℕ → List UserSession → List UserSession
  revoke token now = update (has_hash (hash token)) (λ r. record r { revoked_at = some now })

  unfoldable pub revoke_all_for_user : Text → ℕ → List UserSession → List UserSession
  revoke_all_for_user user_id now =
      update (λ r. same_text r.user_id user_id && is_null r.revoked_at)
        (λ r. record r { revoked_at = some now })

  unfoldable pub call : Call → List UserSession → List UserSession
  call (issuing token now user_id user_agent) rows =
      left_by rows (issue token now user_id user_agent rows)
  call (validating token now) rows = left_by rows (validate token now rows)
  call (revoking token now) rows = revoke token now rows
  call (revoking_all user_id now) rows = revoke_all_for_user user_id now rows

  unfoldable pub calls : List Call → List UserSession → List UserSession
  calls [] rows = rows
  calls (c ∷ cs) rows = calls cs (call c rows)
