-- ===== src/Auth/ApiKeys.antt =====
-- packages/schema/src/vault/api-key-store.ts, `ApiKeyStore`, and its table
-- (packages/schema/src/schema/api-keys.ts). SHA-256, the random bytes of a key and the clock are
-- arguments; the comparison in constant time is the equality of two buffers. An INSERT whose
-- key_hash is taken fails, as it is the table's primary key.
pub mod Format
pub mod Revocation
use vibe_shield.Prelude.{
  ℕ, ◌+◌, ◌%◌, Bool, true, false, ◌&&◌, ◌||◌, not, List, [], ◌∷◌, ◌++◌, Option, none, some, Text,
  codes, same_text, leb, ◌==◌, is_digit, find?, select, update, any, all, take, drop, length,
  if◌then◌else◌, Result, ok, err, ◌>>=◌, ◌>>◌, require, or_throw,
}

pub record ApiKey : Type 0 where
  pub key_hash : Text
  pub tenant_id : Text
  pub app_id : Text
  pub name : Text
  pub created_at : ℕ
  pub last_used_at : Option ℕ
  pub revoked_at : Option ℕ

pub data KeyError : Type 0 where
  unique_violation key_invalid key_revoked : KeyError

pub record ResolvedKey : Type 0 where
  pub tenant_id : Text
  pub app_id : Text
  pub name : Text
  pub key_hash : Text

abbrev pub key_prefix : Text
key_prefix = codes "vs_live_"

abbrev pub key_body_length : ℕ
key_body_length = 24

abbrev pub base62 : Text
base62 = codes "ABCDEFGHIJKLMNOPQRSTUVWXYZabcdefghijklmnopqrstuvwxyz0123456789"

-- `BASE62[i]`; 0 stands for `undefined`.
abbrev pub unit_at : ℕ → Text → ℕ
unit_at n s = elim (drop n s) [ [] ↦ 0 | c ∷ rest ↦ c ]

-- The body of a key: one character for each random byte.
unfoldable pub key_body : List ℕ → Text
key_body [] = []
key_body (b ∷ bytes) = unit_at (b % 62) base62 ∷ key_body bytes

unfoldable pub generate_api_key : List ℕ → Text
generate_api_key bytes = key_prefix ++ key_body bytes

-- [A-Za-z0-9]
abbrev pub is_alphanumeric : ℕ → Bool
is_alphanumeric c = (leb b'A' c && leb c b'Z') || ((leb b'a' c && leb c b'z') || is_digit c)

-- The `+` of the expression needs one character: the length of a key gives it.
unfoldable pub is_plausible_key : Text → Bool
is_plausible_key s =
    same_text (take (length key_prefix) s) key_prefix
    && (length s == length key_prefix + key_body_length
        && all is_alphanumeric (drop (length key_prefix) s))

abbrev pub is_null : Option ℕ → Bool
is_null none = true
is_null (some t) = false

abbrev pub has_hash : Text → ApiKey → Bool
has_hash h r = same_text r.key_hash h

-- The WHERE clause of `revoke`.
abbrev pub is_active : Text → ApiKey → Bool
is_active h r = has_hash h r && is_null r.revoked_at

-- `true` where a row was changed.
unfoldable pub revoke : Text → ℕ → List ApiKey → Bool × List ApiKey
revoke key_hash now rows = (
  any (is_active key_hash) rows,
  update (is_active key_hash) (λ r. record r { revoked_at = some now }) rows,
)

pub data Call : Type 0 where
  issuing : List ℕ → ℕ → Text → Text → Text → Call
  resolving : Text → ℕ → Call
  revoking : Text → ℕ → Call

abbrev pub left_by {ℓ} :
    {A : Type ℓ} → List ApiKey → Result KeyError (A × List ApiKey) → List ApiKey
left_by rows (ok (_, rows')) = rows'
left_by rows (err e) = rows

module _ (hash : Text → Text) where
  unfoldable pub issue :
      List ℕ → ℕ → Text → Text → Text → List ApiKey → Result KeyError (Text × List ApiKey)
  issue bytes now tenant_id app_id name rows =
      let key = generate_api_key bytes in
      if any (has_hash (hash key)) rows
      then err unique_violation
      else ok (
        key,
        record {
          key_hash = hash key;
          tenant_id = tenant_id;
          app_id = app_id;
          name = name;
          created_at = now;
          last_used_at = none;
          revoked_at = none;
        }
            ∷ rows,
      )

  unfoldable pub resolve : Text → ℕ → List ApiKey → Result KeyError (ResolvedKey × List ApiKey)
  resolve presented now rows = do
    require (is_plausible_key presented) key_invalid
    row ← or_throw (find? (has_hash (hash presented)) rows) key_invalid
    require (same_text row.key_hash (hash presented)) key_invalid
    require (is_null row.revoked_at) key_revoked
    ok (
      record {
        tenant_id = row.tenant_id;
        app_id = row.app_id;
        name = row.name;
        key_hash = row.key_hash;
      },
      update (has_hash row.key_hash) (λ r. record r { last_used_at = some now }) rows,
    )

  unfoldable pub call : Call → List ApiKey → List ApiKey
  call (issuing bytes now tenant app name) rows =
      left_by rows (issue bytes now tenant app name rows)
  call (resolving presented now) rows = left_by rows (resolve presented now rows)
  call (revoking key_hash now) rows = (revoke key_hash now rows).1

  unfoldable pub calls : List Call → List ApiKey → List ApiKey
  calls [] rows = rows
  calls (c ∷ cs) rows = calls cs (call c rows)
