-- ===== src/Auth/MagicLinks.antt =====
-- packages/schema/src/vault/magic-link-store.ts, `MagicLinkStore`, and its table
-- (packages/schema/src/schema/magic-links.ts). SHA-256, `trim().toLowerCase()`, the generated token
-- and the clock are arguments. An INSERT whose token_hash is taken fails, as it is the table's
-- primary key.
pub mod Consumed
use vibe_shield.Prelude.{
  ℕ, ◌+◌, ◌*◌, Bool, true, false, ◌&&◌, not, List, [], ◌∷◌, Option, none, some, Text, same_text,
  ltb, find?, select, any, length, if◌then◌else◌, Result, ok, err,
}

pub record MagicLink : Type 0 where
  pub token_hash : Text
  pub email : Text
  pub expires_at : ℕ
  pub requested_ip : Option Text

pub data LinkError : Type 0 where
  unique_violation link_invalid : LinkError

abbrev pub default_ttl_minutes : ℕ
default_ttl_minutes = 15

abbrev pub has_hash : Text → MagicLink → Bool
has_hash h r = same_text r.token_hash h

-- The WHERE clause of `consume`.
abbrev pub is_consumable : Text → ℕ → MagicLink → Bool
is_consumable h now r = has_hash h r && ltb now r.expires_at

pub data Call : Type 0 where
  issuing : Text → ℕ → Text → Option Text → Call
  consuming : Text → ℕ → Call
  reaping : ℕ → Call

abbrev left_by {ℓ} :
    {A : Type ℓ} → List MagicLink → Result LinkError (A × List MagicLink) → List MagicLink
left_by rows (ok (_, rows')) = rows'
left_by rows (err e) = rows

unfoldable pub reap_expired : ℕ → List MagicLink → ℕ × List MagicLink
reap_expired now rows = (
  length (select (λ r. ltb r.expires_at now) rows),
  select (λ r. not (ltb r.expires_at now)) rows,
)

module _ (hash normalize : Text → Text) (ttl_minutes : ℕ) where
  unfoldable pub issue :
      Text
      → ℕ
      → Text
      → Option Text
      → List MagicLink
      → Result LinkError ((Text × ℕ) × List MagicLink)
  issue token now email requested_ip rows =
      if any (has_hash (hash token)) rows
      then err unique_violation
      else ok (
        (token, now + ttl_minutes * 60000),
        record {
          token_hash = hash token;
          email = normalize email;
          expires_at = now + ttl_minutes * 60000;
          requested_ip = requested_ip;
        }
            ∷ rows,
      )

  unfoldable pub consume : Text → ℕ → List MagicLink → Result LinkError (Text × List MagicLink)
  consume token now rows = elim (find? (is_consumable (hash token) now) rows) [
    | none ↦ err link_invalid
    | some row ↦ ok (row.email, select (λ r. not (is_consumable (hash token) now r)) rows)
  ]

  unfoldable pub call : Call → List MagicLink → List MagicLink
  call (issuing token now email ip) rows = left_by rows (issue token now email ip rows)
  call (consuming token now) rows = left_by rows (consume token now rows)
  call (reaping now) rows = (reap_expired now rows).1

  unfoldable pub calls : List Call → List MagicLink → List MagicLink
  calls [] rows = rows
  calls (c ∷ cs) rows = calls cs (call c rows)
