-- ===== src/Vault/Sessions.antt =====
-- packages/schema/src/vault/session-manager.ts, `SessionManager`. The generated uuid and the
-- current time are arguments; `Date` values are milliseconds. A uuid is taken to be new: `create`
-- does not look whether its id is there.
use vibe_shield.Prelude.{
  ℕ, ◌+◌, ◌*◌, ◌≡◌, Bool, ◌&&◌, not, List, ◌∷◌, Option, none, some, Text, same_text, same_text_refl,
  ltb, leb, length, select, find?, update, any, if◌then◌else◌, Result, ok, err, ◌>>=◌, or_throw,
}
use vibe_shield.Vault.Rows.{Session, Db, has_id}

pub data SessionError : Type 0 where
  session_expired session_not_found : SessionError

pub record CreateSession : Type 0 where
  pub tenant_id : Text
  pub app_id : Text
  pub user_id : Text
  pub ttl_minutes : Option ℕ
  pub policy_id : Option Text

abbrev pub default_ttl_minutes : ℕ
default_ttl_minutes = 60

abbrev pub or_default : Option ℕ → ℕ → ℕ
or_default none d = d
or_default (some n) d = n

unfoldable pub create : CreateSession → Text → ℕ → Db → Session × Db
create input id now db = (row, record db { sessions = row ∷ db.sessions })
  where
    row : Session
    row = record {
      id = id;
      tenant_id = input.tenant_id;
      app_id = input.app_id;
      user_id = input.user_id;
      policy_id = input.policy_id;
      created_at = now;
      expires_at = now + or_default input.ttl_minutes default_ttl_minutes * 60000;
    }

-- `null` for a missing row, an error for an expired one.
unfoldable pub get : Text → ℕ → Db → Result SessionError (Option Session)
get id now db = elim (find? (has_id id) db.sessions) [
  | none ↦ ok none
  | some row ↦ if leb row.expires_at now then err session_expired else ok (some row)
]

unfoldable pub touch : Text → ℕ → ℕ → Db → Result SessionError (Session × Db)
touch id ttl_minutes now db = do
  row ← or_throw (find? (has_id id) db'.sessions) session_not_found
  ok (row, db')
  where
    db' : Db
    db' = record db {
      sessions =
          update (has_id id) (λ s. record s { expires_at = now + ttl_minutes * 60000 }) db.sessions;
    }

-- The rows that a deletion of sessions takes with it, by the foreign keys' ON DELETE CASCADE.
abbrev pub is_deleted : (Session → Bool) → List Session → Text → Bool
is_deleted gone sessions id = any (λ s. gone s && same_text s.id id) sessions

unfoldable pub delete_where : (Session → Bool) → Db → Db
delete_where gone db = record {
  sessions = select (λ s. not (gone s)) db.sessions;
  tokens = select (λ r. not (is_deleted gone db.sessions r.session_id)) db.tokens;
  token_index = select (λ r. not (is_deleted gone db.sessions r.session_id)) db.token_index;
}

unfoldable pub delete : Text → Db → Db
delete id = delete_where (has_id id)

abbrev pub is_past : ℕ → Session → Bool
is_past now s = ltb s.expires_at now

unfoldable pub purge_expired : ℕ → Db → ℕ × Db
purge_expired now db = (length (select (is_past now) db.sessions), delete_where (is_past now) db)

unfoldable pub count_active : Text → ℕ → Db → ℕ
count_active tenant now db =
    length (select (λ s. same_text s.tenant_id tenant && ltb now s.expires_at) db.sessions)

-- A session that was just created is found until its ttl is over, and is expired from then on.
pub get-create :
    (input : CreateSession) (id : Text) (now later : ℕ) (db : Db)
    → let (row, db') = create input id now db in
      get id later db' ≡ (
        if leb (now + or_default input.ttl_minutes default_ttl_minutes * 60000) later
        then err session_expired
        else ok (some row))
unfolding create get same_text
get-create input id now later db = rw (same_text_refl id)
