-- ===== src/Vault/Expiry.antt =====
-- Sessions that are deleted, and sessions that a purge keeps (session-manager.ts).
use vibe_shield.Prelude.{
  ℕ, ◌≡◌, refl, false, not, List, [], ◌∷◌, none, Text, find?, select, ok, Bool-cases, inl, inr,
}
use vibe_shield.Vault.Rows.{Session, Db, has_id}
use vibe_shield.Vault.Sessions.{get, delete, delete_where, is_deleted, is_past, purge_expired}
use vibe_shield.Vault.Tokens.Cascade.{find?-delete}

find?-gone :
    (id : Text) (sessions : List Session)
    → find? (has_id id) (select (λ s. not (has_id id s)) sessions) ≡ none
find?-gone id [] = refl
find?-gone id (s ∷ sessions) = elim (Bool-cases (has_id id s)) [
  | inl hit ↦ rw hit (find?-gone id sessions)
  | inr miss ↦ rw miss (rw (miss, find?-gone id sessions) refl)
]

-- A session that is deleted is not found, at any time.
pub get-delete : (id : Text) (later : ℕ) (db : Db) → get id later (delete id db) ≡ ok none
unfolding get delete delete_where
get-delete id later db = rw (find?-gone id db.sessions, get) refl

-- A purge does not touch a session that is not past: it is found, or expired, as it was before.
pub get-purge_expired :
    (id : Text) (now later : ℕ) (db : Db)
    → is_deleted (is_past now) db.sessions id ≡ false
    → get id later (purge_expired now db).1 ≡ get id later db
unfolding get purge_expired delete_where
get-purge_expired id now later db kept =
    rw (find?-delete (is_past now) id db.sessions kept, get) refl
