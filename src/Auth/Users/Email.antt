-- ===== src/Auth/Users/Email.antt =====
-- Emails: who may be created, and that no email is that of two active users.
use vibe_shield.Prelude.{
  ℕ, ◌≡◌, refl, inl, inr, ◌↔◌, Bool, true, false, List, [], ◌∷◌, Option, none, some, Text,
  same_text, same_text_refl, subst, and_left, and_right, find?, update, any, any-update,
  find?-none-any, find?-some-any, if◌then◌else◌, Result, ok, err, Bool-cases, Option-cases, arith,
}
use vibe_shield.Auth.Users.{
  User, Db, UserError, user_exists, is_null, has_id, is_active_email, create, find_by_email,
  disable, set_org_admin, mark_login,
}

-- No two active users have one email in lower case: the unique index.
abbrev pub IsUnique : (Text → Text) → List User → Type 0
IsUnique lower [] = Unit
IsUnique lower (u ∷ us) =
    (is_null u.disabled_at ≡ true → any (is_active_email lower (lower u.email)) us ≡ false)
    × IsUnique lower us

module _ (lower : Text → Text) where
  -- A change that keeps the email and enables nobody keeps the index.
  update-IsUnique :
      (q : User → Bool) (f : User → User) (us : List User)
      → ((u : User) → (f u).email ≡ u.email)
      → ((u : User) → is_null (f u).disabled_at ≡ true → is_null u.disabled_at ≡ true)
      → IsUnique lower us
      → IsUnique lower (update q f us)
  update-IsUnique q f [] mail off h = tt
  update-IsUnique q f (u ∷ us) mail off (h, hs) = (
    elim (Bool-cases (q u)) [
      | inl hit ↦ rw hit (λ e. rw (mail u) (rest (lower u.email) (h (off u e))))
      | inr miss ↦ rw miss (λ e. rest (lower u.email) (h e))
    ],
    update-IsUnique q f us mail off hs,
  )
    where
      weaker :
          (email : Text) (v : User)
          → is_active_email lower email (if q v then f v else v) ≡ true
          → is_active_email lower email v ≡ true
      weaker email v e = elim (Bool-cases (q v)) [
        | inl hit ↦
            let e' : is_active_email lower email (f v) ≡ true =
              subst (λ b. is_active_email lower email (if b then f v else v) ≡ true) hit e in
            let left : same_text (lower v.email) email ≡ true =
              rw (← mail v)
                (and_left (same_text (lower (f v).email) email) (is_null (f v).disabled_at) e') in
            let right =
              off v
                (and_right (same_text (lower (f v).email) email) (is_null (f v).disabled_at) e') in
            rw (left, right) refl
        | inr miss ↦ subst (λ b. is_active_email lower email (if b then f v else v) ≡ true) miss e
      ]

      rest :
          (email : Text)
          → any (is_active_email lower email) us ≡ false
          → any (is_active_email lower email) (update q f us) ≡ false
      rest email e = any-update (is_active_email lower email) q f us (weaker email) e

  -- The calls that change a user keep the index.
  pub disable-IsUnique :
      (id : Text) (now : ℕ) (db : Db)
      → IsUnique lower db.users
      → IsUnique lower (disable id now db).users
  unfolding disable
  disable-IsUnique id now db =
      update-IsUnique (has_id id) (λ u. record u { disabled_at = some now }) db.users (λ u. refl)
        (λ u e. absurd cc)

  pub set_org_admin-IsUnique :
      (id : Text) (value : Bool) (db : Db)
      → IsUnique lower db.users
      → IsUnique lower (set_org_admin id value db).users
  unfolding set_org_admin
  set_org_admin-IsUnique id value db =
      update-IsUnique (has_id id) (λ u. record u { is_org_admin = value }) db.users (λ u. refl)
        (λ u e. e)

  pub mark_login-IsUnique :
      (id : Text) (now : ℕ) (db : Db)
      → IsUnique lower db.users
      → IsUnique lower (mark_login id now db).users
  unfolding mark_login
  mark_login-IsUnique id now db =
      update-IsUnique (has_id id) (λ u. record u { last_login_at = some now }) db.users (λ u. refl)
        (λ u e. e)

  -- Creating a user keeps the index, whatever LOWER makes of the email.
  pub create-IsUnique :
      (normalize : Text → Text) (email : Text) (org : Option Bool) (id : Text) (now : ℕ) (db : Db)
      (u : User) (db' : Db)
      → create normalize lower email org id now db ≡ ok (u, db')
      → IsUnique lower db.users
      → IsUnique lower db'.users
  unfolding create
  create-IsUnique normalize email org id now db u db' e h =
      subst Kept e
        (elim (Bool-cases (any (is_active_email lower (lower (normalize email))) db.users)) [
          | inl taken ↦ rw taken tt
          | inr free ↦ rw free (λ q. free, h)
        ])
    where
      Kept : Result UserError (User × Db) → Type 0
      Kept (ok (v, d)) = IsUnique lower d.users
      Kept (err x) = Unit

-- Where LOWER leaves a normalized email alone, creating a user is refused exactly when the email
-- finds a user.
pub create-find_by_email :
    (normalize lower : Text → Text) (email : Text) (org : Option Bool) (id : Text) (now : ℕ)
    (db : Db)
    → lower (normalize email) ≡ normalize email
    → (create normalize lower email org id now db ≡ err user_exists)
      ↔ ((u : User) × (find_by_email normalize lower email db ≡ some u))
unfolding create find_by_email
create-find_by_email normalize lower email org id now db h =
    elim (Option-cases (find? (is_active_email lower (normalize email)) db.users)) [
      | inl e ↦
          let free = find?-none-any (is_active_email lower (normalize email)) db.users e in
          (rw (h, free) (λ q. absurd cc), λ (u, q). absurd cc)
      | inr (u, e) ↦
          let taken = find?-some-any (is_active_email lower (normalize email)) db.users e in
          (λ q. (u, e), λ q. rw (h, taken) refl)
    ]

-- A user that was created is found by the email it was created with.
pub find_by_email-create :
    (normalize lower : Text → Text) (email : Text) (org : Option Bool) (id : Text) (now : ℕ)
    (db : Db) (u : User) (db' : Db)
    → lower (normalize email) ≡ normalize email
    → create normalize lower email org id now db ≡ ok (u, db')
    → find_by_email normalize lower email db' ≡ some u
unfolding create find_by_email
find_by_email-create normalize lower email org id now db u db' h e =
    elim (Bool-cases (any (is_active_email lower (lower (normalize email))) db.users)) [
      | inl taken ↦ absurd (ground arith)
      | inr free ↦
          subst (λ r. found r ≡ some (user_of r)) e
            (rw free (rw (h, same_text_refl (normalize email)) refl))
    ]
  where
    found : Result UserError (User × Db) → Option User
    found (ok (v, d)) = find? (is_active_email lower (normalize email)) d.users
    found (err x) = none

    user_of : Result UserError (User × Db) → User
    user_of (ok (v, d)) = v
    user_of (err x) = u
