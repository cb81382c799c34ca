-- ===== src/Http/Guards/Access.antt =====
-- What granting, revoking and disabling do to the requests that follow.
use vibe_shield.Prelude.{
  ℕ, ◌≡◌, refl, sym, ap, ◌∙◌, ◌↔◌, subst, [], ◌∷◌, inl, inr, true, false, List, Option, none, some,
  Text, any, find?, find?-All, All, update, same_text, same_text_refl, Result, ok, err,
  Option-cases, Result-cases, Bool-cases, arith,
}
use vibe_shield.Auth.UserSessions
use vibe_shield.Auth.UserSessions.{UserSession}
use vibe_shield.Auth.Users.{
  User, UserWithRoles, Area, Role, Db, UserError, has_id, is_null, find_by_id,
  find_by_id_with_roles, set_role, revoke_role, disable, role_satisfies,
}
use vibe_shield.Auth.Users.Grants.{
  roles_of, roles_of-set_role, roles_of-revoke_role, same_area_refl,
}
use vibe_shield.Http.Guards.{requires, insufficient, session_auth, enabled}

set_role-users :
    (id : Text) (area : Area) (role : Role) (db db' : Db)
    → set_role id area role db ≡ ok db'
    → db'.users ≡ db.users
unfolding set_role
set_role-users id area role db db' e = elim (Bool-cases (any (has_id id) db.users)) [
  | inl known ↦ subst (λ r. users_of r ≡ db.users) e (rw known refl)
  | inr unknown ↦ absurd (ground arith)
]
  where
    users_of : Result UserError Db → List User
    users_of (ok d) = d.users
    users_of (err x) = db.users

-- The user that a request is made as, with its roles.
with_roles_lem :
    (id : Text) (db : Db) (user : User)
    → find_by_id id db ≡ some user
    → find_by_id_with_roles id db ≡ some (record { user = user; roles = roles_of id db.user_roles })
unfolding find_by_id_with_roles
with_roles_lem id db user e = rw (e, find_by_id_with_roles) refl

-- A user that is not an administrator, once granted a role in an area, passes there exactly the
-- guards whose minimum the role satisfies.
pub requires-set_role :
    (id : Text) (area : Area) (role minimum : Role) (db db' : Db) (user : User)
    → find_by_id id db ≡ some user
    → user.is_org_admin ≡ false
    → set_role id area role db ≡ ok db'
    → (requires area minimum (find_by_id_with_roles id db') ≡ ok tt)
      ↔ (role_satisfies role minimum ≡ true)
unfolding requires find_by_id
requires-set_role id area role minimum db db' user e plain done =
    let known : find_by_id id db' ≡ some user = rw (set_role-users id area role db db' done) e in
    let granted : roles_of id db'.user_roles area ≡ some role =
      roles_of-set_role id area role db db' id area done
      ∙ rw (same_text_refl id, same_area_refl area) refl in
    rw (with_roles_lem id db' user known, requires)
      (rw (plain, granted, requires)
        (elim (Bool-cases (role_satisfies role minimum)) [
          | inl q ↦ rw q (λ h. refl, λ h. refl)
          | inr q ↦ rw q (λ h. absurd cc, λ h. absurd cc)
        ]))

-- Once a role is revoked, the guards of its area refuse the user, unless it is an administrator.
pub requires-revoke_role :
    (id : Text) (area : Area) (minimum : Role) (db : Db) (user : User)
    → find_by_id id db ≡ some user
    → user.is_org_admin ≡ false
    → requires area minimum (find_by_id_with_roles id (revoke_role id area db))
      ≡ err (insufficient area minimum)
unfolding requires revoke_role find_by_id
requires-revoke_role id area minimum db user e plain =
    let gone : roles_of id (revoke_role id area db).user_roles area ≡ none =
      roles_of-revoke_role id area db id area ∙ rw (same_text_refl id, same_area_refl area) refl in
    rw (with_roles_lem id (revoke_role id area db) user e, requires)
      (rw (plain, gone, requires) refl)

-- Where the users have the id, they are disabled.
abbrev IsOff : Text → User → Type 0
IsOff id u = same_text u.id id ≡ true → is_null u.disabled_at ≡ false

disable-IsOff :
    (id : Text) (now : ℕ) (us : List User)
    → All (IsOff id) (update (has_id id) (λ u. record u { disabled_at = some now }) us)
disable-IsOff id now [] = tt
disable-IsOff id now (u ∷ us) = elim (Bool-cases (same_text u.id id)) [
  | inl hit ↦ (rw hit (λ e. refl), disable-IsOff id now us)
  | inr miss ↦ (rw miss (λ e. absurd cc), disable-IsOff id now us)
]

enabled-find_by_id_with_roles :
    (id other : Text) (now : ℕ) (db : Db) (w : UserWithRoles)
    → enabled (find_by_id_with_roles other (disable id now db)) ≡ some w
    → same_text w.user.id id ≡ false
unfolding find_by_id_with_roles find_by_id disable
enabled-find_by_id_with_roles id other now db w e =
    elim (Option-cases (find? (has_id other) (disable id now db).users)) [
      | inl q ↦
          let nobody : enabled (find_by_id_with_roles other (disable id now db)) ≡ none =
            rw (q, enabled) refl in
          absurd (cc (nobody, e))
      | inr (u, q) ↦
          let (off, mine) =
            find?-All (IsOff id) (has_id other) (disable id now db).users {x = u}
              (disable-IsOff id now db.users) q in
          elim (Bool-cases (same_text u.id id)) [
            | inl hit ↦
                let nobody : enabled (find_by_id_with_roles other (disable id now db)) ≡ none =
                  rw (q, enabled) (rw (off hit) refl) in
                absurd (cc (nobody, e))
            | inr miss ↦ elim (Bool-cases (is_null u.disabled_at)) [
              | inl on ↦
                  let somebody : enabled (find_by_id_with_roles other (disable id now db))
                      ≡ some (record { user = u; roles = roles_of other db.user_roles }) =
                    rw (q, enabled) (rw on refl) in
                  let same : u ≡ w.user =
                    ap (λ (o : Option UserWithRoles). user_of u o) (sym somebody ∙ e) in
                  rw (← same) miss
              | inr out ↦
                  let nobody : enabled (find_by_id_with_roles other (disable id now db)) ≡ none =
                    rw (q, enabled) (rw out refl) in
                  absurd (cc (nobody, e))
            ]
          ]
    ]
  where
    user_of : User → Option UserWithRoles → User
    user_of u none = u
    user_of u (some v) = v.user

-- Once a user is disabled, no request is made as that user, whatever session it shows.
pub session_auth-disable :
    (hash : Text → Text) (ttl : ℕ) (token : Option Text) (id : Text) (now later : ℕ) (db : Db)
    (sessions : List UserSession) (w : UserWithRoles)
    → (session_auth hash ttl token later (disable id now db) sessions).0 ≡ some w
    → same_text w.user.id id ≡ false
unfolding session_auth
session_auth-disable hash ttl none id now later db sessions w e = absurd cc
session_auth-disable hash ttl (some token) id now later db sessions w e =
    elim (Result-cases (UserSessions.validate hash ttl token later sessions)) [
      | inl (((user, end), rows), q) ↦
          enabled-find_by_id_with_roles id user now db w
            (subst (λ (r : Option UserWithRoles). r ≡ some w) (reach q) e)
      | inr (x, q) ↦
          let nobody : (session_auth hash ttl (some token) later (disable id now db) sessions).0
              ≡ none =
            rw (q, session_auth) refl in
          absurd (cc (nobody, e))
    ]
  where
    reach :
        {user : Text} {end : ℕ} {rows : List UserSession}
        → UserSessions.validate hash ttl token later sessions ≡ ok ((user, end), rows)
        → (session_auth hash ttl (some token) later (disable id now db) sessions).0
          ≡ enabled (find_by_id_with_roles user (disable id now db))
    reach q = rw (q, session_auth) refl
