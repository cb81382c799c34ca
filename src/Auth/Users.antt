-- ===== src/Auth/Users.antt =====
-- packages/schema/src/vault/user-store.ts, `UserStore`, and its tables vs_users and vs_user_roles.
-- `trim().toLowerCase()` and SQL's LOWER, the generated uuid and the clock are arguments. The
-- tables' unique index is on LOWER(email) among the users that are not disabled; the primary key of
-- vs_user_roles is what the upsert looks at. Granting a role to an unknown user, which the foreign
-- key refuses, is an error.
pub mod Email
pub mod Roles
pub mod Grants
use vibe_shield.Prelude.{
  ℕ, Bool, true, false, ◌&&◌, not, List, [], ◌∷◌, map, Option, none, some, Text, same_text, leb,
  length, find?, select, update, any, lookup, set, if◌then◌else◌, Result, ok, err,
}

-- `Module`
pub data Area : Type 0 where
  redact scan compliance : Area

pub data Role : Type 0 where
  viewer operator admin : Role

abbrev pub same_area : Area → Area → Bool
same_area redact redact = true
same_area scan scan = true
same_area compliance compliance = true
same_area _ _ = false

abbrev pub role_rank : Role → ℕ
role_rank viewer = 1
role_rank operator = 2
role_rank admin = 3

unfoldable pub role_satisfies : Role → Role → Bool
role_satisfies actual minimum = leb (role_rank minimum) (role_rank actual)

pub record User : Type 0 where
  pub id : Text
  pub email : Text
  pub is_org_admin : Bool
  pub created_at : ℕ
  pub last_login_at : Option ℕ
  pub disabled_at : Option ℕ

pub record UserRole : Type 0 where
  pub user_id : Text
  pub area : Area
  pub role : Role

-- `Partial<Record<Module, Role>>`
abbrev pub Roles : Type 0
Roles = Area → Option Role

pub record UserWithRoles : Type 0 where
  pub user : User
  pub roles : Roles

pub record Db : Type 0 where
  pub users : List User
  pub user_roles : List UserRole

pub data UserError : Type 0 where
  user_exists unknown_user : UserError

abbrev pub is_null : Option ℕ → Bool
is_null none = true
is_null (some t) = false

abbrev pub has_id : Text → User → Bool
has_id id u = same_text u.id id

abbrev pub is_role : Text → Area → UserRole → Bool
is_role user area r = same_text r.user_id user && same_area r.area area

abbrev pub no_roles : Roles
no_roles area = none

-- `roles[r.module] = r.role`
abbrev pub assign : UserRole → Roles → Roles
assign r roles area = if same_area r.area area then some r.role else roles area

unfoldable pub assign_all : List UserRole → Roles → Roles
assign_all [] roles = roles
assign_all (r ∷ rs) roles = assign_all rs (assign r roles)

unfoldable pub find_by_id : Text → Db → Option User
find_by_id id db = find? (has_id id) db.users

unfoldable pub find_by_id_with_roles : Text → Db → Option UserWithRoles
find_by_id_with_roles id db = elim (find_by_id id db) [
  | none ↦ none
  | some user ↦ some (record {
    user = user;
    roles = assign_all (select (λ r. same_text r.user_id id) db.user_roles) no_roles;
  })
]

abbrev pub or_no_roles : Option Roles → Roles
or_no_roles none = no_roles
or_no_roles (some roles) = roles

-- The loop that fills `byUser`.
unfoldable pub group_roles : List UserRole → List (Text × Roles) → List (Text × Roles)
group_roles [] by_user = by_user
group_roles (r ∷ rs) by_user =
    group_roles rs (set r.user_id (assign r (or_no_roles (lookup r.user_id by_user))) by_user)

unfoldable pub list_all : Db → List UserWithRoles
list_all db =
    map
      (λ (u : User). record {
        user = u;
        roles = or_no_roles (lookup u.id (group_roles db.user_roles []));
      })
      db.users

-- The upsert.
unfoldable pub set_role : Text → Area → Role → Db → Result UserError Db
set_role user area role db =
    if any (has_id user) db.users
    then ok (record db {
      user_roles =
          if any (is_role user area) db.user_roles
          then update (is_role user area) (λ r. record r { role = role }) db.user_roles
          else record { user_id = user; area = area; role = role } ∷ db.user_roles;
    })
    else err unknown_user

unfoldable pub revoke_role : Text → Area → Db → Db
revoke_role user area db = record db {
  user_roles = select (λ r. not (is_role user area r)) db.user_roles;
}

unfoldable pub set_org_admin : Text → Bool → Db → Db
set_org_admin id value db = record db {
  users = update (has_id id) (λ u. record u { is_org_admin = value }) db.users;
}

unfoldable pub disable : Text → ℕ → Db → Db
disable id now db = record db {
  users = update (has_id id) (λ u. record u { disabled_at = some now }) db.users;
}

unfoldable pub mark_login : Text → ℕ → Db → Db
mark_login id now db = record db {
  users = update (has_id id) (λ u. record u { last_login_at = some now }) db.users;
}

abbrev pub count : Db → ℕ
count db = length db.users

abbrev pub count_active : Db → ℕ
count_active db = length (select (λ u. is_null u.disabled_at) db.users)

abbrev pub or_false : Option Bool → Bool
or_false none = false
or_false (some b) = b

-- A user that is not disabled, and whose lower-case email is the given text.
abbrev pub is_active_email : (Text → Text) → Text → User → Bool
is_active_email lower email u = same_text (lower u.email) email && is_null u.disabled_at

module _ (normalize lower : Text → Text) where
  unfoldable pub create : Text → Option Bool → Text → ℕ → Db → Result UserError (User × Db)
  create email is_org_admin id now db =
      if any (is_active_email lower (lower (normalize email))) db.users
      then err user_exists
      else ok (row, record db { users = row ∷ db.users })
    where
      row : User
      row = record {
        id = id;
        email = normalize email;
        is_org_admin = or_false is_org_admin;
        created_at = now;
        last_login_at = none;
        disabled_at = none;
      }

  unfoldable pub find_by_email : Text → Db → Option User
  find_by_email email db = find? (is_active_email lower (normalize email)) db.users
