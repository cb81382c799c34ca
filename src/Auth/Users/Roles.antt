-- ===== src/Auth/Users/Roles.antt =====
-- The roles of a user, as the two listings read them from the table.
use vibe_shield.Prelude.{
  ◌≡◌, refl, sym, ap, subst, any, ◌∙◌, inl, inr, false, List, [], ◌∷◌, map, some, Text, same_text,
  same_text_iff, same_text_refl, same_text_comm, select, find?, lookup, set, lookup-set,
  lookup-set_other, All, Bool-cases, arith,
}
use vibe_shield.Auth.Users.{
  User, UserRole, UserWithRoles, Roles, Db, has_id, or_no_roles, assign, assign_all, group_roles,
  find_by_id, find_by_id_with_roles, list_all,
}

-- What `byUser` holds for a user is what the user's rows assign, one after the other.
group_roles-lookup :
    (id : Text) (rs : List UserRole) (by_user : List (Text × Roles))
    → or_no_roles (lookup id (group_roles rs by_user))
      ≡ assign_all (select (λ r. same_text r.user_id id) rs) (or_no_roles (lookup id by_user))
unfolding group_roles assign_all
group_roles-lookup id [] by_user = refl
group_roles-lookup id (r ∷ rs) by_user = elim (Bool-cases (same_text r.user_id id)) [
  | inl hit ↦
      let key : r.user_id ≡ id = (same_text_iff r.user_id id).0 hit in
      let roles = assign r (or_no_roles (lookup r.user_id by_user)) in
      let found : lookup id (set r.user_id roles by_user) ≡ some roles =
        subst (λ k. lookup k (set r.user_id roles by_user) ≡ some roles) key
          (lookup-set r.user_id roles by_user) in
      group_roles-lookup id rs (set r.user_id roles by_user) ∙ rw (hit, found, key) refl
  | inr miss ↦
      let roles = assign r (or_no_roles (lookup r.user_id by_user)) in
      group_roles-lookup id rs (set r.user_id roles by_user)
      ∙ rw (miss, lookup-set_other id r.user_id roles by_user miss) refl
]

-- The primary key of vs_users.
abbrev pub HasKey : List User → Type 0
HasKey [] = Unit
HasKey (u ∷ us) = (any (has_id u.id) us ≡ false) × HasKey us

-- A user of the table is the one that its id finds.
HasKey-find? : (us : List User) → HasKey us → All (λ u. find? (has_id u.id) us ≡ some u) us
HasKey-find? [] h = tt
HasKey-find? (u ∷ us) (h, hs) = (rw (same_text_refl u.id) refl, later us h (HasKey-find? us hs))
  where
    later :
        (vs : List User)
        → any (has_id u.id) vs ≡ false
        → All (λ v. find? (has_id v.id) us ≡ some v) vs
        → All (λ v. find? (has_id v.id) (u ∷ us) ≡ some v) vs
    later [] e k = tt
    later (v ∷ vs) e (k, ks) = elim (Bool-cases (same_text v.id u.id)) [
      | inl hit ↦ absurd (ground arith)
      | inr miss ↦ (rw (same_text_comm u.id v.id, miss) k, later vs (ground arith) ks)
    ]

with_roles : User → Roles → UserWithRoles
with_roles user roles = record { user = user; roles = roles }

entry : Db → User → UserWithRoles
entry db u = record { user = u; roles = or_no_roles (lookup u.id (group_roles db.user_roles [])) }

found_entry :
    (db : Db) (u : User)
    → find? (has_id u.id) db.users ≡ some u
    → find_by_id_with_roles u.id db ≡ some (entry db u)
unfolding find_by_id_with_roles find_by_id entry with_roles
found_entry db u e =
    rw (e, find_by_id_with_roles)
      (ap (λ (roles : Roles). some (with_roles u roles))
        (sym (group_roles-lookup u.id db.user_roles [])))

-- Where ids are unique, the list of all users has for each user what looking the user up gives.
pub list_all-find_by_id_with_roles :
    (db : Db)
    → HasKey db.users
    → map (λ u. find_by_id_with_roles u.id db) db.users ≡ map some (list_all db)
unfolding list_all entry
list_all-find_by_id_with_roles db h = each db.users (HasKey-find? db.users h)
  where
    each :
        (us : List User)
        → All (λ u. find? (has_id u.id) db.users ≡ some u) us
        → map (λ u. find_by_id_with_roles u.id db) us ≡ map some (map (entry db) us)
    each [] k = refl
    each (u ∷ us) (k, ks) = rw (found_entry db u k, each us ks) refl
