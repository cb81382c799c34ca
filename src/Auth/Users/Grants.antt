-- ===== src/Auth/Users/Grants.antt =====
-- Roles that are granted and revoked.
use vibe_shield.Prelude.{
  ◌≡◌, refl, ◌∙◌, ◌⊎◌, inl, inr, true, false, ◌&&◌, not, List, [], ◌∷◌, none, some, Text, same_text,
  same_text_iff, same_text_refl, select, update, any, if◌then◌else◌, Result, ok, err, Bool-cases,
  arith, subst, and_left, and_right,
}
use vibe_shield.Auth.Users.{
  Area, redact, scan, compliance, same_area, Role, UserRole, Roles, Db, UserError, has_id, is_role,
  no_roles, assign, assign_all, set_role, revoke_role,
}

-- What a user's rows assign.
abbrev pub roles_of : Text → List UserRole → Roles
roles_of user rows = assign_all (select (λ r. same_text r.user_id user) rows) no_roles

pub same_area→≡ : (a b : Area) → same_area a b ≡ true → a ≡ b
same_area→≡ redact redact h = refl
same_area→≡ redact scan h = absurd cc
same_area→≡ redact compliance h = absurd cc
same_area→≡ scan redact h = absurd cc
same_area→≡ scan scan h = refl
same_area→≡ scan compliance h = absurd cc
same_area→≡ compliance redact h = absurd cc
same_area→≡ compliance scan h = absurd cc
same_area→≡ compliance compliance h = refl

pub same_area_refl : (a : Area) → same_area a a ≡ true
same_area_refl redact = refl
same_area_refl scan = refl
same_area_refl compliance = refl

is_role→user :
    (user : Text) (area : Area) (r : UserRole) → is_role user area r ≡ true → r.user_id ≡ user
is_role→user user area r h =
    (same_text_iff r.user_id user).0 (and_left (same_text r.user_id user) _ h)

is_role→area :
    (user : Text) (area : Area) (r : UserRole) → is_role user area r ≡ true → r.area ≡ area
is_role→area user area r h =
    same_area→≡ r.area area (and_right (same_text r.user_id user) (same_area r.area area) h)

module _ (user : Text) (area : Area) (role : Role) where
  regrant : UserRole → UserRole
  regrant r = record r { role = role }

  -- Where a row of the user and the area is updated, the role is assigned.
  assign_all-update :
      (rs : List UserRole) (roles : Roles)
      → (roles area ≡ some role) ⊎ (any (is_role user area) rs ≡ true)
      → assign_all
          (select (λ r. same_text r.user_id user) (update (is_role user area) regrant rs))
          roles
          area
        ≡ some role
  unfolding assign_all regrant
  assign_all-update [] roles (inl h) = h
  assign_all-update [] roles (inr h) = absurd cc
  assign_all-update (r ∷ rs) roles h = elim (Bool-cases (is_role user area r)) [
    | inl hit ↦
        let u = is_role→user user area r hit in
        let a = is_role→area user area r hit in
        rw hit (
          rw (u, same_text_refl user)
            (assign_all-update rs (assign (record r { role = role }) roles)
              (inl (rw (a, same_area_refl area) refl))))
    | inr miss ↦ elim (Bool-cases (same_text r.user_id user)) [
      | inl u ↦
          let other : same_area r.area area ≡ false = ground arith in
          rw miss (
            rw u (
              assign_all-update rs (assign r roles)
                (elim h [ inl e ↦ inl (rw other e) | inr e ↦ inr (ground arith) ])))
      | inr v ↦ rw miss (
          rw v (assign_all-update rs roles (elim h [ inl e ↦ inl e | inr e ↦ inr (ground arith) ])))
    ]
  ]

  -- Of another user or another area, the update changes nothing.
  assign_all-update_other :
      (u : Text) (a : Area) (rs : List UserRole) (roles roles' : Roles)
      → (same_text user u && same_area area a) ≡ false
      → roles a ≡ roles' a
      → assign_all
          (select (λ r. same_text r.user_id u) (update (is_role user area) regrant rs))
          roles
          a
        ≡ assign_all (select (λ r. same_text r.user_id u) rs) roles' a
  unfolding assign_all regrant
  assign_all-update_other u a [] roles roles' other h = h
  assign_all-update_other u a (r ∷ rs) roles roles' other h =
      elim (Bool-cases (is_role user area r)) [
        | inl hit ↦
            let key = is_role→user user area r hit in
            let place = is_role→area user area r hit in
            elim (Bool-cases (same_text user u)) [
              | inl me ↦
                  let away : same_area area a ≡ false = ground arith in
                  rw hit (
                    rw (key, me)
                      (assign_all-update_other u a rs (assign (record r { role = role }) roles)
                        (assign r roles') other (rw (place, away) h)))
              | inr you ↦
                  rw hit (rw (key, you) (assign_all-update_other u a rs roles roles' other h))
            ]
        | inr miss ↦ elim (Bool-cases (same_text r.user_id u)) [
          | inl mine ↦ rw miss (
              rw mine (
                assign_all-update_other u a rs (assign r roles) (assign r roles') other
                  (elim (Bool-cases (same_area r.area a)) [ inl e ↦ rw e refl | inr e ↦ rw e h ])))
          | inr yours ↦ rw miss (rw yours (assign_all-update_other u a rs roles roles' other h))
        ]
      ]

-- What is assigned before other rows than the area's matters only there.
assign_all_cong :
    (a : Area) (rs : List UserRole) (roles roles' : Roles)
    → roles a ≡ roles' a
    → assign_all rs roles a ≡ assign_all rs roles' a
unfolding assign_all
assign_all_cong a [] roles roles' h = h
assign_all_cong a (r ∷ rs) roles roles' h =
    assign_all_cong a rs (assign r roles) (assign r roles')
      (elim (Bool-cases (same_area r.area a)) [ inl e ↦ rw e refl | inr e ↦ rw e h ])

-- Rows that are not the area's assign nothing there.
assign_all-absent :
    (user : Text) (area : Area) (rs : List UserRole) (roles : Roles)
    → any (is_role user area) rs ≡ false
    → assign_all (select (λ r. same_text r.user_id user) rs) roles area ≡ roles area
unfolding assign_all
assign_all-absent user area [] roles h = refl
assign_all-absent user area (r ∷ rs) roles h = elim (Bool-cases (same_text r.user_id user)) [
  | inl mine ↦ elim (Bool-cases (same_area r.area area)) [
    | inl here ↦ absurd (ground arith)
    | inr there ↦
        rw mine (assign_all-absent user area rs (assign r roles) (ground arith) ∙ rw there refl)
  ]
  | inr yours ↦ rw yours (assign_all-absent user area rs roles (ground arith))
]

assign_all-revoke :
    (user : Text) (area : Area) (u : Text) (a : Area) (rs : List UserRole) (roles roles' : Roles)
    → (same_text user u && same_area area a) ≡ false
    → roles a ≡ roles' a
    → assign_all
        (select (λ r. same_text r.user_id u) (select (λ r. not (is_role user area r)) rs))
        roles
        a
      ≡ assign_all (select (λ r. same_text r.user_id u) rs) roles' a
unfolding assign_all
assign_all-revoke user area u a [] roles roles' other h = h
assign_all-revoke user area u a (r ∷ rs) roles roles' other h =
    elim (Bool-cases (is_role user area r)) [
      | inl hit ↦
          let key = is_role→user user area r hit in
          let place = is_role→area user area r hit in
          elim (Bool-cases (same_text user u)) [
            | inl me ↦
                let away : same_area area a ≡ false = ground arith in
                rw hit (
                  rw (key, me)
                    (assign_all-revoke user area u a rs roles (assign r roles') other
                      (rw (place, away) h)))
            | inr you ↦
                rw hit (rw (key, you) (assign_all-revoke user area u a rs roles roles' other h))
          ]
      | inr miss ↦ elim (Bool-cases (same_text r.user_id u)) [
        | inl mine ↦ rw miss (
            rw mine (
              assign_all-revoke user area u a rs (assign r roles) (assign r roles') other
                (elim (Bool-cases (same_area r.area a)) [ inl e ↦ rw e refl | inr e ↦ rw e h ])))
        | inr yours ↦ rw miss (rw yours (assign_all-revoke user area u a rs roles roles' other h))
      ]
    ]

revoked-any :
    (user : Text) (area : Area) (rs : List UserRole)
    → any (is_role user area) (select (λ r. not (is_role user area r)) rs) ≡ false
revoked-any user area [] = refl
revoked-any user area (r ∷ rs) = elim (Bool-cases (is_role user area r)) [
  | inl hit ↦ rw hit (revoked-any user area rs)
  | inr miss ↦ rw miss (rw (miss, revoked-any user area rs) refl)
]

-- Granting a role gives the user that role in the area, and changes no other role of anybody.
pub roles_of-set_role :
    (user : Text) (area : Area) (role : Role) (db db' : Db) (u : Text) (a : Area)
    → set_role user area role db ≡ ok db'
    → roles_of u db'.user_roles a
      ≡ (if same_text user u && same_area area a then some role else roles_of u db.user_roles a)
unfolding set_role regrant
roles_of-set_role user area role db db' u a e = elim (Bool-cases (any (has_id user) db.users)) [
  | inl known ↦ subst After e (
      rw known (elim (Bool-cases (any (is_role user area) db.user_roles)) [
        | inl there ↦ rw there (elim (Bool-cases (same_text user u && same_area area a)) [
          | inl same ↦
              rw (same, ← mine same, ← here same)
                (assign_all-update user area role db.user_roles no_roles (inr there))
          | inr other ↦ rw other (
              assign_all-update_other user area role u a db.user_roles no_roles no_roles other refl)
        ])
        | inr new ↦ rw new (
            unfold assign_all in
            elim (Bool-cases (same_text user u)) [
              | inl me ↦ elim (Bool-cases (same_area area a)) [
                | inl here' ↦
                    let there' = same_area→≡ area a here' in
                    let me' = (same_text_iff user u).0 me in
                    rw (me, here')
                      (assign_all-absent u a db.user_roles _ (rw (← me', ← there') new)
                        ∙ rw here' refl)
                | inr away ↦
                    rw (me, away)
                      (assign_all_cong a (select (λ r. same_text r.user_id u) db.user_roles) _
                        no_roles (rw away refl))
              ]
              | inr you ↦ rw you refl
            ])
      ]))
  | inr unknown ↦ absurd (ground arith)
]
  where
    After : Result UserError Db → Type 0
    After (ok d) =
        roles_of u d.user_roles a
        ≡ (if same_text user u && same_area area a then some role else roles_of u db.user_roles a)
    After (err x) = Unit

    mine : (same_text user u && same_area area a) ≡ true → user ≡ u
    mine h = (same_text_iff user u).0 (and_left (same_text user u) _ h)

    here : (same_text user u && same_area area a) ≡ true → area ≡ a
    here h = same_area→≡ area a (and_right (same_text user u) (same_area area a) h)

-- Revoking a role takes the user's role in the area away, and changes no other role of anybody.
pub roles_of-revoke_role :
    (user : Text) (area : Area) (db : Db) (u : Text) (a : Area)
    → roles_of u (revoke_role user area db).user_roles a
      ≡ (if same_text user u && same_area area a then none else roles_of u db.user_roles a)
unfolding revoke_role
roles_of-revoke_role user area db u a = elim (Bool-cases (same_text user u && same_area area a)) [
  | inl same ↦
      let mine = (same_text_iff user u).0 (and_left (same_text user u) _ same) in
      let here = same_area→≡ area a (and_right (same_text user u) (same_area area a) same) in
      rw (same, ← mine, ← here)
        (assign_all-absent user area (select (λ r. not (is_role user area r)) db.user_roles)
          no_roles (revoked-any user area db.user_roles))
  | inr other ↦
      rw other (assign_all-revoke user area u a db.user_roles no_roles no_roles other refl)
]
