-- ===== src/Proxy/Admission/Gates.antt =====
-- A request that is admitted.
use vibe_shield.Prelude.{
  ℕ, ◌<◌, ◌≡◌, refl, sym, ap, subst, ◌∙◌, none, some, Text, same_text, same_text_iff,
  same_text_refl, leb, find?, find?-passes, ok, err, ◌>>=◌, Result-ok-injective, Result-cases,
  arith, Bool-cases, Option-cases, inl, inr,
}
use vibe_shield.Vault.Rows.{Session, Db, has_id}
use vibe_shield.Vault.Sessions.{session_expired, create, get}
use vibe_shield.Proxy.Admission.{
  session, session_not_found, Request, Auth, ephemeral, acquire_session,
}

-- A session of the tenant that is live.
pub record IsOwned (db : Db) (id tenant : Text) (now : ℕ) : Type 0 where
  pub row : Session
  pub found : find? (has_id id) db.sessions ≡ some row
  pub mine : row.tenant_id ≡ tenant
  pub live : now < row.expires_at

-- What a session given by its id must be.
get_lem :
    (id : Text) (now : ℕ) (db : Db) (row : Session)
    → get id now db ≡ ok (some row)
    → (find? (has_id id) db.sessions ≡ some row) × (now < row.expires_at)
unfolding get
get_lem id now db row h = elim (Option-cases (find? (has_id id) db.sessions)) [
  | inl q ↦ let nothing : get id now db ≡ ok none = rw (q, get) refl in cc (nothing, h)
  | inr (r, q) ↦ elim (Bool-cases (leb r.expires_at now)) [
    | inl over ↦
        let fails : get id now db ≡ err session_expired = rw (q, get) (rw over refl) in
        cc (fails, h)
    | inr on ↦
        let gives : get id now db ≡ ok (some r) = rw (q, get) (rw on refl) in
        let same : r ≡ row = cc (gives, h) in (q ∙ ap some same, rw (← same) (ground arith))
  ]
]

IsOwned-as :
    {db db' : Db} {id s tenant : Text} {now : ℕ}
    → ◌≡◌ {A = Text × Db} (id, db) (s, db')
    → IsOwned db id tenant now
    → IsOwned db' s tenant now
IsOwned-as {tenant = tenant} {now = now} e w =
    subst (λ (x : Text × Db). IsOwned x.1 x.0 tenant now) e w

-- The session that a request gets is in the tables that are left, is its own tenant's, and is live,
-- whether it names a session or is given a new one; the default ttl is positive.
pub acquire_session-IsOwned :
    (default_ttl : ℕ) (id : Text) (now : ℕ) (request : Request) (auth : Auth) (db db' : Db)
    (s : Text)
    → 0 < default_ttl
    → acquire_session default_ttl id now request auth db ≡ ok (s, db')
    → IsOwned db' s auth.tenant_id now
unfolding acquire_session create
acquire_session-IsOwned default_ttl id now request auth db db' s pos done =
    elim (Option-cases request.session_id) [
      | inl q ↦
          let (row, db₁) = create (ephemeral auth default_ttl) id now db in
          let gives : acquire_session default_ttl id now request auth db ≡ ok (row.id, db₁) =
            rw (q, acquire_session) refl in
          IsOwned-as (Result-ok-injective (sym gives ∙ done)) (record {
            row = row;
            found = rw (same_text_refl id) refl;
            mine = refl;
            live = omega arith;
          })
      | inr (given, q) ↦ elim (Result-cases (get given now db)) [
        | inr (e, r) ↦
            let fails : acquire_session default_ttl id now request auth db ≡ err (session e) =
              rw (q, acquire_session) (rw r refl) in
            cc (fails, done)
        | inl (none, r) ↦
            let fails : acquire_session default_ttl id now request auth db ≡ err session_not_found =
              rw (q, acquire_session) (rw r refl) in
            cc (fails, done)
        | inl (some row, r) ↦ elim (Bool-cases (same_text row.tenant_id auth.tenant_id)) [
          | inr other ↦
              let fails : acquire_session default_ttl id now request auth db
                  ≡ err session_not_found =
                rw (q, acquire_session) (rw (r, ◌>>=◌) (rw (other, ◌>>=◌) refl)) in
              cc (fails, done)
          | inl mine ↦
              let gives : acquire_session default_ttl id now request auth db ≡ ok (row.id, db) =
                rw (q, acquire_session) (rw (r, ◌>>=◌) (rw (mine, ◌>>=◌) refl)) in
              let (found, live) = get_lem given now db row r in
              let named : given ≡ row.id =
                sym ((same_text_iff _ _).0 (find?-passes (has_id given) db.sessions found)) in
              IsOwned-as (Result-ok-injective (sym gives ∙ done)) (record {
                row = row;
                found = ap (λ x. find? (has_id x) db.sessions) (sym named) ∙ found;
                mine = (same_text_iff _ _).0 mine;
                live = live;
              })
        ]
      ]
    ]
