-- ===== src/Http/SignIn/Arrival.antt =====
-- Where a link leads: from the request for it to a signed-in user.
use vibe_shield.Prelude.{
  ℕ, ◌+◌, ◌*◌, ◌≡◌, refl, ap, ◌∙◌, ◌∷◌, Bool, true, false, List, Option, none, some, Text, codes,
  ltb, any, find?, find?-update, find?-passes, update, select, same_text, same_text_refl, ok,
  and_right,
}
use vibe_shield.Auth.UserSessions
use vibe_shield.Auth.UserSessions.{UserSession}
use vibe_shield.Auth.MagicLinks
use vibe_shield.Auth.MagicLinks.{MagicLink}
use vibe_shield.Auth.Users
use vibe_shield.Auth.Users.{
  User, find_by_email, find_by_id, find_by_id_with_roles, has_id, is_active_email, is_null,
  mark_login,
}
use vibe_shield.Http.Cookies.{set_session_cookie}
use vibe_shield.Http.Guards.{session_auth}
use vibe_shield.Http.SignIn.{
  Mail, State, redirect, Deps, send_link, link_requested, request_link, start_session, consume,
  session_user_id,
}
use vibe_shield.Http.SignIn.Signed.{audited-links, audited-db, audited-sessions}

module _ (deps : Deps) where
  link_row : Text → Text → ℕ → Option Text → MagicLink
  link_row token email now ip = record {
    token_hash = deps.hash token;
    email = deps.normalize email;
    expires_at = now + deps.link_ttl * 60000;
    requested_ip = ip;
  }

  -- What a request for an active user's email leaves.
  abbrev IsRequested : MagicLink → State → State → Type 0
  IsRequested row s s' = (s'.links ≡ row ∷ s.links) × (s'.db ≡ s.db) × (s'.sessions ≡ s.sessions)

  request_link-IsRequested :
      (send : Mail → Bool) (public_url body : Text) (ip : Option Text) (token : Text) (now : ℕ)
      (s : State) (user : User)
      → deps.mailer ≡ some send
      → deps.public_url ≡ some public_url
      → ((m : Mail) → send m ≡ true)
      → any (MagicLinks.has_hash (deps.hash token)) s.links ≡ false
      → find_by_email deps.normalize deps.lower (deps.normalize body) s.db ≡ some user
      → IsRequested
          (link_row token (deps.normalize body) now ip)
          s
          (request_link deps (ok body) ip token now s).1
  unfolding request_link send_link MagicLinks.issue link_row
  request_link-IsRequested send public_url body ip token now s user m u works new q =
      rw (m, request_link)
        (rw (u, request_link)
          (rw q (
            rw (new, link_requested)
              (rw (works _, link_requested)
                (
                  audited-links deps.audit _ _ ∙ rw (new, send_link) (rw (works _) refl),
                  audited-db deps.audit _ _ ∙ rw (new, send_link) (rw (works _) refl),
                  audited-sessions deps.audit _ _ ∙ rw (new, send_link) (rw (works _) refl),
                )))))

  session_row : Text → Text → ℕ → Option Text → UserSession
  session_row token user now agent = record {
    token_hash = deps.hash token;
    user_id = user;
    last_seen_at = now;
    expires_at = now + deps.session_ttl * 60000;
    user_agent = agent;
    revoked_at = none;
  }

  -- A token whose link is live gives its user a session.
  consume-live :
      (c : ℕ) (t : Text) (agent : Option Text) (st : Text) (now : ℕ) (s : State) (row : MagicLink)
      (rows : List MagicLink) (user : User)
      → s.links ≡ row ∷ rows
      → row.token_hash ≡ deps.hash (c ∷ t)
      → ltb now row.expires_at ≡ true
      → find_by_email deps.normalize deps.lower row.email s.db ≡ some user
      → any (UserSessions.has_hash (deps.hash st)) s.sessions ≡ false
      → let (reply, s') = consume deps (some (c ∷ t)) agent st now s in
        (reply
          ≡ ok (
              redirect (codes "/") (
                set_session_cookie deps.encode deps.utc st deps.secure_cookies
                  (now + deps.session_ttl * 60000))))
        × (s'.sessions ≡ session_row st user.id now agent ∷ s.sessions)
        × (s'.db ≡ mark_login user.id now s.db)
  unfolding consume start_session UserSessions.issue session_row MagicLinks.consume
  consume-live c t agent st now s row rows user links hash live q new =
      rw (links, consume)
        (rw (hash, same_text_refl (deps.hash (c ∷ t)), live, consume)
          (rw (q, consume)
            (rw (new, start_session)
              (refl, audited-sessions deps.audit _ _, audited-db deps.audit _ _))))

  marked : User → ℕ → User
  marked user now = record user { last_login_at = some now }

  find_by_id_with_roles-mark_login :
      (now : ℕ) (db : Users.Db) (user : User)
      → find_by_id user.id db ≡ some user
      → (roles : Users.Roles) × (find_by_id_with_roles user.id (mark_login user.id now db)
          ≡ some (record { user = marked user now; roles = roles }))
  unfolding find_by_id find_by_id_with_roles mark_login marked
  find_by_id_with_roles-mark_login now db user known =
      let found : find? (has_id user.id)
            (update (has_id user.id) (λ u. record u { last_login_at = some now }) db.users)
          ≡ some (record user { last_login_at = some now }) =
        find?-update (has_id user.id) (has_id user.id) (λ u. record u { last_login_at = some now })
          db.users (λ u. refl)
        ∙ rw known (rw (same_text_refl user.id) refl) in
      (
        Users.assign_all (select (λ r. same_text r.user_id user.id) db.user_roles) Users.no_roles,
        rw (found, find_by_id_with_roles) refl,
      )

  -- A session of an active user is its user's, until it is over.
  session_auth-live :
      (st : Text) (now later : ℕ) (agent : Option Text) (db : Users.Db) (rows : List UserSession)
      (user : User)
      → find_by_id user.id db ≡ some user
      → is_null user.disabled_at ≡ true
      → ltb later (now + deps.session_ttl * 60000) ≡ true
      → session_user_id
          (session_auth deps.hash deps.session_ttl
            (some st)
            later
            (mark_login user.id now db)
            (session_row st user.id now agent ∷ rows)).0
        ≡ some user.id
  unfolding session_auth UserSessions.validate session_row marked
  session_auth-live st now later agent db rows user known active live =
      let (roles, found) = find_by_id_with_roles-mark_login now db user known in
      rw (same_text_refl (deps.hash st), live, session_auth)
        (rw (found, session_user_id) (rw (active, session_user_id) refl))

-- Whoever asks for a link with the email of an active user is signed in by it: where the mail is
-- sent, the link is used before its time is over, and the two tokens are new, the link is answered
-- by a redirection with the session's cookie, and the session's token signs in that user until the
-- session's time is over.
pub session_auth-consume-request_link :
    (deps : Deps) (send : Mail → Bool) (public_url body : Text) (ip agent : Option Text) (c : ℕ)
    (t st : Text) (now at later : ℕ) (s : State) (user : User)
    → deps.mailer ≡ some send
    → deps.public_url ≡ some public_url
    → ((m : Mail) → send m ≡ true)
    → ((x : Text) → deps.normalize (deps.normalize x) ≡ deps.normalize x)
    → any (MagicLinks.has_hash (deps.hash (c ∷ t))) s.links ≡ false
    → any (UserSessions.has_hash (deps.hash st)) s.sessions ≡ false
    → find_by_email deps.normalize deps.lower body s.db ≡ some user
    → find_by_id user.id s.db ≡ some user
    → ltb at (now + deps.link_ttl * 60000) ≡ true
    → ltb later (at + deps.session_ttl * 60000) ≡ true
    → let s₁ = (request_link deps (ok body) ip (c ∷ t) now s).1 in
      let (reply, s₂) = consume deps (some (c ∷ t)) agent st at s₁ in
      (reply
        ≡ ok (
            redirect (codes "/") (
              set_session_cookie deps.encode deps.utc st deps.secure_cookies
                (at + deps.session_ttl * 60000))))
      × (session_user_id
            (session_auth deps.hash deps.session_ttl (some st) later s₂.db s₂.sessions).0
          ≡ some user.id)
session_auth-consume-request_link deps send public_url body ip agent c t st now at later s user m u
      works idem new fresh known id soon live =
    let s₁ = (request_link deps (ok body) ip (c ∷ t) now s).1 in
    let (links, db, sessions) =
      request_link-IsRequested deps send public_url body ip (c ∷ t) now s user m u works new
        (by_normal (deps.normalize body) (idem body)) in
    let (reply, sessions', db') =
      consume-live deps c t agent st at s₁ (link_row deps (c ∷ t) (deps.normalize body) now ip)
        s.links user links (unfold link_row in refl) (unfold link_row in soon)
        (unfold link_row in
          rw db (
            by_normal (deps.normalize (deps.normalize body))
              (ap deps.normalize (idem body) ∙ idem body)))
        (rw sessions fresh) in
    (
      reply,
      rw (sessions', db', db)
          (session_auth-live deps st at later agent s.db s₁.sessions user id active live),
    )
  where
    by_normal :
        (e : Text)
        → deps.normalize e ≡ deps.normalize body
        → find_by_email deps.normalize deps.lower e s.db ≡ some user
    by_normal e h = unfold find_by_email in rw h known

    active : is_null user.disabled_at ≡ true
    active =
        and_right (same_text (deps.lower user.email) (deps.normalize body))
          (is_null user.disabled_at)
          (find?-passes (is_active_email deps.lower (deps.normalize body)) s.db.users {x = user}
            (unfold find_by_email in known))
