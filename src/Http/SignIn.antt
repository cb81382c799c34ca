-- ===== src/Http/SignIn.antt =====
-- apps/gateway/src/routes/auth.ts. A request handler gives what it replies or throws, and the state
-- it leaves, also where it throws. The validation of the body (zod), the mailer and the encoding of
-- URLs are arguments, as are the generated tokens and the clock. Audit rows are written where the
-- logger is configured and works: a failure there is swallowed. Logging is left out.
pub mod Signed
pub mod Link
pub mod Arrival
use vibe_shield.Prelude.{
  ℕ, Bool, true, false, List, [], ◌∷◌, ◌++◌, Option, none, some, Text, codes, split_on,
  if◌then◌else◌, Result, ok, err, ◌==◌,
}
use vibe_shield.Auth.UserSessions
use vibe_shield.Auth.UserSessions.{UserSession}
use vibe_shield.Auth.MagicLinks
use vibe_shield.Auth.MagicLinks.{MagicLink}
use vibe_shield.Auth.Users
use vibe_shield.Auth.Users.{User, UserWithRoles, find_by_email, find_by_id_with_roles, mark_login}
use vibe_shield.Http.Errors.{
  HttpError, Thrown, http, unknown, join, authentication_error, invalid_request_error,
  not_implemented_error,
}
use vibe_shield.Http.Cookies.{read_session_cookie, set_session_cookie, clear_session_cookie}

pub record Mail : Type 0 where
  pub to : Text
  pub url : Text
  pub expires_at : ℕ

-- The payloads that are hashed into the audit table.
pub data Audited : Type 0 where
  magic_link_requested : Option Text → Text → Option Text → Audited
  magic_link_consumed : Text → Audited
  session_purge : Option Text → Bool → Audited

pub record State : Type 0 where
  pub db : Users.Db
  pub links : List MagicLink
  pub sessions : List UserSession
  pub mails : List Mail
  pub audits : List Audited

pub data Reply : Type 0 where
  no_content : Option Text → Reply
  redirect : Text → Text → Reply
  me : UserWithRoles → Bool → Reply

abbrev pub Outcome : Type 0
Outcome = Result Thrown Reply × State

-- The dependencies of the router, and the library functions that it calls.
pub record Deps : Type 0 where
  pub hash : Text → Text
  pub normalize : Text → Text
  pub lower : Text → Text
  pub encode : Text → Text
  pub decode : Text → Option Text
  pub utc : ℕ → Text
  pub link_ttl : ℕ
  pub session_ttl : ℕ
  -- Whether a mail is sent, where a mailer is configured.
  pub mailer : Option (Mail → Bool)
  pub public_url : Option Text
  pub secure_cookies : Bool
  pub audit : Bool

-- `url.replace(/\/$/, '')`
abbrev pub drop_slash : Text → Text
drop_slash [] = []
drop_slash (c ∷ []) = if c == b'/' then [] else c ∷ []
drop_slash (c ∷ d ∷ s) = c ∷ drop_slash (d ∷ s)

-- `email.split('@')[1] ?? '?'`
abbrev pub second_part : List Text → Text
second_part [] = codes "?"
second_part (a ∷ []) = codes "?"
second_part (a ∷ b ∷ parts) = b

abbrev pub id_of : Option User → Option Text
id_of none = none
id_of (some u) = some u.id

abbrev pub session_user_id : Option UserWithRoles → Option Text
session_user_id none = none
session_user_id (some u) = some u.user.id

abbrev pub audited : Bool → Audited → State → State
audited true a s = record s { audits = a ∷ s.audits }
audited false a s = s

-- Whether the mailer is configured.
abbrev pub is_configured : Option (Mail → Bool) → Bool
is_configured none = false
is_configured (some send) = true

module _ (deps : Deps) where
  abbrev pub link_url : Text → Text → Text
  link_url public_url token =
      drop_slash public_url ++ (codes "/api/auth/consume?token=" ++ deps.encode token)

  -- The link that is issued to a known user, and its mail.
  unfoldable pub send_link :
      (Mail → Bool)
      → Text
      → Text
      → ℕ
      → Text
      → Option Text
      → State
      → Result Thrown (Unit {0}) × State
  send_link send public_url token now email ip s =
      elim (MagicLinks.issue deps.hash deps.normalize deps.link_ttl token now email ip s.links) [
        | err e ↦ (err unknown, s)
        | ok ((t, expires_at), links) ↦
            let mail : Mail = record {
              to = email;
              url = link_url public_url t;
              expires_at = expires_at;
            } in
            if send mail
            then (ok tt, record s { links = links; mails = mail ∷ s.mails })
            else (err unknown, record s { links = links })
      ]

  -- The end of `request-link`, where the user is known or not and the mail did not fail.
  abbrev pub link_requested :
      Option User → Text → Option Text → Result Thrown (Unit {0}) × State → Outcome
  link_requested user email ip (err e, s) = (err e, s)
  link_requested user email ip (ok _, s) = (
    ok (no_content none),
    audited deps.audit (magic_link_requested (id_of user) (second_part (split_on b'@' email)) ip) s,
  )

  abbrev pub send_if_known :
      Option User
      → (Mail → Bool)
      → Text
      → Text
      → ℕ
      → Text
      → Option Text
      → State
      → Result Thrown (Unit {0}) × State
  send_if_known none send public_url token now email ip s = (ok tt, s)
  send_if_known (some user) send public_url token now email ip s =
      send_link send public_url token now email ip s

  -- POST /api/auth/request-link; the body is the email, or what validation found wrong with it.
  unfoldable pub request_link : Result (List Text) Text → Option Text → Text → ℕ → State → Outcome
  request_link (err issues) ip token now s =
      (err (http (invalid_request_error (join (codes "; ") issues))), s)
  request_link (ok body) ip token now s = elim deps.mailer [
    | none ↦ (err (http unavailable), s)
    | some send ↦ elim deps.public_url [
      | none ↦ (err (http unavailable), s)
      | some public_url ↦
          let email = deps.normalize body in
          let user = find_by_email deps.normalize deps.lower email s.db in
          link_requested user email ip (send_if_known user send public_url token now email ip s)
    ]
  ]
    where
      unavailable : HttpError
      unavailable =
          not_implemented_error
            (codes "magic-link sign-in is unavailable (SMTP_HOST / PUBLIC_URL not configured)")

  -- The session of a user who came by a link.
  unfoldable pub start_session : User → Option Text → Text → ℕ → State → Outcome
  start_session user user_agent token now s =
      elim (UserSessions.issue deps.hash deps.session_ttl token now user.id user_agent s.sessions) [
        | err e ↦ (err unknown, s)
        | ok ((t, expires_at), sessions) ↦ (
          ok (
              redirect (codes "/")
                (set_session_cookie deps.encode deps.utc t deps.secure_cookies expires_at)),
          audited deps.audit (magic_link_consumed user.id)
              (record s { sessions = sessions; db = mark_login user.id now s.db }),
        )
      ]

  -- GET /api/auth/consume
  unfoldable pub consume : Option Text → Option Text → Text → ℕ → State → Outcome
  consume none user_agent session_token now s =
      (err (http (invalid_request_error (codes "missing token"))), s)
  consume (some []) user_agent session_token now s =
      (err (http (invalid_request_error (codes "missing token"))), s)
  consume (some (c ∷ token)) user_agent session_token now s =
      elim (MagicLinks.consume deps.hash deps.normalize deps.link_ttl (c ∷ token) now s.links) [
        | err e ↦
            (err (http (authentication_error (codes "magic link invalid or already used"))), s)
        | ok (email, links) ↦
            let s' = record s { links = links } in
            elim (find_by_email deps.normalize deps.lower email s.db) [
              | none ↦ (err (http (authentication_error (codes "account no longer active"))), s')
              | some user ↦ start_session user user_agent session_token now s'
            ]
      ]

  abbrev pub revoke_token : Option Text → ℕ → List UserSession → List UserSession
  revoke_token none now sessions = sessions
  revoke_token (some token) now sessions =
      UserSessions.revoke deps.hash deps.session_ttl token now sessions

  abbrev pub is_some : Option Text → Bool
  is_some none = false
  is_some (some t) = true

  -- POST /api/auth/logout
  unfoldable pub logout : Option Text → Option UserWithRoles → ℕ → State → Outcome
  logout cookie user now s =
      let token = read_session_cookie deps.decode cookie in
      (
        ok (no_content (some (clear_session_cookie deps.secure_cookies))),
        audited deps.audit (session_purge (session_user_id user) (is_some token))
            (record s { sessions = revoke_token token now s.sessions }),
      )

  abbrev pub account : Option UserWithRoles → Result Thrown Reply
  account none = err (http (authentication_error (codes "account no longer active")))
  account (some user) = ok (me user (is_configured deps.mailer))

  -- GET /api/auth/me
  unfoldable pub whoami : Option UserWithRoles → State → Outcome
  whoami none s = (err (http (authentication_error (codes "not signed in"))), s)
  whoami (some user) s = (account (find_by_id_with_roles user.user.id s.db), s)
