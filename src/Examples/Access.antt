-- ===== src/Examples/Access.antt =====
-- Users, guards, cookies and the sign-in by a link at concrete inputs; a hash is the text itself.
use vibe_shield.Prelude.{
  ◌++◌, ◌≡◌, ◌↔◌, ◌+◌, ◌*◌, refl, true, false, Bool, [], ◌∷◌, map, none, some, Text, codes,
  same_text, ok, err, arith, any,
}
use vibe_shield.Auth.Users
use vibe_shield.Auth.Users.{
  User, UserRole, UserWithRoles, user_exists, role_satisfies, no_roles, create, find_by_email,
  find_by_id, find_by_id_with_roles, list_all, set_role, disable,
}
use vibe_shield.Auth.Users.Email.{create-find_by_email}
use vibe_shield.Auth.Users.Roles.{list_all-find_by_id_with_roles}
use vibe_shield.Auth.UserSessions
use vibe_shield.Auth.UserSessions.{UserSession}
use vibe_shield.Auth.MagicLinks
use vibe_shield.Auth.MagicLinks.{MagicLink}
use vibe_shield.Http.Errors.{join, http, unknown, authentication_error}
use vibe_shield.Http.Cookies.{
  set_session_cookie, read_session_cookie, sent_back, pair_of, IsOther,
  read_session_cookie-set_session_cookie,
}
use vibe_shield.Http.Guards.{requires, session_auth}
use vibe_shield.Http.Guards.Access.{requires-set_role, session_auth-disable}
use vibe_shield.Http.SignIn
use vibe_shield.Http.SignIn.{
  Mail, State, Deps, no_content, redirect, request_link, consume, session_user_id,
}
use vibe_shield.Http.SignIn.Link.{sent_to, request_link-no_content, request_link-unknown}
use vibe_shield.Http.SignIn.Signed.{consume-used}
use vibe_shield.Http.SignIn.Arrival.{session_auth-consume-request_link}

abbrev same : Text → Text
same t = t

abbrev user_of : Text → User
user_of name = record {
  id = name;
  email = name;
  is_org_admin = false;
  created_at = 0;
  last_login_at = none;
  disabled_at = none;
}

abbrev ann : User
ann = user_of (codes "ann")

abbrev bob : User
bob = user_of (codes "bob")

abbrev two_users : Users.Db
two_users = record { users = ann ∷ bob ∷ []; user_roles = [] }

create-find_by_email_example :
    (create same same (codes "ann") none (codes "u3") 10 two_users ≡ err user_exists)
    ↔ ((u : User) × (find_by_email same same (codes "ann") two_users ≡ some u))
create-find_by_email_example =
    create-find_by_email same same (codes "ann") none (codes "u3") 10 two_users refl

apart : any (Users.has_id (codes "ann")) (bob ∷ []) ≡ false
unfolding same_text
apart = refl

list_all-find_by_id_with_roles_example :
    map (λ u. find_by_id_with_roles u.id two_users) two_users.users ≡ map some (list_all two_users)
list_all-find_by_id_with_roles_example =
    list_all-find_by_id_with_roles two_users (apart, (refl, tt))

abbrev ann_scans : Users.Db
ann_scans = record two_users {
  user_roles = record { user_id = codes "ann"; area = Users.scan; role = Users.operator } ∷ [];
}

ann_found : find_by_id (codes "ann") two_users ≡ some ann
unfolding find_by_id same_text
ann_found = refl

ann_granted : set_role (codes "ann") Users.scan Users.operator two_users ≡ ok ann_scans
unfolding set_role same_text
ann_granted = refl

requires-set_role_example :
    (requires Users.scan Users.viewer (find_by_id_with_roles (codes "ann") ann_scans) ≡ ok tt)
    ↔ (role_satisfies Users.operator Users.viewer ≡ true)
requires-set_role_example =
    requires-set_role (codes "ann") Users.scan Users.operator Users.viewer two_users ann_scans ann
      ann_found refl ann_granted

abbrev secret : Text
secret = codes "secret"

abbrev session_row : UserSession
session_row = record {
  token_hash = secret;
  user_id = codes "ann";
  last_seen_at = 0;
  expires_at = 60000;
  user_agent = none;
  revoked_at = none;
}

abbrev ann_alone : UserWithRoles
ann_alone = record { user = ann; roles = no_roles }

ann_signed_in :
    (session_auth same 1 (some secret) 20 (disable (codes "bob") 10 two_users) (session_row ∷ [])).0
    ≡ some ann_alone
unfolding session_auth UserSessions.validate disable find_by_id_with_roles find_by_id same_text
    Users.assign_all
ann_signed_in = refl

session_auth-disable_example : same_text (codes "ann") (codes "bob") ≡ false
session_auth-disable_example =
    session_auth-disable same 1 (some secret) (codes "bob") 10 20 two_users (session_row ∷ [])
      ann_alone ann_signed_in

abbrev theme : Text × Text
theme = (codes "t", codes "x")

theme-IsOther : IsOther some theme
unfolding same_text
theme-IsOther = (refl, (refl, tt), (refl, (refl, (refl, tt))), (refl, (refl, (refl, tt))))

read_session_cookie-set_session_cookie_example :
    read_session_cookie some (
      some (
        join (codes "; ") (
          map (pair_of some) (theme ∷ [])
          ++ sent_back some (set_session_cookie same (λ t. codes "soon") (codes "abc") true 1000)
            ∷ codes "z=1"
            ∷ [])))
    ≡ some (codes "abc")
read_session_cookie-set_session_cookie_example =
    read_session_cookie-set_session_cookie some same (λ t. codes "soon") (codes "abc") true 1000
      (theme ∷ []) (codes "z=1" ∷ []) refl (refl, (refl, (refl, tt))) (refl, (refl, (refl, tt)))
      (theme-IsOther, tt)

abbrev deps_with : (Mail → Bool) → Deps
deps_with send = record {
  hash = same;
  normalize = same;
  lower = same;
  encode = same;
  decode = some;
  utc = λ t. codes "soon";
  link_ttl = 15;
  session_ttl = 60;
  mailer = some send;
  public_url = some (codes "https://firm");
  secure_cookies = true;
  audit = true;
}

abbrev delivers : Mail → Bool
delivers m = true

abbrev loses : Mail → Bool
loses m = false

abbrev before_links : State
before_links = record { db = two_users; links = []; sessions = []; mails = []; audits = [] }

request_link-no_content_example :
    ((request_link (deps_with delivers) (ok (codes "eve")) none secret 10 before_links).0
      ≡ ok (no_content none))
    × ((request_link (deps_with delivers) (ok (codes "eve")) none secret 10 before_links).1.mails
        ≡ sent_to
            (deps_with delivers)
            (codes "https://firm")
            secret
            (codes "eve")
            10
            (find_by_email same same (codes "eve") two_users)
            [])
request_link-no_content_example =
    request_link-no_content (deps_with delivers) delivers (codes "https://firm") (codes "eve") none
      secret 10 before_links refl refl (λ m. refl) refl

request_link-unknown_example :
    ((request_link (deps_with loses) (ok (codes "ann")) none secret 10 before_links).0
      ≡ err unknown)
    ↔ ((user : User) × (find_by_email same same (codes "ann") two_users ≡ some user))
request_link-unknown_example =
    request_link-unknown (deps_with loses) loses (codes "https://firm") (codes "ann") none secret 10
      before_links refl refl (λ m. refl) refl

ann_known : find_by_email same same (codes "ann") two_users ≡ some ann
unfolding find_by_email same_text
ann_known = refl

abbrev after_request : State
after_request = (request_link (deps_with delivers) (ok (codes "ann")) none secret 10 before_links).1

abbrev after_consume : State
after_consume = (consume (deps_with delivers) (some secret) none (codes "st") 20 after_request).1

session_auth-consume-request_link_example :
    ((consume (deps_with delivers) (some secret) none (codes "st") 20 after_request).0
      ≡ ok (
          redirect
            (codes "/")
            (set_session_cookie same (λ t. codes "soon") (codes "st") true (20 + 60 * 60000))))
    × (session_user_id
          (session_auth same 60 (some (codes "st")) 30 after_consume.db after_consume.sessions).0
        ≡ some (codes "ann"))
session_auth-consume-request_link_example =
    session_auth-consume-request_link (deps_with delivers) delivers (codes "https://firm")
      (codes "ann") none none b's' (codes "ecret") (codes "st") 10 20 30 before_links ann refl refl
      (λ m. refl) (λ x. refl) refl refl ann_known ann_found refl refl

abbrev link_row : MagicLink
link_row = record {
  token_hash = secret;
  email = codes "ann";
  expires_at = 60000;
  requested_ip = none;
}

abbrev one_link : State
one_link = record before_links { links = link_row ∷ [] }

abbrev signed_in : State
signed_in = (consume (deps_with delivers) (some secret) none (codes "st") 20 one_link).1

ann_came :
    (consume (deps_with delivers) (some secret) none (codes "st") 20 one_link).0
    ≡ ok (
        redirect
          (codes "/")
          (set_session_cookie same (λ t. codes "soon") (codes "st") true 3600020))
unfolding consume MagicLinks.consume find_by_email SignIn.start_session UserSessions.issue same_text
ann_came = refl

consume-used_example :
    (consume (deps_with delivers) (some secret) none (codes "st2") 30 signed_in).0
    ≡ err (http (authentication_error (codes "magic link invalid or already used")))
unfolding MagicLinks.calls
consume-used_example =
    consume-used (deps_with delivers) secret none none (codes "st") (codes "st2") 20 30 one_link
      signed_in
      (redirect (codes "/") (set_session_cookie same (λ t. codes "soon") (codes "st") true 3600020))
      [] (omega arith) refl ann_came refl
