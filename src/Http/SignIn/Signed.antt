-- ===== src/Http/SignIn/Signed.antt =====
-- Signing in by a link, and out again.
use vibe_shield.Prelude.{
  ℕ, ◌≤◌, ◌≡◌, refl, sym, ap, [], ◌∷◌, inl, inr, Bool, true, false, List, Option, none, some, Text,
  any, ok, err, Option-cases, Result-cases, codes,
}
use vibe_shield.Auth.UserSessions
use vibe_shield.Auth.UserSessions.{UserSession}
use vibe_shield.Auth.UserSessions.Revoked.{validate-revoke}
use vibe_shield.Auth.MagicLinks
use vibe_shield.Auth.MagicLinks.Consumed.{issues_none, consume-consume}
use vibe_shield.Auth.Users
use vibe_shield.Auth.Users.{User, find_by_email, find_by_id, find_by_id_with_roles}
use vibe_shield.Http.Errors.{http, authentication_error}
use vibe_shield.Http.Cookies.{read_session_cookie}
use vibe_shield.Http.Guards.{session_auth}
use vibe_shield.Http.SignIn.{State, Reply, Deps, audited, start_session, consume, logout}

pub audited-sessions : (b : Bool) (a : _) (s : State) → (audited b a s).sessions ≡ s.sessions
audited-sessions true a s = refl
audited-sessions false a s = refl

-- After a logout with the cookie of a session of the table, the token signs nobody in any more:
-- at any time, after any calls of the session store.
pub session_auth-logout :
    (deps : Deps) (cookie : Option Text) (token : Text) (now later : ℕ)
    (user : Option Users.UserWithRoles) (cs : List UserSessions.Call) (db : Users.Db) (s : State)
    → read_session_cookie deps.decode cookie ≡ some token
    → any (UserSessions.has_hash (deps.hash token)) s.sessions ≡ true
    → let s' = (logout deps cookie user now s).1 in
      (session_auth deps.hash deps.session_ttl
        (some token)
        later
        db
        (UserSessions.calls deps.hash deps.session_ttl cs s'.sessions)).0
      ≡ none
unfolding logout session_auth
session_auth-logout deps cookie token now later user cs db s e there =
    rw (audited-sessions deps.audit _ _, e)
      (rw
        (
          validate-revoke deps.hash deps.session_ttl token now later cs s.sessions there,
          session_auth,
        )
        refl)

pub audited-links : (b : Bool) (a : _) (s : State) → (audited b a s).links ≡ s.links
audited-links true a s = refl
audited-links false a s = refl

pub audited-db : (b : Bool) (a : _) (s : State) → (audited b a s).db ≡ s.db
audited-db true a s = refl
audited-db false a s = refl

module _ (deps : Deps) where
  start_session-links :
      (user : User) (agent : Option Text) (st : Text) (now : ℕ) (s : State)
      → (start_session deps user agent st now s).1.links ≡ s.links
  unfolding start_session
  start_session-links user agent st now s =
      elim (Result-cases
        (UserSessions.issue deps.hash deps.session_ttl st now user.id agent s.sessions)) [
          | inl (((t, end), rows), e) ↦ rw (e, start_session) (audited-links deps.audit _ _)
          | inr (x, e) ↦ rw (e, start_session) refl
        ]

  -- A link that signed somebody in took the row of its token from the table.
  consume-links :
      (c : ℕ) (t : Text) (agent : Option Text) (st : Text) (now : ℕ) (s : State) (reply : Reply)
      → (consume deps (some (c ∷ t)) agent st now s).0 ≡ ok reply
      → (email : Text) × (MagicLinks.consume deps.hash deps.normalize deps.link_ttl
            (c ∷ t)
            now
            s.links
          ≡ ok (email, (consume deps (some (c ∷ t)) agent st now s).1.links))
  unfolding consume
  consume-links c t agent st now s reply done =
      elim (Result-cases
        (MagicLinks.consume deps.hash deps.normalize deps.link_ttl (c ∷ t) now s.links)) [
          | inr (x, e) ↦
              let refused : (consume deps (some (c ∷ t)) agent st now s).0
                  ≡ err (http (authentication_error (codes "magic link invalid or already used"))) =
                rw (e, consume) refl in
              absurd (cc (refused, done))
          | inl ((email, links), e) ↦ (
            email,
            rw (e, consume)
                (elim (Option-cases (find_by_email deps.normalize deps.lower email s.db)) [
                  | inl q ↦ rw q refl
                  | inr (user, q) ↦ rw q (
                      ap (λ (l : List MagicLinks.MagicLink). ok (email, l))
                        (sym (start_session-links user agent st now (record s { links = links }))))
                ]),
          )
        ]

  -- A link that signed somebody in is refused from then on, whatever else happened, where the link
  -- store does not issue its token again.
  pub consume-used :
      (token : Text) (agent agent' : Option Text) (st st' : Text) (now later : ℕ) (s s' : State)
      (reply : Reply) (cs : List MagicLinks.Call)
      → now ≤ later
      → issues_none deps.hash deps.normalize deps.link_ttl (deps.hash token) cs ≡ true
      → (consume deps (some token) agent st now s).0 ≡ ok reply
      → s'.links
        ≡ MagicLinks.calls deps.hash deps.normalize deps.link_ttl cs
            (consume deps (some token) agent st now s).1.links
      → (consume deps (some token) agent' st' later s').0
        ≡ err (http (authentication_error (codes "magic link invalid or already used")))
  unfolding consume
  consume-used [] agent agent' st st' now later s s' reply cs le fresh done same = absurd cc
  consume-used (c ∷ t) agent agent' st st' now later s s' reply cs le fresh done same =
      let (email, took) = consume-links c t agent st now s reply done in
      let spent =
        consume-consume deps.hash deps.normalize deps.link_ttl (c ∷ t) now later s.links _ email cs
          le fresh took in
      rw (same, consume) (rw (spent, consume) refl)
