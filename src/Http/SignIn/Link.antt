-- ===== src/Http/SignIn/Link.antt =====
-- What a request for a link tells its sender.
use vibe_shield.Prelude.{
  ℕ, ◌+◌, ◌*◌, ◌≡◌, refl, ◌∙◌, ◌↔◌, ◌∷◌, inl, inr, Bool, true, false, List, Option, none, some,
  Text, any, ok, err, Option-cases,
}
use vibe_shield.Auth.MagicLinks
use vibe_shield.Auth.Users.{User, find_by_email}
use vibe_shield.Http.Errors.{unknown}
use vibe_shield.Http.SignIn.{
  Mail, State, no_content, Deps, audited, link_url, send_link, link_requested, request_link,
}

abbrev pub sent_to : Deps → Text → Text → Text → ℕ → Option User → List Mail → List Mail
sent_to deps public_url token email now none mails = mails
sent_to deps public_url token email now (some user) mails =
    record {
      to = email;
      url = link_url deps public_url token;
      expires_at = now + deps.link_ttl * 60000;
    }
    ∷ mails

audited-mails : (b : Bool) → (a : _) → (s : State) → (audited b a s).mails ≡ s.mails
audited-mails true a s = refl
audited-mails false a s = refl

send_link-mails :
    (deps : Deps) (send : Mail → Bool) (public_url token email : Text) (now : ℕ) (ip : Option Text)
    (s : State) (user : User)
    → ((m : Mail) → send m ≡ true)
    → any (MagicLinks.has_hash (deps.hash token)) s.links ≡ false
    → (send_link deps send public_url token now email ip s).1.mails
      ≡ sent_to deps public_url token email now (some user) s.mails
unfolding send_link MagicLinks.issue
send_link-mails deps send public_url token email now ip s user works new =
    rw (new, send_link) (rw (works _) refl)

-- Where the mailer works and the token is new, the reply is the same whoever the email belongs to,
-- and a mail with the link goes out exactly where it is an active user's.
pub request_link-no_content :
    (deps : Deps) (send : Mail → Bool) (public_url body : Text) (ip : Option Text) (token : Text)
    (now : ℕ) (s : State)
    → deps.mailer ≡ some send
    → deps.public_url ≡ some public_url
    → ((m : Mail) → send m ≡ true)
    → any (MagicLinks.has_hash (deps.hash token)) s.links ≡ false
    → let (reply, s') = request_link deps (ok body) ip token now s in
      (reply ≡ ok (no_content none))
      × (s'.mails
          ≡ sent_to deps public_url token
              (deps.normalize body)
              now
              (find_by_email deps.normalize deps.lower (deps.normalize body) s.db)
              s.mails)
unfolding request_link send_link MagicLinks.issue
request_link-no_content deps send public_url body ip token now s m u works new =
    rw (m, request_link)
      (rw (u, request_link)
        (elim (Option-cases (find_by_email deps.normalize deps.lower (deps.normalize body) s.db)) [
          | inl q ↦ rw q (refl, audited-mails deps.audit _ s)
          | inr (user, q) ↦ rw q (
              rw (new, link_requested)
                (rw (works _, link_requested)
                  (
                    refl,
                    audited-mails deps.audit _ _
                        ∙ send_link-mails deps send public_url token (deps.normalize body) now ip s
                            user works new,
                  )))
        ]))

-- Where the mailer fails, the reply is an error exactly for the email of an active user: it tells
-- who has an account.
pub request_link-unknown :
    (deps : Deps) (send : Mail → Bool) (public_url body : Text) (ip : Option Text) (token : Text)
    (now : ℕ) (s : State)
    → deps.mailer ≡ some send
    → deps.public_url ≡ some public_url
    → ((m : Mail) → send m ≡ false)
    → any (MagicLinks.has_hash (deps.hash token)) s.links ≡ false
    → ((request_link deps (ok body) ip token now s).0 ≡ err unknown) ↔ (
        (user : User) × (find_by_email deps.normalize deps.lower (deps.normalize body) s.db
          ≡ some user))
unfolding request_link send_link MagicLinks.issue
request_link-unknown deps send public_url body ip token now s m u fails new =
    rw (m, request_link)
      (rw (u, request_link)
        (elim (Option-cases (find_by_email deps.normalize deps.lower (deps.normalize body) s.db)) [
          | inl q ↦ rw q (λ e. absurd cc, λ (user, e). absurd cc)
          | inr (user, q) ↦ rw q (
              rw (new, link_requested)
                (rw (fails _, link_requested) (λ e. (user, refl), λ e. refl)))
        ]))
