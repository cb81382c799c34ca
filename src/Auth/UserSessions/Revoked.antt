-- ===== src/Auth/UserSessions/Revoked.antt =====
-- A session that is revoked.
use vibe_shield.Prelude.{
  ℕ, ◌≡◌, refl, ◌∙◌, Bool, true, false, ◌&&◌, List, [], ◌∷◌, Option, Text, same_text, same_text_iff,
  find?, any, err, arith, Bool-cases, Option-cases, inl, inr, find?-any-false, any-update,
  any-update_same,
}
use vibe_shield.Auth.UserSessions.{
  UserSession, session_invalid, is_null, has_hash, is_valid, issue, validate, revoke,
  revoke_all_for_user, Call, issuing, validating, revoking, revoking_all, call, calls,
}

module _ (hash : Text → Text) (ttl : ℕ) where
  -- The row of the hash is there, and none of its rows is without a revocation.
  abbrev is_open : Text → UserSession → Bool
  is_open h r = has_hash h r && is_null r.revoked_at

  abbrev IsRevoked : Text → List UserSession → Type 0
  IsRevoked h rows = (any (has_hash h) rows ≡ true) × (any (is_open h) rows ≡ false)

  issue-IsRevoked :
      (h token : Text) (now : ℕ) (user : Text) (agent : Option Text) (rows : List UserSession)
      → IsRevoked h rows
      → IsRevoked h (call hash ttl (issuing token now user agent) rows)
  unfolding call issue
  issue-IsRevoked h token now user agent rows (there, closed) =
      elim (Bool-cases (any (has_hash (hash token)) rows)) [
        | inl taken ↦ rw taken (there, closed)
        | inr new ↦ elim (Bool-cases (same_text (hash token) h)) [
          | inl same ↦
              let e : hash token ≡ h = (same_text_iff _ _).0 same in
              let clash : any (has_hash h) rows ≡ false = rw (← e) new in cc (clash, there)
          | inr other ↦ rw new (rw other (there, closed))
        ]
      ]

  no_open :
      (token : Text) (now : ℕ) (rows : List UserSession)
      → any (is_open (hash token)) (revoke hash ttl token now rows) ≡ false
  unfolding revoke
  no_open token now [] = refl
  no_open token now (r ∷ rows) = elim (Bool-cases (has_hash (hash token) r)) [
    | inl hit ↦ rw (hit, no_open token now rows) (rw hit refl)
    | inr miss ↦ rw (miss, no_open token now rows) (rw miss refl)
  ]

  revoke-IsRevoked :
      (token : Text) (now : ℕ) (rows : List UserSession)
      → any (has_hash (hash token)) rows ≡ true
      → IsRevoked (hash token) (revoke hash ttl token now rows)
  unfolding revoke
  revoke-IsRevoked token now rows there = (
    any-update_same (has_hash (hash token)) (has_hash (hash token)) _ rows (λ r. refl) ∙ there,
    no_open token now rows,
  )

  call-IsRevoked :
      (h : Text) (c : Call) (rows : List UserSession)
      → IsRevoked h rows
      → IsRevoked h (call hash ttl c rows)
  unfolding call validate revoke revoke_all_for_user
  call-IsRevoked h (issuing token now user agent) rows w =
      issue-IsRevoked h token now user agent rows w
  call-IsRevoked h (validating token now) rows (there, closed) =
      elim (Option-cases (find? (is_valid (hash token) now) rows)) [
        | inl q ↦ rw (q, validate) (there, closed)
        | inr (r, q) ↦
            rw (q, validate)
              (
                any-update_same (has_hash h) (is_valid (hash token) now) _ rows (λ r. refl) ∙ there,
                any-update_same (is_open h) (is_valid (hash token) now) _ rows (λ r. refl) ∙ closed,
              )
      ]
  call-IsRevoked h (revoking token now) rows (there, closed) = (
    any-update_same (has_hash h) (has_hash (hash token)) _ rows (λ r. refl) ∙ there,
    any-update (is_open h) (has_hash (hash token)) _ rows (λ r e. ground (arith, e)) closed,
  )
  call-IsRevoked h (revoking_all user now) rows (there, closed) = (
    any-update_same (has_hash h) (λ r. same_text r.user_id user && is_null r.revoked_at) _ rows
          (λ r. refl)
        ∙ there,
    any-update (is_open h) (λ r. same_text r.user_id user && is_null r.revoked_at) _ rows
        (λ r e. ground (arith, e)) closed,
  )

  calls-IsRevoked :
      (h : Text) (cs : List Call) (rows : List UserSession)
      → IsRevoked h rows
      → IsRevoked h (calls hash ttl cs rows)
  unfolding calls
  calls-IsRevoked h [] rows w = w
  calls-IsRevoked h (c ∷ cs) rows w =
      calls-IsRevoked h cs (call hash ttl c rows) (call-IsRevoked h c rows w)

  -- Once a session of the table is revoked, its token is refused for good: at any time, after any
  -- calls of the store, among them validations, new sessions and revocations.
  pub validate-revoke :
      (token : Text) (now later : ℕ) (cs : List Call) (rows : List UserSession)
      → any (has_hash (hash token)) rows ≡ true
      → validate hash ttl token later (calls hash ttl cs (revoke hash ttl token now rows))
        ≡ err session_invalid
  unfolding validate
  validate-revoke token now later cs rows there =
      let (_, closed) = calls-IsRevoked (hash token) cs _ (revoke-IsRevoked token now rows there) in
      rw
        (
          find?-any-false (is_valid (hash token) later) (is_open (hash token)) _
              (λ r e. ground (arith, e)) closed,
          validate,
        )
        refl
