-- ===== src/Auth/UserSessions/Sliding.antt =====
-- How long a session is accepted.
use mathlib.Core.Option
use vibe_shield.Prelude.{
  ℕ, ◌+◌, ◌*◌, ◌≡◌, refl, sym, ap, ◌∙◌, true, false, List, [], ◌∷◌, Option, none, Text,
  same_text_refl, ltb, find?, update, any, if◌then◌else◌, Result, ok, err, arith, Bool-cases,
  Option-cases, inl, inr, and_left, and_right, find?-any-false, ◌>>=◌, ◌≤◌, Result-ok-injective,
}
use vibe_shield.Auth.UserSessions.{
  UserSession, StoreError, session_invalid, is_null, has_hash, is_valid, issue, validate,
}

module _ (hash : Text → Text) (ttl : ℕ) where
  abbrev pub user_of :
      Result StoreError ((Text × ℕ) × List UserSession) → Result StoreError (Text × ℕ)
  user_of m = m >>= λ (r : (Text × ℕ) × List UserSession). ok r.0

  -- A session that is issued is accepted until its idle time is over, and not from then on; an
  -- acceptance gives its user, and moves the end of the session.
  pub validate-issue :
      (token : Text) (now later : ℕ) (user : Text) (agent : Option Text) (rows : List UserSession)
      → any (has_hash (hash token)) rows ≡ false
      → user_of (
          issue hash ttl token now user agent rows >>= λ (r : (Text × ℕ) × List UserSession).
          validate hash ttl token later r.1)
        ≡ (if ltb later (now + ttl * 60000)
            then ok (user, later + ttl * 60000)
            else err session_invalid)
  unfolding issue validate
  validate-issue token now later user agent rows new =
      let absent : find? (is_valid (hash token) later) rows ≡ none =
        find?-any-false (is_valid (hash token) later) (has_hash (hash token)) rows
          (λ r e. ground (arith, e)) new in
      rw (new, issue)
        (rw (same_text_refl (hash token), validate)
          (elim (Bool-cases (ltb later (now + ttl * 60000))) [
            | inl live ↦ rw (live, ◌>>=◌) refl
            | inr over ↦ rw (over, ◌>>=◌) (rw (absent, ◌>>=◌) refl)
          ]))

  slide : ℕ → UserSession → UserSession
  slide now r = record r { last_seen_at = now; expires_at = now + ttl * 60000 }

  find?-slide :
      (h : Text) (now later : ℕ) (rows : List UserSession)
      → now ≤ later
      → find? (is_valid h later) (update (is_valid h now) (slide now) rows) ≡ (
          if ltb later (now + ttl * 60000)
          then Option.map (slide now) (find? (is_valid h now) rows)
          else none)
  unfolding slide
  find?-slide h now later [] le = ground arith
  find?-slide h now later (r ∷ rows) le = elim (Bool-cases (is_valid h now r)) [
    | inl hit ↦
        let mine : has_hash h r ≡ true = and_left _ _ hit in
        let unended : is_null r.revoked_at ≡ true =
          and_right _ _ (and_right (has_hash h r) _ hit) in
        let next : is_valid h later (slide now r) ≡ ltb later (now + ttl * 60000) =
          rw (mine, unended) (ground arith) in
        let rest = find?-slide h now later rows le in
        rw (hit, next)
          (elim (Bool-cases (ltb later (now + ttl * 60000))) [
            | inl q ↦ rw q refl
            | inr q ↦ rw q (rest ∙ rw q refl)
          ])
    | inr miss ↦
        let dead : is_valid h later r ≡ false = ground arith in
        rw (miss, dead) (find?-slide h now later rows le)
  ]

  -- A session that was accepted is accepted again until the idle time from that moment is over, and
  -- not from then on, as the same user's.
  pub validate-validate :
      (token : Text) (now later : ℕ) (rows : List UserSession) (who : Text) (end : ℕ)
      (rows' : List UserSession)
      → now ≤ later
      → validate hash ttl token now rows ≡ ok ((who, end), rows')
      → user_of (validate hash ttl token later rows') ≡ (
          if ltb later (now + ttl * 60000)
          then ok (who, later + ttl * 60000)
          else err session_invalid)
  unfolding validate slide
  validate-validate token now later rows who end rows' le done =
      elim (Option-cases (find? (is_valid (hash token) now) rows)) [
        | inl q ↦
            let no : validate hash ttl token now rows ≡ err session_invalid =
              rw (q, validate) refl in
            cc (no, done)
        | inr (r, q) ↦
            let yes : validate hash ttl token now rows
                ≡ ok (
                  (r.user_id, now + ttl * 60000),
                  update (is_valid (hash token) now) (slide now) rows,
                ) =
              rw (q, validate) refl in
            let same = Result-ok-injective (sym done ∙ yes) in
            let table : rows' ≡ update (is_valid (hash token) now) (slide now) rows =
              ap (λ (x : (Text × ℕ) × List UserSession). x.1) same in
            let user : who ≡ r.user_id = ap (λ (x : (Text × ℕ) × List UserSession). x.0.0) same in
            rw (table, user)
              (rw (find?-slide (hash token) now later rows le, validate)
                (elim (Bool-cases (ltb later (now + ttl * 60000))) [
                  | inl live ↦ rw live (rw q refl)
                  | inr over ↦ rw over refl
                ]))
      ]
