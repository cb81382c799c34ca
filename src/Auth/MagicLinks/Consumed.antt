-- ===== src/Auth/MagicLinks/Consumed.antt =====
-- A link is good once.
use vibe_shield.Prelude.{
  ℕ, ◌+◌, ◌*◌, ◌≤◌, ◌≡◌, refl, sym, ap, ◌∙◌, Bool, true, false, ◌&&◌, not, List, [], ◌∷◌, Option,
  none, Text, same_text, same_text_refl, ltb, find?, select, any, if◌then◌else◌, ok, err, ◌>>=◌,
  arith, Bool-cases, Option-cases, inl, inr, find?-any-false, any-select, Result-ok-injective,
}
use vibe_shield.Auth.MagicLinks.{
  MagicLink, link_invalid, has_hash, is_consumable, Call, issuing, consuming, reaping, reap_expired,
  issue, consume, call, calls,
}

module _ (hash normalize : Text → Text) (ttl : ℕ) where
  -- No call of the list issues a token with this hash.
  abbrev pub issues_none : Text → List Call → Bool
  issues_none h [] = true
  issues_none h (issuing token now email ip ∷ cs) =
      not (same_text (hash token) h) && issues_none h cs
  issues_none h (consuming token now ∷ cs) = issues_none h cs
  issues_none h (reaping now ∷ cs) = issues_none h cs

  calls-spent :
      (h : Text) (now : ℕ) (cs : List Call) (rows : List MagicLink)
      → issues_none h cs ≡ true
      → any (is_consumable h now) rows ≡ false
      → any (is_consumable h now) (calls hash normalize ttl cs rows) ≡ false
  unfolding calls call issue consume reap_expired
  calls-spent h now [] rows fresh spent = spent
  calls-spent h now (issuing token at email ip ∷ cs) rows fresh spent =
      elim (Bool-cases (any (has_hash (hash token)) rows)) [
        | inl taken ↦ rw taken (calls-spent h now cs rows (ground arith) spent)
        | inr new ↦ rw new (calls-spent h now cs _ (ground arith) (ground arith))
      ]
  calls-spent h now (consuming token at ∷ cs) rows fresh spent =
      elim (Option-cases (find? (is_consumable (hash token) at) rows)) [
        | inl q ↦ rw (q, consume) (calls-spent h now cs rows fresh spent)
        | inr (r, q) ↦
            rw (q, consume)
              (calls-spent h now cs _ fresh (
                any-select (is_consumable h now) (λ x. not (is_consumable (hash token) at x)) rows
                  spent))
      ]
  calls-spent h now (reaping at ∷ cs) rows fresh spent =
      calls-spent h now cs _ fresh
        (any-select (is_consumable h now) (λ x. not (ltb x.expires_at at)) rows spent)

  select-spent :
      (h : Text) (now : ℕ) (rows : List MagicLink)
      → any (is_consumable h now) (select (λ r. not (is_consumable h now r)) rows) ≡ false
  select-spent h now [] = refl
  select-spent h now (r ∷ rows) = elim (Bool-cases (is_consumable h now r)) [
    | inl hit ↦ rw hit (select-spent h now rows)
    | inr miss ↦ rw miss (rw (miss, select-spent h now rows) refl)
  ]

  -- A link that was consumed is refused from then on, after any calls of the store that do not
  -- issue the same token again.
  pub consume-consume :
      (token : Text) (now later : ℕ) (rows rows' : List MagicLink) (email : Text) (cs : List Call)
      → now ≤ later
      → issues_none (hash token) cs ≡ true
      → consume hash normalize ttl token now rows ≡ ok (email, rows')
      → consume hash normalize ttl token later (calls hash normalize ttl cs rows')
        ≡ err link_invalid
  unfolding consume
  consume-consume token now later rows rows' email cs le fresh done =
      elim (Option-cases (find? (is_consumable (hash token) now) rows)) [
        | inl q ↦
            let no : consume hash normalize ttl token now rows ≡ err link_invalid =
              rw (q, consume) refl in
            cc (no, done)
        | inr (r, q) ↦
            let yes : consume hash normalize ttl token now rows
                ≡ ok (r.email, select (λ x. not (is_consumable (hash token) now x)) rows) =
              rw (q, consume) refl in
            let table : rows' ≡ select (λ x. not (is_consumable (hash token) now x)) rows =
              ap (λ (x : Text × List MagicLink). x.1) (Result-ok-injective (sym done ∙ yes)) in
            let spent : any (is_consumable (hash token) now) rows' ≡ false =
              rw table (select-spent (hash token) now rows) in
            let after = calls-spent (hash token) now cs rows' fresh spent in
            rw
              (
                find?-any-false (is_consumable (hash token) later) (is_consumable (hash token) now)
                    _ (λ x e. ground (arith, e)) after,
                consume,
              )
              refl
      ]

  -- An issued link gives the address that it was issued for, in its normal form, until its time is
  -- over, and nothing from then on.
  pub consume-issue :
      (token : Text) (now later : ℕ) (email : Text) (ip : Option Text) (rows : List MagicLink)
      → any (has_hash (hash token)) rows ≡ false
      → (issue hash normalize ttl token now email ip rows >>= λ (r : (Text × ℕ) × List MagicLink).
          consume hash normalize ttl token later r.1 >>= λ (r' : Text × List MagicLink). ok r'.0)
        ≡ (if ltb later (now + ttl * 60000) then ok (normalize email) else err link_invalid)
  unfolding issue consume
  consume-issue token now later email ip rows new =
      let absent : find? (is_consumable (hash token) later) rows ≡ none =
        find?-any-false (is_consumable (hash token) later) (has_hash (hash token)) rows
          (λ r e. ground (arith, e)) new in
      rw (new, issue)
        (rw (same_text_refl (hash token), consume)
          (elim (Bool-cases (ltb later (now + ttl * 60000))) [
            | inl live ↦ rw (live, ◌>>=◌) refl
            | inr over ↦ rw (over, ◌>>=◌) (rw (absent, ◌>>=◌) refl)
          ]))
