-- ===== src/Auth/ApiKeys/Revocation.antt =====
-- A key that is issued, and a key that is revoked.
use vibe_shield.Prelude.{
  ℕ, ◌≡◌, refl, ap₂, ◌∙◌, Bool, true, false, List, [], ◌∷◌, Text, same_text, same_text_refl,
  same_text_iff, length, find?, update, any, ok, err, ◌>>=◌, ◌>>◌, arith, Bool-cases, Option-cases,
  inl, inr, ◌⊎◌, some, any-update, any-update_same, find?-fails, find?-passes, find?-none-any,
  update_none,
}
use vibe_shield.Auth.ApiKeys.{
  ApiKey, KeyError, key_invalid, key_revoked, ResolvedKey, key_body_length, generate_api_key,
  is_plausible_key, has_hash, is_null, is_active, issue, resolve, revoke, Call, issuing, resolving,
  revoking, call, calls, left_by,
}
use vibe_shield.Auth.ApiKeys.Format.{is_plausible-generate_api_key}

-- After a revocation no row of the hash is active.
revoke-closes :
    (h : Text) (now : ℕ) (rows : List ApiKey) → any (is_active h) (revoke h now rows).1 ≡ false
unfolding revoke
revoke-closes h now [] = refl
revoke-closes h now (r ∷ rows) = elim (Bool-cases (is_active h r)) [
  | inl hit ↦
      let mine : has_hash h r ≡ true = ground arith in
      rw (hit, revoke-closes h now rows) (rw mine refl)
  | inr miss ↦ rw miss (rw (miss, revoke-closes h now rows) refl)
]

-- The second of two revocations of a key reports no change, and makes none.
pub revoke-revoke :
    (h : Text) (now later : ℕ) (rows : List ApiKey)
    → revoke h later (revoke h now rows).1 ≡ (false, (revoke h now rows).1)
unfolding revoke
revoke-revoke h now later rows =
    let closed = revoke-closes h now rows in
    ap₂ (λ (b : Bool) (rs : List ApiKey). (b, rs)) closed
      (update_none (is_active h) (is_active h) _ _ closed)

module _ (hash : Text → Text) where
  abbrev IsRevoked : Text → List ApiKey → Type 0
  IsRevoked h rows = (any (has_hash h) rows ≡ true) × (any (is_active h) rows ≡ false)

  issue-IsRevoked :
      (h : Text) (bytes : List ℕ) (now : ℕ) (tenant app name : Text) (rows : List ApiKey)
      → IsRevoked h rows
      → IsRevoked h (call hash (issuing bytes now tenant app name) rows)
  unfolding call issue
  issue-IsRevoked h bytes now tenant app name rows (there, closed) =
      let key = generate_api_key bytes in
      elim (Bool-cases (any (has_hash (hash key)) rows)) [
        | inl taken ↦ rw taken (there, closed)
        | inr new ↦ elim (Bool-cases (same_text (hash key) h)) [
          | inl same ↦
              let e : hash key ≡ h = (same_text_iff _ _).0 same in
              let clash : any (has_hash h) rows ≡ false = rw (← e) new in cc (clash, there)
          | inr other ↦ rw new (rw other (there, closed))
        ]
      ]

  -- A call that throws leaves the rows, another writes the time of use.
  resolve_cases :
      (presented : Text) (now : ℕ) (rows : List ApiKey)
      → ((e : KeyError) × (resolve hash presented now rows ≡ err e))
        ⊎ ((k : ResolvedKey) × (key_hash : Text) × (resolve hash presented now rows
              ≡ ok
                  (k, update (has_hash key_hash) (λ r. record r { last_used_at = some now }) rows)))
  unfolding resolve
  resolve_cases presented now rows = elim (Bool-cases (is_plausible_key presented)) [
    | inr bad ↦ inl (key_invalid, rw (bad, resolve) refl)
    | inl good ↦ elim (Option-cases (find? (has_hash (hash presented)) rows)) [
      | inl q ↦ inl (key_invalid, rw (good, resolve) (rw (q, ◌>>=◌) refl))
      | inr (r, q) ↦
          let mine : has_hash (hash presented) r ≡ true =
            find?-passes (has_hash (hash presented)) rows q in
          elim (Bool-cases (is_null r.revoked_at)) [
            | inr ended ↦ inl (
              key_revoked,
              rw (good, resolve) (rw (q, ◌>>=◌) (rw (mine, ◌>>=◌) (rw (ended, ◌>>=◌) refl))),
            )
            | inl live ↦ inr (
              record {
                tenant_id = r.tenant_id;
                app_id = r.app_id;
                name = r.name;
                key_hash = r.key_hash;
              },
              r.key_hash,
              rw (good, resolve) (rw (q, ◌>>=◌) (rw (mine, ◌>>=◌) (rw (live, ◌>>=◌) refl))),
            )
          ]
    ]
  ]

  resolve-IsRevoked :
      (h presented : Text) (now : ℕ) (rows : List ApiKey)
      → IsRevoked h rows
      → IsRevoked h (call hash (resolving presented now) rows)
  unfolding call
  resolve-IsRevoked h presented now rows (there, closed) = elim (resolve_cases presented now rows) [
    | inl (e, q) ↦ rw (q, left_by) (there, closed)
    | inr (k, key_hash, q) ↦
        rw (q, left_by)
          (
            any-update_same (has_hash h) (has_hash key_hash) _ rows (λ r. refl) ∙ there,
            any-update_same (is_active h) (has_hash key_hash) _ rows (λ r. refl) ∙ closed,
          )
  ]

  call-IsRevoked :
      (h : Text) (c : Call) (rows : List ApiKey) → IsRevoked h rows → IsRevoked h (call hash c rows)
  unfolding call revoke
  call-IsRevoked h (issuing bytes now tenant app name) rows w =
      issue-IsRevoked h bytes now tenant app name rows w
  call-IsRevoked h (resolving presented now) rows w = resolve-IsRevoked h presented now rows w
  call-IsRevoked h (revoking key_hash now) rows (there, closed) = (
    any-update_same (has_hash h) (is_active key_hash) _ rows (λ r. refl) ∙ there,
    any-update (is_active h) (is_active key_hash) _ rows (λ r e. ground (arith, e)) closed,
  )

  calls-IsRevoked :
      (h : Text) (cs : List Call) (rows : List ApiKey)
      → IsRevoked h rows
      → IsRevoked h (calls hash cs rows)
  unfolding calls
  calls-IsRevoked h [] rows w = w
  calls-IsRevoked h (c ∷ cs) rows w =
      calls-IsRevoked h cs (call hash c rows) (call-IsRevoked h c rows w)

  -- A plausible key of the table that was revoked is refused as revoked for good, after any calls
  -- of the store, among them new keys and further revocations.
  pub resolve-revoke :
      (key : Text) (now later : ℕ) (cs : List Call) (rows : List ApiKey)
      → is_plausible_key key ≡ true
      → any (has_hash (hash key)) rows ≡ true
      → resolve hash key later (calls hash cs (revoke (hash key) now rows).1) ≡ err key_revoked
  unfolding resolve revoke
  resolve-revoke key now later cs rows plausible there =
      let before : any (has_hash (hash key)) (revoke (hash key) now rows).1 ≡ true =
        any-update_same (has_hash (hash key)) (is_active (hash key)) _ rows (λ r. refl) ∙ there in
      let (there', closed) =
        calls-IsRevoked (hash key) cs _ (before, revoke-closes (hash key) now rows) in
      let after = calls hash cs (revoke (hash key) now rows).1 in
      elim (Option-cases (find? (has_hash (hash key)) after)) [
        | inl q ↦ cc (find?-none-any (has_hash (hash key)) after q, there')
        | inr (r, q) ↦
            let mine : has_hash (hash key) r ≡ true = find?-passes (has_hash (hash key)) after q in
            let closed' = find?-fails (has_hash (hash key)) (is_active (hash key)) after q closed in
            let ended : is_null r.revoked_at ≡ false = ground arith in
            rw (plausible, resolve) (rw (q, ◌>>=◌) (rw (mine, ◌>>=◌) (rw (ended, ◌>>=◌) refl)))
      ]

  -- A key made of 24 random bytes, whose hash is new, is issued, and gives its tenant, its app and its
  -- name when it is presented.
  pub resolve-issue :
      (bytes : List ℕ) (now later : ℕ) (tenant app name : Text) (rows : List ApiKey)
      → length bytes ≡ key_body_length
      → any (has_hash (hash (generate_api_key bytes))) rows ≡ false
      → (issue hash bytes now tenant app name rows >>= λ (r : Text × List ApiKey).
          resolve hash r.0 later r.1 >>= λ (r' : ResolvedKey × List ApiKey). ok r'.0)
        ≡ ok (record {
          tenant_id = tenant;
          app_id = app;
          name = name;
          key_hash = hash (generate_api_key bytes);
        })
  unfolding issue resolve
  resolve-issue bytes now later tenant app name rows size new =
      let key = generate_api_key bytes in
      let plausible = is_plausible-generate_api_key bytes size in
      rw (new, issue)
        (rw (plausible, resolve)
          (rw (same_text_refl (hash key), ◌>>=◌) (rw (same_text_refl (hash key), ◌>>◌) refl)))
