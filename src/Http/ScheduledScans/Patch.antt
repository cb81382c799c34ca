-- ===== src/Http/ScheduledScans/Patch.antt =====
-- What a patch does to a scheduled scan.
use vibe_shield.Prelude.{
  ℕ, ◌≡◌, refl, subst, ◌⊎◌, inl, inr, true, List, [], ◌∷◌, Option, none, some, Text, codes,
  same_text, same_text_iff, find?, find?-All, All, update, Result, ok, err, Gives, Gives->>=,
  Option-cases, Result-cases, Bool-cases,
}
use vibe_shield.Auth.Users
use vibe_shield.Auth.Users.{Role, UserWithRoles}
use vibe_shield.Http.Errors.{HttpError}
use vibe_shield.Jobs.Cron.{Moment}
use vibe_shield.Jobs.ScheduledScans
use vibe_shield.Jobs.ScheduledScans.{
  ScheduledScan, has_id, find_by_id, patched, update_scan, found_in,
}
use vibe_shield.Proxy.Reidentify.{Json, Fields}
use vibe_shield.Http.ScheduledScans.{
  ParsedBody, get_field, opt_str, opt_bool, opt_nullable_str, opt_severity, or_empty, parse_options,
  or_filesystem, filesystem, fields_of, parse_fields, parse_body, compute_next_or_throw,
  fetch_owned, is_org_admin_or_scan_admin, signed_in, patch_of, patch_scan, not_found, thrown,
}

-- A body that says nothing of a name and of a cron expression.
abbrev pub IsSilent : Json → Type 0
IsSilent raw =
    (fs : Fields)
    → fields_of raw ≡ some fs
    → (get_field (codes "cron_expression") fs ≡ none) × (get_field (codes "name") fs ≡ none)

abbrev IsBlank : ParsedBody → Type 0
IsBlank b = (b.cron_expression ≡ []) × (b.name ≡ [])

parse_options-texts :
    (kind cron name source : Text) (fs : Fields)
    → Gives
        (λ (b : ParsedBody). (b.cron_expression ≡ cron) × (b.name ≡ name))
        (parse_options kind cron name source fs)
parse_options-texts kind cron name source fs =
    elim (Result-cases (opt_bool (codes "enabled") (get_field (codes "enabled") fs))) [
      | inr (x, q₁) ↦ rw q₁ tt
      | inl (v, q₁) ↦
          rw q₁
            (elim (Result-cases
              (opt_nullable_str (codes "notify_emails") (get_field (codes "notify_emails") fs))) [
                | inr (x, q₂) ↦ rw q₂ tt
                | inl (v, q₂) ↦
                    rw q₂
                      (elim (Result-cases (
                        opt_nullable_str (codes "webhook_url")
                          (get_field (codes "webhook_url") fs))) [
                            | inr (x, q₃) ↦ rw q₃ tt
                            | inl (v, q₃) ↦
                                rw q₃
                                  (elim (Result-cases (
                                    opt_nullable_str (codes "webhook_secret")
                                      (get_field (codes "webhook_secret") fs))) [
                                        | inr (x, q₄) ↦ rw q₄ tt
                                        | inl (v, q₄) ↦
                                            rw q₄
                                              (elim (Result-cases (
                                                opt_severity
                                                  (get_field (codes "alert_min_severity") fs))) [
                                                    | inr (x, q₅) ↦ rw q₅ tt
                                                    | inl (v, q₅) ↦ rw q₅ ((refl, refl))
                                                  ])
                                      ])
                          ])
              ])
    ]

parse_fields-IsBlank :
    (fs : Fields)
    → get_field (codes "cron_expression") fs ≡ none
    → get_field (codes "name") fs ≡ none
    → Gives IsBlank (parse_fields true fs)
parse_fields-IsBlank fs c n =
    elim (Result-cases (opt_str (codes "source_kind") (get_field (codes "source_kind") fs))) [
      | inr (x, q) ↦ rw q tt
      | inl (kind, q) ↦ elim (Bool-cases (same_text (or_filesystem kind) filesystem)) [
        | inr other ↦ rw q (rw other tt)
        | inl files ↦ rw q (
            rw files (
              rw c (
                rw n
                  (elim (Result-cases
                    (opt_str (codes "source_ref") (get_field (codes "source_ref") fs))) [
                      | inr (x, r) ↦ rw r tt
                      | inl (source, r) ↦
                          rw r (parse_options-texts (or_filesystem kind) [] [] (or_empty source) fs)
                    ]))))
      ]
    ]

parse_body-IsBlank : (raw : Json) → IsSilent raw → Gives IsBlank (parse_body true raw)
unfolding parse_body
parse_body-IsBlank raw silent = elim (Option-cases (fields_of raw)) [
  | inl q ↦ rw q tt
  | inr (fs, q) ↦ let (c, n) = silent fs q in rw q (parse_fields-IsBlank fs c n)
]

abbrev WasBlanked : ScheduledScan × List ScheduledScan → Type 0
WasBlanked (row, rows) = (row.cron_expression ≡ []) × (row.name ≡ [])

-- A row of the id has been blanked.
abbrev Changed : Text → ScheduledScan → Type 0
Changed id r = has_id id r ≡ true → (r.cron_expression ≡ []) × (r.name ≡ [])

found_in-WasBlanked :
    (id : Text) (rows : List ScheduledScan)
    → All (Changed id) rows
    → Gives WasBlanked (found_in id rows)
found_in-WasBlanked id rows h = elim (Option-cases (find? (has_id id) rows)) [
  | inl q ↦ rw (q, found_in) tt
  | inr (row, q) ↦
      let (changed, mine) = find?-All (Changed id) (has_id id) rows {x = row} h q in
      rw (q, found_in) (changed mine)
]

update_scan-WasBlanked :
    (id : Text) (body : ParsedBody) (now : ℕ) (rows : List ScheduledScan)
    → IsBlank body
    → Gives WasBlanked (update_scan id (patch_of body) now rows)
unfolding update_scan
update_scan-WasBlanked id body now rows (c, n) = found_in-WasBlanked id _ (each rows)
  where
    each :
        (rs : List ScheduledScan)
        → All (Changed id) (update (has_id id) (patched (patch_of body) now) rs)
    each [] = tt
    each (r ∷ rs) = elim (Bool-cases (has_id id r)) [
      | inl hit ↦ (rw hit (λ e. (c, n)), each rs)
      | inr miss ↦ (rw miss (λ e. absurd cc), each rs)
    ]

not_found-WasBlanked :
    (r : Result ScheduledScans.ScheduledScanError (ScheduledScan × List ScheduledScan))
    → Gives WasBlanked r
    → Gives WasBlanked (not_found r)
not_found-WasBlanked (ok r) h = h
not_found-WasBlanked (err e) h = tt

thrown-Gives :
    {A : Type 0} (P : A → Type 0) (r : Result HttpError A) → Gives P r → Gives P (thrown r)
thrown-Gives P (ok a) h = h
thrown-Gives P (err e) h = tt

-- A patch that names neither a name nor a cron expression blanks both: whatever else its body says,
-- where it succeeds, the scan that it leaves has the empty name and the empty expression.
pub patch_scan-WasBlanked :
    (to_number : Text → Option ℕ) (today : Moment) (now : ℕ) (user : Option UserWithRoles)
    (id : Text) (raw : Json) (rows rows' : List ScheduledScan) (row : ScheduledScan)
    → IsSilent raw
    → patch_scan to_number today now user id raw rows ≡ ok (row, rows')
    → (row.cron_expression ≡ []) × (row.name ≡ [])
unfolding patch_scan
patch_scan-WasBlanked to_number today now user id raw rows rows' row silent done =
    subst (Gives WasBlanked) done (
      Gives->>= WasBlanked
        (thrown (signed_in user Users.operator (codes "scan operator role required"))) _
        (λ u _. Gives->>= WasBlanked (thrown (fetch_owned id u rows)) _ (λ existing _.
          Gives->>= WasBlanked (thrown (parse_body true raw)) _ (λ body e.
            let blank : IsBlank body =
              subst (Gives IsBlank) e
                (thrown-Gives IsBlank (parse_body true raw) (parse_body-IsBlank raw silent)) in
            Gives->>= WasBlanked
              (thrown (compute_next_or_throw to_number body.cron_expression today)) _
              (λ next _.
                not_found-WasBlanked _ (update_scan-WasBlanked existing.id body now rows blank))))))

-- A scan that a handler works on is the one of the id, and is the caller's own unless the caller is
-- an administrator of the appliance or of scans.
pub fetch_owned_lem :
    (id : Text) (user : UserWithRoles) (rows : List ScheduledScan) (row : ScheduledScan)
    → fetch_owned id user rows ≡ ok row
    → (find_by_id id rows ≡ some row)
      × ((is_org_admin_or_scan_admin user ≡ true) ⊎ (row.user_id ≡ user.user.id))
unfolding fetch_owned
fetch_owned_lem id user rows row done =
    subst (Gives Owned) done (elim (Option-cases (find_by_id id rows)) [
      | inl q ↦ rw q tt
      | inr (r, q) ↦ rw q (elim (Bool-cases (is_org_admin_or_scan_admin user)) [
        | inl a ↦ rw a (q, inl a)
        | inr b ↦ rw b (elim (Bool-cases (same_text r.user_id user.user.id)) [
          | inl c ↦ rw c (q, inr ((same_text_iff r.user_id user.user.id).0 c))
          | inr d ↦ rw d tt
        ])
      ])
    ])
  where
    Owned : ScheduledScan → Type 0
    Owned r =
        (find_by_id id rows ≡ some r)
        × ((is_org_admin_or_scan_admin user ≡ true) ⊎ (r.user_id ≡ user.user.id))
