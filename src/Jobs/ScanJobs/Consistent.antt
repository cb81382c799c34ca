-- ===== src/Jobs/ScanJobs/Consistent.antt =====
-- The calls of the store keep the counters right.
use vibe_shield.Prelude.{
  ℕ, suc, ◌≡◌, refl, sym, ap, ◌∙◌, Bool, true, false, ◌&&◌, List, [], ◌∷◌, none, Text, same_text,
  update, any, if◌then◌else◌, arith, Bool-cases, inl, inr, All-update_to, All-map, any-update_same,
  and_left, All-update,
}
use vibe_shield.Jobs.ScanJobs.Counters.{
  IsCounted, IsConsistent, findings_of, file-IsCounted, finding-IsCounted, files_of_new,
  findings_of_new,
}
use vibe_shield.Jobs.ScanJobs.{
  Severity, CreateScanJob, ScanJob, AddScanFile, ScanFile, AddScanFinding, ScanFinding, Store,
  is_job, is_high, is_medium, is_low, create, mark_running, mark_completed, mark_failed, add_file,
  add_finding, insert_file, insert_finding, set_job, set_finding_suppressed, Call, creating,
  running_job, completing, failing, adding_file, adding_finding, suppressing, call, calls,
}

-- A job is there after any update that keeps the ids.
still_there :
    (id : Text) (f : ScanJob → ScanJob) (jobs : List ScanJob)
    → ((j : ScanJob) → (f j).id ≡ j.id)
    → (other : Text) → any (is_job other) jobs ≡ true
    → any (is_job other) (update (is_job id) f jobs) ≡ true
still_there id f jobs keep other h =
    any-update_same (is_job other) (is_job id) f jobs (λ j. ap (λ i. same_text i other) (keep j))
    ∙ h

-- A change of a job that keeps its counters.
mark-IsConsistent :
    (id : Text) (f : ScanJob → ScanJob) (s : Store)
    → ((j : ScanJob) → (f j).id ≡ j.id)
    → ((j : ScanJob) → IsCounted s.files s.findings j → IsCounted s.files s.findings (f j))
    → IsConsistent s
    → IsConsistent (set_job id f s)
mark-IsConsistent id f s keep same h = record {
  counted =
      All-update_to (IsCounted s.files s.findings) (IsCounted s.files s.findings) (is_job id) f
        s.jobs (λ j w q. same j w) (λ j w q. w) h.counted;
  files_owned =
      All-map (λ (x : ScanFile). any (is_job x.input.job_id) s.jobs ≡ true) _ s.files
        (λ x w. still_there id f s.jobs keep x.input.job_id w) h.files_owned;
  findings_owned =
      All-map (λ (x : ScanFinding). any (is_job x.input.job_id) s.jobs ≡ true) _ s.findings
        (λ x w. still_there id f s.jobs keep x.input.job_id w) h.findings_owned;
}

create-IsConsistent :
    (id : Text) (now : ℕ) (input : CreateScanJob) (s : Store)
    → IsConsistent s
    → IsConsistent (call (creating id now input) s)
unfolding call create
create-IsConsistent id now input s h = elim (Bool-cases (any (is_job id) s.jobs)) [
  | inl taken ↦ rw taken h
  | inr new ↦
      let no_files = files_of_new id s.jobs s.files new h.files_owned in
      let none_of =
        λ (p : Severity → Bool). findings_of_new p id s.jobs s.findings new h.findings_owned in
      rw new (record {
        counted = (
          (
            sym no_files,
            sym (none_of is_high),
            sym (none_of is_medium),
            sym (none_of is_low),
            omega arith,
          ),
          h.counted,
        );
        files_owned =
            All-map (λ (x : ScanFile). any (is_job x.input.job_id) s.jobs ≡ true) _ s.files
              (λ x w. rw w (ground arith)) h.files_owned;
        findings_owned =
            All-map (λ (x : ScanFinding). any (is_job x.input.job_id) s.jobs ≡ true) _ s.findings
              (λ x w. rw w (ground arith)) h.findings_owned;
      })
]

add_file-IsConsistent :
    (id : Text) (now : ℕ) (input : AddScanFile) (s : Store)
    → IsConsistent s
    → IsConsistent (call (adding_file id now input) s)
unfolding call add_file insert_file
add_file-IsConsistent id now input s h = elim (Bool-cases (any (is_job input.job_id) s.jobs)) [
  | inr missing ↦ rw missing h
  | inl owned ↦ elim (Bool-cases (any (λ (f : ScanFile). same_text f.id id) s.files)) [
    | inl taken ↦ rw owned (rw taken h)
    | inr new ↦
        let row : ScanFile = record { id = id; input = input; created_at = now } in
        rw owned (
          rw new (record {
            counted = file-IsCounted row s h.counted;
            files_owned = (
              still_there input.job_id _ s.jobs (λ j. refl) input.job_id owned,
              All-map (λ (x : ScanFile). any (is_job x.input.job_id) s.jobs ≡ true) _ s.files
                  (λ x w. still_there input.job_id _ s.jobs (λ j. refl) x.input.job_id w)
                  h.files_owned,
            );
            findings_owned =
                All-map (λ (x : ScanFinding). any (is_job x.input.job_id) s.jobs ≡ true) _
                  s.findings (λ x w. still_there input.job_id _ s.jobs (λ j. refl) x.input.job_id w)
                  h.findings_owned;
          }))
  ]
]

add_finding-IsConsistent :
    (id : Text) (now : ℕ) (input : AddScanFinding) (s : Store)
    → IsConsistent s
    → IsConsistent (call (adding_finding id now input) s)
unfolding call add_finding insert_finding
add_finding-IsConsistent id now input s h =
    elim (Bool-cases (
      any (is_job input.job_id) s.jobs
      && any (λ (f : ScanFile). same_text f.id input.file_id) s.files)) [
        | inr missing ↦ rw missing h
        | inl owners ↦ elim (Bool-cases (any (λ (x : ScanFinding). same_text x.id id) s.findings)) [
          | inl taken ↦ rw owners (rw taken h)
          | inr new ↦
              let owned : any (is_job input.job_id) s.jobs ≡ true = and_left _ _ owners in
              let row : ScanFinding = record {
                id = id;
                input = input;
                suppressed = false;
                suppressed_by = none;
                suppressed_at = none;
                suppressed_reason = none;
                created_at = now;
              } in
              rw owners (
                rw new (record {
                  counted = finding-IsCounted row s h.counted;
                  files_owned =
                      All-map (λ (x : ScanFile). any (is_job x.input.job_id) s.jobs ≡ true) _
                        s.files
                        (λ x w. still_there input.job_id _ s.jobs (λ j. refl) x.input.job_id w)
                        h.files_owned;
                  findings_owned = (
                    still_there input.job_id _ s.jobs (λ j. refl) input.job_id owned,
                    All-map (λ (x : ScanFinding). any (is_job x.input.job_id) s.jobs ≡ true) _
                        s.findings
                        (λ x w. still_there input.job_id _ s.jobs (λ j. refl) x.input.job_id w)
                        h.findings_owned,
                  );
                }))
        ]
      ]

findings_of-update :
    (p : Severity → Bool) (id : Text) (q : ScanFinding → Bool) (f : ScanFinding → ScanFinding)
    (findings : List ScanFinding)
    → ((x : ScanFinding) → (f x).input ≡ x.input)
    → findings_of p id (update q f findings) ≡ findings_of p id findings
findings_of-update p id q f [] keep = refl
findings_of-update p id q f (x ∷ xs) keep =
    let same : (same_text (if q x then f x else x).input.job_id id
          && p (if q x then f x else x).input.severity)
        ≡ (same_text x.input.job_id id && p x.input.severity) =
      elim (Bool-cases (q x)) [
        | inl hit ↦
            rw hit (ap (λ (i : AddScanFinding). same_text i.job_id id && p i.severity) (keep x))
        | inr miss ↦ rw miss refl
      ] in
    let rest = findings_of-update p id q f xs keep in
    rw same (elim (Bool-cases (same_text x.input.job_id id && p x.input.severity)) [
      | inl counted ↦ rw counted (ap suc rest)
      | inr other ↦ rw other rest
    ])

-- A change of findings that keeps what they are of.
suppress-IsConsistent :
    (q : ScanFinding → Bool) (f : ScanFinding → ScanFinding) (s : Store)
    → ((x : ScanFinding) → (f x).input ≡ x.input)
    → IsConsistent s
    → IsConsistent (record s { findings = update q f s.findings })
suppress-IsConsistent q f s keep h = record {
  counted =
      All-map (IsCounted s.files s.findings) _ s.jobs
        (λ j (files, hi, me, lo, all). (
          files,
          hi ∙ sym (findings_of-update is_high j.id q f s.findings keep),
          me ∙ sym (findings_of-update is_medium j.id q f s.findings keep),
          lo ∙ sym (findings_of-update is_low j.id q f s.findings keep),
          all,
        ))
        h.counted;
  files_owned = h.files_owned;
  findings_owned =
      All-update (λ (x : ScanFinding). any (is_job x.input.job_id) s.jobs ≡ true) q f s.findings
        (λ x w. ap (λ (i : AddScanFinding). any (is_job i.job_id) s.jobs) (keep x) ∙ w)
        h.findings_owned;
}

call-IsConsistent : (c : Call) (s : Store) → IsConsistent s → IsConsistent (call c s)
unfolding call mark_running mark_completed mark_failed set_finding_suppressed
call-IsConsistent (creating id now input) s h = create-IsConsistent id now input s h
call-IsConsistent (running_job id now) s h = mark-IsConsistent id _ s (λ j. refl) (λ j w. w) h
call-IsConsistent (completing id now) s h = mark-IsConsistent id _ s (λ j. refl) (λ j w. w) h
call-IsConsistent (failing id message now) s h = mark-IsConsistent id _ s (λ j. refl) (λ j w. w) h
call-IsConsistent (adding_file id now input) s h = add_file-IsConsistent id now input s h
call-IsConsistent (adding_finding id now input) s h = add_finding-IsConsistent id now input s h
call-IsConsistent (suppressing id b user reason now) s h =
    suppress-IsConsistent (λ x. same_text x.id id) _ s (λ x. refl) h

-- Whatever calls are made of a store whose counters are right, those that throw among them, the
-- counters are right: the files and the findings of each severity that each job counts are the rows
-- that it has, and its findings together are those of the three severities. The deletion of a job
-- is not among the calls, and a call that adds a row runs the statement that counts it too.
pub calls-IsConsistent : (cs : List Call) (s : Store) → IsConsistent s → IsConsistent (calls cs s)
unfolding calls
calls-IsConsistent [] s h = h
calls-IsConsistent (c ∷ cs) s h = calls-IsConsistent cs (call c s) (call-IsConsistent c s h)
