-- ===== src/Jobs/ScanJobs/Counters.antt =====
-- The counters of a job are the numbers of its rows.
use vibe_shield.Prelude.{
  ℕ, ◌+◌, ◌≡◌, refl, sym, ap, ◌∙◌, Bool, true, false, ◌&&◌, List, [], ◌∷◌, Text, same_text,
  same_text_iff, same_text_comm, length, select, update, any, arith, Bool-cases, inl, inr, All,
  All-update_to,
}
use vibe_shield.Jobs.ScanJobs.{
  Severity, low, medium, high, ScanJob, ScanFile, ScanFinding, Store, is_job, is_high, is_medium,
  is_low, one_more,
}

abbrev pub files_of : Text → List ScanFile → ℕ
files_of job_id files = length (select (λ (f : ScanFile). same_text f.input.job_id job_id) files)

abbrev pub findings_of : (Severity → Bool) → Text → List ScanFinding → ℕ
findings_of p job_id findings =
    length
      (select (λ (x : ScanFinding). same_text x.input.job_id job_id && p x.input.severity) findings)

-- A job counts its files, and its findings by their severity and together.
abbrev pub IsCounted : List ScanFile → List ScanFinding → ScanJob → Type 0
IsCounted files findings j =
    (j.files_count ≡ files_of j.id files)
    × (j.findings_high ≡ findings_of is_high j.id findings)
    × (j.findings_medium ≡ findings_of is_medium j.id findings)
    × (j.findings_low ≡ findings_of is_low j.id findings)
    × (j.findings_count ≡ j.findings_high + j.findings_medium + j.findings_low)

-- Every job is counted, and every file and finding belongs to a job.
pub record IsConsistent (s : Store) : Type 0 where
  pub counted : All (IsCounted s.files s.findings) s.jobs
  pub files_owned : All (λ (f : ScanFile). any (is_job f.input.job_id) s.jobs ≡ true) s.files
  pub findings_owned :
      All (λ (x : ScanFinding). any (is_job x.input.job_id) s.jobs ≡ true) s.findings

files_of-cons :
    (row : ScanFile) (files : List ScanFile) (id : Text) (b : Bool)
    → same_text row.input.job_id id ≡ b
    → files_of id (row ∷ files) ≡ one_more b (files_of id files)
files_of-cons row files id true q = rw q (omega arith)
files_of-cons row files id false q = rw q refl

findings_of-cons :
    (p : Severity → Bool) (row : ScanFinding) (findings : List ScanFinding) (id : Text) (b : Bool)
    → same_text row.input.job_id id ≡ b
    → findings_of p id (row ∷ findings)
      ≡ one_more (b && p row.input.severity) (findings_of p id findings)
findings_of-cons p row findings id true q = elim (Bool-cases (p row.input.severity)) [
  | inl r ↦ rw q (rw r (omega arith))
  | inr r ↦ rw q (rw r refl)
]
findings_of-cons p row findings id false q = rw q refl

-- The owner of a row, as the two tests spell it.
owner : (id job_id : Text) (b : Bool) → same_text id job_id ≡ b → same_text job_id id ≡ b
owner id job_id b q = same_text_comm job_id id ∙ q

pub file-IsCounted :
    (row : ScanFile) (s : Store)
    → All (IsCounted s.files s.findings) s.jobs
    → All (IsCounted (row ∷ s.files) s.findings) (
        update
          (is_job row.input.job_id)
          (λ (j : ScanJob). record j { files_count = j.files_count + 1 })
          s.jobs)
file-IsCounted row s =
    All-update_to (IsCounted s.files s.findings) (IsCounted (row ∷ s.files) s.findings)
      (is_job row.input.job_id) _ s.jobs
      (λ j (f, hi, me, lo, all) q. (
        ap (λ n. n + 1) f ∙ sym (files_of-cons row s.files j.id true (owner j.id _ true q)),
        hi,
        me,
        lo,
        all,
      ))
      (λ j (f, hi, me, lo, all) q.
        (f ∙ sym (files_of-cons row s.files j.id false (owner j.id _ false q)), hi, me, lo, all))

sum_one_more :
    (s : Severity) (h m l : ℕ)
    → h + m + l + 1 ≡ one_more (is_high s) h + one_more (is_medium s) m + one_more (is_low s) l
sum_one_more high h m l = omega arith
sum_one_more medium h m l = omega arith
sum_one_more low h m l = omega arith

pub finding-IsCounted :
    (row : ScanFinding) (s : Store)
    → All (IsCounted s.files s.findings) s.jobs
    → All (IsCounted s.files (row ∷ s.findings)) (
        update
          (is_job row.input.job_id)
          (λ (j : ScanJob). record j {
            findings_count = j.findings_count + 1;
            findings_high = one_more (is_high row.input.severity) j.findings_high;
            findings_medium = one_more (is_medium row.input.severity) j.findings_medium;
            findings_low = one_more (is_low row.input.severity) j.findings_low;
          })
          s.jobs)
finding-IsCounted row s =
    All-update_to (IsCounted s.files s.findings) (IsCounted s.files (row ∷ s.findings))
      (is_job row.input.job_id) _ s.jobs
      (λ j (f, hi, me, lo, all) q.
        let sev = row.input.severity in
        let mine = owner j.id _ true q in
        (
          f,
          ap (one_more (is_high sev)) hi
              ∙ sym (findings_of-cons is_high row s.findings j.id true mine),
          ap (one_more (is_medium sev)) me
              ∙ sym (findings_of-cons is_medium row s.findings j.id true mine),
          ap (one_more (is_low sev)) lo
              ∙ sym (findings_of-cons is_low row s.findings j.id true mine),
          ap (λ n. n + 1) all ∙ sum_one_more sev j.findings_high j.findings_medium j.findings_low,
        ))
      (λ j (f, hi, me, lo, all) q.
        let other = owner j.id _ false q in
        (
          f,
          hi ∙ sym (findings_of-cons is_high row s.findings j.id false other),
          me ∙ sym (findings_of-cons is_medium row s.findings j.id false other),
          lo ∙ sym (findings_of-cons is_low row s.findings j.id false other),
          all,
        ))

-- The rows of a job that does not exist are none.
pub files_of_new :
    (id : Text) (jobs : List ScanJob) (files : List ScanFile)
    → any (is_job id) jobs ≡ false
    → All (λ (f : ScanFile). any (is_job f.input.job_id) jobs ≡ true) files
    → files_of id files ≡ 0
files_of_new id jobs [] new h = refl
files_of_new id jobs (f ∷ files) new (owned, h) = elim (Bool-cases (same_text f.input.job_id id)) [
  | inl q ↦
      let same : f.input.job_id ≡ id = (same_text_iff _ _).0 q in
      let clash : any (is_job id) jobs ≡ true = rw (← same) owned in cc (clash, new)
  | inr q ↦ rw q (files_of_new id jobs files new h)
]

pub findings_of_new :
    (p : Severity → Bool) (id : Text) (jobs : List ScanJob) (findings : List ScanFinding)
    → any (is_job id) jobs ≡ false
    → All (λ (x : ScanFinding). any (is_job x.input.job_id) jobs ≡ true) findings
    → findings_of p id findings ≡ 0
findings_of_new p id jobs [] new h = refl
findings_of_new p id jobs (x ∷ findings) new (owned, h) =
    elim (Bool-cases (same_text x.input.job_id id)) [
      | inl q ↦
          let same : x.input.job_id ≡ id = (same_text_iff _ _).0 q in
          let clash : any (is_job id) jobs ≡ true = rw (← same) owned in cc (clash, new)
      | inr q ↦ rw q (findings_of_new p id jobs findings new h)
    ]
