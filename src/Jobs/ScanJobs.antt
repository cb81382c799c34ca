-- ===== src/Jobs/ScanJobs.antt =====
-- packages/schema/src/vault/scan-job-store.ts, `ScanJobStore`, and its tables
-- (packages/schema/src/schema/scan-jobs.ts). Generated ids and the clock are arguments. The order of
-- an ORDER BY is the database's: `newest_first` is an argument. An INSERT fails where its id is taken
-- or a row that it refers to is missing. The links to redact jobs and the two joins of the store are
-- left out.
pub mod Counters
pub mod Consistent
use vibe_shield.Prelude.{
  ℕ, suc, ◌+◌, ◌*◌, min, max, Bool, true, false, ◌&&◌, ◌||◌, not, List, [], ◌∷◌, Option, none, some,
  Text, same_text, length, take, drop, find?, select, update, any, map, if◌then◌else◌, Result, ok,
  err, includes,
}

pub data Status : Type 0 where
  pending running completed failed : Status

pub data Severity : Type 0 where
  low medium high : Severity

pub data SourceKind : Type 0 where
  file archive : SourceKind

pub record CreateScanJob : Type 0 where
  pub user_id : Text
  pub source_kind : SourceKind
  pub source_name : Text
  pub source_mime : Text
  pub source_size_bytes : ℕ

pub record ScanJob : Type 0 where
  pub id : Text
  pub source : CreateScanJob
  pub files_count : ℕ
  pub findings_count : ℕ
  pub findings_high : ℕ
  pub findings_medium : ℕ
  pub findings_low : ℕ
  pub status : Status
  pub error_message : Option Text
  pub started_at : Option ℕ
  pub finished_at : Option ℕ
  pub created_at : ℕ
  pub expires_at : ℕ

pub record AddScanFile : Type 0 where
  pub job_id : Text
  pub path : Text
  pub mime : Text
  pub size_bytes : ℕ
  pub sha256 : Text
  pub skipped_reason : Option Text

pub record ScanFile : Type 0 where
  pub id : Text
  pub input : AddScanFile
  pub created_at : ℕ

pub record AddScanFinding : Type 0 where
  pub job_id : Text
  pub file_id : Text
  pub entity_type : Text
  pub severity : Severity
  pub location : Text
  pub snippet_redacted : Text
  pub sample_hash : Text

-- Who suppressed a finding, when, and why.
pub record ScanFinding : Type 0 where
  pub id : Text
  pub input : AddScanFinding
  pub suppressed : Bool
  pub suppressed_by : Option Text
  pub suppressed_at : Option ℕ
  pub suppressed_reason : Option Text
  pub created_at : ℕ

pub record Store : Type 0 where
  pub jobs : List ScanJob
  pub files : List ScanFile
  pub findings : List ScanFinding

pub data StoreError : Type 0 where
  unique_violation foreign_key_violation : StoreError

abbrev pub is_job : Text → ScanJob → Bool
is_job id j = same_text j.id id

abbrev pub is_high : Severity → Bool
is_high high = true
is_high _ = false

abbrev pub is_medium : Severity → Bool
is_medium medium = true
is_medium _ = false

abbrev pub is_low : Severity → Bool
is_low low = true
is_low _ = false

abbrev pub same_severity : Severity → Severity → Bool
same_severity high s = is_high s
same_severity medium s = is_medium s
same_severity low s = is_low s

unfoldable pub create : Text → ℕ → CreateScanJob → Store → Result StoreError (ScanJob × Store)
create id now input s =
    if any (is_job id) s.jobs
    then err unique_violation
    else ok (row, record s { jobs = row ∷ s.jobs })
  where
    row : ScanJob
    row = record {
      id = id;
      source = input;
      files_count = 0;
      findings_count = 0;
      findings_high = 0;
      findings_medium = 0;
      findings_low = 0;
      status = pending;
      error_message = none;
      started_at = none;
      finished_at = none;
      created_at = now;
      expires_at = now + 90 * 86400000;
    }

unfoldable pub find_by_id : Text → Store → Option ScanJob
find_by_id id s = find? (is_job id) s.jobs

-- `Math.min(Math.max(limit, 1), 200)`
abbrev pub page_cap : ℕ → ℕ
page_cap limit = min (max limit 1) 200

unfoldable pub list_for_user : (List ScanJob → List ScanJob) → Text → ℕ → Store → List ScanJob
list_for_user newest_first user_id limit s =
    take (page_cap limit) (newest_first (select (λ j. same_text j.source.user_id user_id) s.jobs))

unfoldable pub list_all : (List ScanJob → List ScanJob) → ℕ → Store → List ScanJob
list_all newest_first limit s = take (page_cap limit) (newest_first s.jobs)

abbrev pub set_job : Text → (ScanJob → ScanJob) → Store → Store
set_job id f s = record s { jobs = update (is_job id) f s.jobs }

unfoldable pub mark_running : Text → ℕ → Store → Store
mark_running id now = set_job id (λ j. record j { status = running; started_at = some now })

unfoldable pub mark_completed : Text → ℕ → Store → Store
mark_completed id now = set_job id (λ j. record j { status = completed; finished_at = some now })

unfoldable pub mark_failed : Text → Text → ℕ → Store → Store
mark_failed id message now = set_job id (λ j. record j {
  status = failed;
  finished_at = some now;
  error_message = some (take 1000 message);
})

-- The job, and by the foreign keys' ON DELETE CASCADE its files, and the findings of either.
unfoldable pub delete : Text → Store → Store
delete id s = record {
  jobs = select (λ j. not (is_job id j)) s.jobs;
  files = select (λ f. not (same_text f.input.job_id id)) s.files;
  findings =
      select
        (λ (x : ScanFinding). not (
          same_text x.input.job_id id
          || any (λ (f : ScanFile). same_text f.id x.input.file_id && same_text f.input.job_id id)
              s.files))
        s.findings;
}

-- The two statements of `addFile`, which stand in no transaction.
unfoldable pub insert_file : Text → ℕ → AddScanFile → Store → Result StoreError (ScanFile × Store)
insert_file id now input s =
    if not (any (is_job input.job_id) s.jobs)
    then err foreign_key_violation
    else if any (λ (f : ScanFile). same_text f.id id) s.files
    then err unique_violation
    else ok (row, record s { files = row ∷ s.files })
  where
    row : ScanFile
    row = record { id = id; input = input; created_at = now }

abbrev pub count_file : AddScanFile → Store → Store
count_file input = set_job input.job_id (λ j. record j { files_count = j.files_count + 1 })

-- The second statement of a method, where the first gave a row.
abbrev pub and_then {ℓ} :
    {A : Type ℓ} → (Store → Store) → Result StoreError (A × Store) → Result StoreError (A × Store)
and_then f (ok (row, s)) = ok (row, f s)
and_then f (err e) = err e

-- No other call stands between the two, and the second does not fail.
unfoldable pub add_file : Text → ℕ → AddScanFile → Store → Result StoreError (ScanFile × Store)
add_file id now input s = and_then (count_file input) (insert_file id now input s)

abbrev pub one_more : Bool → ℕ → ℕ
one_more b n = if b then n + 1 else n

-- The two statements of `addFinding`, likewise.
unfoldable pub insert_finding :
    Text → ℕ → AddScanFinding → Store → Result StoreError (ScanFinding × Store)
insert_finding id now input s =
    if not (
      any (is_job input.job_id) s.jobs
      && any (λ (f : ScanFile). same_text f.id input.file_id) s.files)
    then err foreign_key_violation
    else if any (λ (x : ScanFinding). same_text x.id id) s.findings
    then err unique_violation
    else ok (row, record s { findings = row ∷ s.findings })
  where
    row : ScanFinding
    row = record {
      id = id;
      input = input;
      suppressed = false;
      suppressed_by = none;
      suppressed_at = none;
      suppressed_reason = none;
      created_at = now;
    }

abbrev pub count_finding : AddScanFinding → Store → Store
count_finding input = set_job input.job_id (λ j. record j {
  findings_count = j.findings_count + 1;
  findings_high = one_more (is_high input.severity) j.findings_high;
  findings_medium = one_more (is_medium input.severity) j.findings_medium;
  findings_low = one_more (is_low input.severity) j.findings_low;
})

unfoldable pub add_finding :
    Text → ℕ → AddScanFinding → Store → Result StoreError (ScanFinding × Store)
add_finding id now input s = and_then (count_finding input) (insert_finding id now input s)

pub record FindingFilter : Type 0 where
  pub severity : Option Severity
  pub entity_type : Option Text
  pub include_suppressed : Bool
  pub limit : Option ℕ
  pub offset : Option ℕ

abbrev pub or_default : Option ℕ → ℕ → ℕ
or_default none d = d
or_default (some n) d = n

-- The conditions of `listFindings`, those that were pushed.
unfoldable pub is_listed : Text → FindingFilter → ScanFinding → Bool
is_listed job_id opts x =
    same_text x.input.job_id job_id
    && (of_severity opts.severity
        && (of_type opts.entity_type && (opts.include_suppressed || not x.suppressed)))
  where
    of_severity : Option Severity → Bool
    of_severity none = true
    of_severity (some s) = same_severity s x.input.severity

    of_type : Option Text → Bool
    of_type none = true
    of_type (some t) = same_text x.input.entity_type t

unfoldable pub list_findings :
    (List ScanFinding → List ScanFinding) → Text → FindingFilter → Store → List ScanFinding
list_findings newest_first job_id opts s =
    take (min (max (or_default opts.limit 200) 1) 1000)
      (drop (or_default opts.offset 0) (newest_first (select (is_listed job_id opts) s.findings)))

-- `null` where there is no such finding.
unfoldable pub set_finding_suppressed :
    Text → Bool → Option Text → Option Text → ℕ → Store → Option ScanFinding × Store
set_finding_suppressed finding_id suppressed user_id reason now s =
    (find? is_it findings', record s { findings = findings' })
  where
    is_it : ScanFinding → Bool
    is_it x = same_text x.id finding_id

    findings' : List ScanFinding
    findings' =
        update is_it
          (λ x. record x {
            suppressed = suppressed;
            suppressed_by = if suppressed then user_id else none;
            suppressed_at = if suppressed then some now else none;
            suppressed_reason = if suppressed then reason else none;
          })
          s.findings

pub data Call : Type 0 where
  creating : Text → ℕ → CreateScanJob → Call
  running_job : Text → ℕ → Call
  completing : Text → ℕ → Call
  failing : Text → Text → ℕ → Call
  adding_file : Text → ℕ → AddScanFile → Call
  adding_finding : Text → ℕ → AddScanFinding → Call
  suppressing : Text → Bool → Option Text → Option Text → ℕ → Call

abbrev pub left_by {ℓ} : {A : Type ℓ} → Store → Result StoreError (A × Store) → Store
left_by s (ok (_, s')) = s'
left_by s (err e) = s

-- What a call leaves; a call that throws changes nothing.
unfoldable pub call : Call → Store → Store
call (creating id now input) s = left_by s (create id now input s)
call (running_job id now) s = mark_running id now s
call (completing id now) s = mark_completed id now s
call (failing id message now) s = mark_failed id message now s
call (adding_file id now input) s = left_by s (add_file id now input s)
call (adding_finding id now input) s = left_by s (add_finding id now input s)
call (suppressing id b user reason now) s = (set_finding_suppressed id b user reason now s).1

unfoldable pub calls : List Call → Store → Store
calls [] s = s
calls (c ∷ cs) s = calls cs (call c s)
