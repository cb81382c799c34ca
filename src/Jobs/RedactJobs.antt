-- ===== src/Jobs/RedactJobs.antt =====
-- packages/schema/src/vault/redact-job-store.ts, `RedactJobStore`, and its table
-- (packages/schema/src/schema/redact-jobs.ts). Generated ids and the clock, in milliseconds, are
-- arguments. The order of an ORDER BY is the database's: `newest_first` is an argument.
pub mod Reaped
use vibe_shield.Prelude.{
  ℕ, ◌+◌, ◌*◌, ◌-◌, min, max, Bool, true, false, ◌&&◌, ◌||◌, not, List, [], ◌∷◌, Option, none, some,
  Text, codes, same_text, length, take, find?, select, update, any, ltb, leb, if◌then◌else◌, Result,
  ok, err, or_throw, ◌>>=◌,
}
use vibe_shield.Jobs.ScanJobs.{Status, pending, running, completed, failed, page_cap}

pub record CreateRedactJob : Type 0 where
  pub user_id : Text
  pub filename : Text
  pub mime : Text
  pub source_size_bytes : ℕ
  pub batch_id : Option Text

pub record RedactJob : Type 0 where
  pub id : Text
  pub input : CreateRedactJob
  pub pages_count : Option ℕ
  pub status : Status
  pub error_message : Option Text
  pub started_at : Option ℕ
  pub finished_at : Option ℕ
  pub created_at : ℕ
  pub expires_at : ℕ

pub data StoreError : Type 0 where
  unique_violation job_not_found : StoreError

abbrev pub is_job : Text → RedactJob → Bool
is_job id j = same_text j.id id

abbrev pub is_in_batch : Text → Option Text → Bool
is_in_batch batch none = false
is_in_batch batch (some b) = same_text b batch

abbrev pub is_completed : Status → Bool
is_completed completed = true
is_completed _ = false

abbrev pub is_running : Status → Bool
is_running running = true
is_running _ = false

unfoldable pub create :
    Text → ℕ → CreateRedactJob → List RedactJob → Result StoreError (RedactJob × List RedactJob)
create id now input jobs =
    if any (is_job id) jobs then err unique_violation else ok (row, row ∷ jobs)
  where
    row : RedactJob
    row = record {
      id = id;
      input = input;
      pages_count = none;
      status = pending;
      error_message = none;
      started_at = none;
      finished_at = none;
      created_at = now;
      expires_at = now + 30 * 86400000;
    }

unfoldable pub list_for_batch : Text → List RedactJob → List RedactJob
list_for_batch batch = select (λ j. is_in_batch batch j.input.batch_id)

unfoldable pub find_by_id : Text → List RedactJob → Option RedactJob
find_by_id id = find? (is_job id)

unfoldable pub list_for_user :
    (List RedactJob → List RedactJob) → Text → ℕ → List RedactJob → List RedactJob
list_for_user newest_first user_id limit jobs =
    take (page_cap limit) (newest_first (select (λ j. same_text j.input.user_id user_id) jobs))

unfoldable pub list_all : (List RedactJob → List RedactJob) → ℕ → List RedactJob → List RedactJob
list_all newest_first limit jobs = take (page_cap limit) (newest_first jobs)

unfoldable pub mark_running : Text → ℕ → ℕ → List RedactJob → List RedactJob
mark_running id pages_count now =
    update (is_job id)
      (λ j. record j { status = running; pages_count = some pages_count; started_at = some now })

unfoldable pub mark_completed : Text → ℕ → List RedactJob → List RedactJob
mark_completed id now =
    update (is_job id) (λ j. record j { status = completed; finished_at = some now })

unfoldable pub mark_failed : Text → Text → ℕ → List RedactJob → List RedactJob
mark_failed id message now = update (is_job id) (λ j. record j {
  status = failed;
  finished_at = some now;
  error_message = some (take 1000 message);
})

abbrev pub as_new : RedactJob → RedactJob
as_new j = record j {
  status = pending;
  error_message = none;
  started_at = none;
  finished_at = none;
  pages_count = none;
}

unfoldable pub reset_for_retry :
    Text → List RedactJob → Result StoreError (RedactJob × List RedactJob)
reset_for_retry id jobs =
    let jobs' = update (is_job id) as_new jobs in
    or_throw (find? (is_job id) jobs') job_not_found >>= λ row. ok (row, jobs')

unfoldable pub find_expired : ℕ → List RedactJob → List RedactJob
find_expired now jobs = take 100 (select (λ j. is_completed j.status && leb j.expires_at now) jobs)

unfoldable pub delete : Text → List RedactJob → List RedactJob
delete id = select (λ j. not (is_job id j))

abbrev pub is_before : ℕ → Option ℕ → Bool
is_before cutoff none = true
is_before cutoff (some t) = ltb t cutoff

-- A date before the epoch is counted as the epoch: no start is before either.
abbrev pub is_stale : ℕ → ℕ → RedactJob → Bool
is_stale stuck_since_seconds now j =
    is_running j.status && is_before (now - stuck_since_seconds * 1000) j.started_at

abbrev pub restarted : Text
restarted = codes "gateway restarted while job was running"

abbrev pub as_failed : ℕ → RedactJob → RedactJob
as_failed now j = record j {
  status = failed;
  finished_at = some now;
  error_message = some restarted;
}

unfoldable pub reap_stale_running : ℕ → ℕ → List RedactJob → ℕ × List RedactJob
reap_stale_running stuck_since_seconds now jobs = (
  length (select (is_stale stuck_since_seconds now) jobs),
  update (is_stale stuck_since_seconds now) (as_failed now) jobs,
)
