-- ===== src/Jobs/ScheduledScans.antt =====
-- packages/schema/src/vault/scheduled-scan-store.ts, `ScheduledScanStore`, and its table
-- (packages/schema/src/schema/scheduled-scans.ts). The generated id and the clock are arguments;
-- the order of an ORDER BY is the database's, an argument.
use vibe_shield.Prelude.{
  ℕ, Bool, true, false, ◌&&◌, not, List, ◌∷◌, Option, none, some, Text, same_text, leb, find?,
  select, update, Result, ok, err,
}
use vibe_shield.Jobs.ScanJobs.{Severity, high}

pub record ScheduledScan : Type 0 where
  pub id : Text
  pub user_id : Text
  pub name : Text
  pub source_kind : Text
  pub source_ref : Text
  pub cron_expression : Text
  pub enabled : Bool
  pub last_run_at : Option ℕ
  pub last_run_job_id : Option Text
  pub next_run_at : Option ℕ
  pub notify_emails : Option Text
  pub webhook_url : Option Text
  pub webhook_secret : Option Text
  pub alert_min_severity : Severity
  pub created_at : ℕ
  pub updated_at : ℕ

pub record CreateScheduledScan : Type 0 where
  pub user_id : Text
  pub name : Text
  pub source_kind : Text
  pub source_ref : Text
  pub cron_expression : Text
  pub enabled : Option Bool
  pub notify_emails : Option Text
  pub webhook_url : Option Text
  pub webhook_secret : Option Text
  pub alert_min_severity : Option Severity
  pub next_run_at : Option ℕ

-- A field that is `none` is not changed; of a nullable one, `some none` sets null.
pub record UpdateScheduledScan : Type 0 where
  pub name : Option Text
  pub cron_expression : Option Text
  pub enabled : Option Bool
  pub notify_emails : Option (Option Text)
  pub webhook_url : Option (Option Text)
  pub webhook_secret : Option (Option Text)
  pub alert_min_severity : Option Severity

pub data ScheduledScanError : Type 0 where
  scheduled_scan_not_found : ScheduledScanError

abbrev pub or_keep {ℓ} : {A : Type ℓ} → Option A → A → A
or_keep none a = a
or_keep (some b) a = b

abbrev pub has_id : Text → ScheduledScan → Bool
has_id id r = same_text r.id id

-- The defaults are the columns'.
unfoldable pub create :
    CreateScheduledScan → Text → ℕ → List ScheduledScan → ScheduledScan × List ScheduledScan
create input id now rows = (row, row ∷ rows)
  where
    row : ScheduledScan
    row = record {
      id = id;
      user_id = input.user_id;
      name = input.name;
      source_kind = input.source_kind;
      source_ref = input.source_ref;
      cron_expression = input.cron_expression;
      enabled = or_keep input.enabled true;
      last_run_at = none;
      last_run_job_id = none;
      next_run_at = input.next_run_at;
      notify_emails = input.notify_emails;
      webhook_url = input.webhook_url;
      webhook_secret = input.webhook_secret;
      alert_min_severity = or_keep input.alert_min_severity high;
      created_at = now;
      updated_at = now;
    }

unfoldable pub find_by_id : Text → List ScheduledScan → Option ScheduledScan
find_by_id id rows = find? (has_id id) rows

abbrev pub list_for_user :
    (List ScheduledScan → List ScheduledScan) → Text → List ScheduledScan → List ScheduledScan
list_for_user newest_first user_id rows =
    newest_first (select (λ r. same_text r.user_id user_id) rows)

-- NULL is not below anything.
abbrev pub is_due : ℕ → ScheduledScan → Bool
is_due now r = r.enabled && elim r.next_run_at [ none ↦ false | some t ↦ leb t now ]

unfoldable pub list_due :
    (List ScheduledScan → List ScheduledScan) → ℕ → List ScheduledScan → List ScheduledScan
list_due soonest_first now rows = soonest_first (select (is_due now) rows)

-- The columns that a patch sets.
abbrev pub patched : UpdateScheduledScan → ℕ → ScheduledScan → ScheduledScan
patched input now r = record r {
  name = or_keep input.name r.name;
  cron_expression = or_keep input.cron_expression r.cron_expression;
  enabled = or_keep input.enabled r.enabled;
  notify_emails = or_keep input.notify_emails r.notify_emails;
  webhook_url = or_keep input.webhook_url r.webhook_url;
  webhook_secret = or_keep input.webhook_secret r.webhook_secret;
  alert_min_severity = or_keep input.alert_min_severity r.alert_min_severity;
  updated_at = now;
}

abbrev pub found_in :
    Text → List ScheduledScan → Result ScheduledScanError (ScheduledScan × List ScheduledScan)
found_in id rows = elim (find? (has_id id) rows) [
  | none ↦ err scheduled_scan_not_found
  | some row ↦ ok (row, rows)
]

unfoldable pub update_scan :
    Text
    → UpdateScheduledScan
    → ℕ
    → List ScheduledScan
    → Result ScheduledScanError (ScheduledScan × List ScheduledScan)
update_scan id input now rows = found_in id (update (has_id id) (patched input now) rows)

unfoldable pub mark_run :
    Text → Option Text → Option ℕ → ℕ → ℕ → List ScheduledScan → List ScheduledScan
mark_run id last_run_job_id next_run_at run_at now = update (has_id id) (λ r. record r {
  last_run_at = some run_at;
  last_run_job_id = last_run_job_id;
  next_run_at = next_run_at;
  updated_at = now;
})

unfoldable pub delete : Text → List ScheduledScan → List ScheduledScan
delete id = select (λ r. not (has_id id r))
