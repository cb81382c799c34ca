-- ===== src/Examples/Schedules.antt =====
-- Cron expressions and scheduled scans at concrete inputs.
use vibe_shield.Prelude.{
  List, ℕ, ◌≡◌, ◌<◌, ◌+◌, refl, ap, subst, true, false, [], ◌∷◌, Option, none, some, Text, codes,
  same_text, ok, arith, if◌then◌else◌,
}
use vibe_shield.Auth.Users.{UserWithRoles, no_roles}
use vibe_shield.Jobs.Cron.{CronExpr, Moment, time, next_after, next_minute, horizon_minutes}
use vibe_shield.Jobs.Cron.Next.{IsMoment, Searched, next_after-Searched}
use vibe_shield.Jobs.ScanJobs
use vibe_shield.Jobs.ScheduledScans.{ScheduledScan, find_by_id, update_scan}
use vibe_shield.Jobs.Scheduler.{Node}
use vibe_shield.Proxy.Reidentify.{boolean, object, Fields, close, field}
use vibe_shield.Http.ScheduledScans
use vibe_shield.Http.ScheduledScans.{patch_scan, get_field, fields_of}
use vibe_shield.Http.ScheduledScans.Patch.{IsSilent, patch_scan-WasBlanked}

abbrev nightly : CronExpr
nightly = record {
  minute = 30 ∷ [];
  hour = 2 ∷ [];
  dom = 1 ∷ 2 ∷ [];
  month = 1 ∷ [];
  dow = 4 ∷ 5 ∷ [];
}

abbrev first_of_1970 : Moment
first_of_1970 = record { year = 1970; month = 0; dom = 1; hour = 0; minute = 0; day = 0 }

first-IsMoment : IsMoment first_of_1970
first-IsMoment = record {
  minute_bound = omega arith;
  hour_bound = omega arith;
  dom_bound = omega arith;
}

next_after-Searched_example :
    (time first_of_1970 < time (next_minute first_of_1970))
    × Searched nightly
        (time (next_minute first_of_1970) + horizon_minutes)
        (next_minute first_of_1970)
        (next_after nightly first_of_1970)
next_after-Searched_example = next_after-Searched nightly first_of_1970 first-IsMoment

abbrev reads_5 : Text → Option ℕ
reads_5 t = if same_text t (codes "5") then some 5 else none

abbrev admin : UserWithRoles
admin = record {
  user = record {
    id = codes "ann";
    email = codes "ann";
    is_org_admin = true;
    created_at = 0;
    last_login_at = none;
    disabled_at = none;
  };
  roles = no_roles;
}

abbrev weekly : ScheduledScan
weekly = record {
  id = codes "c1";
  user_id = codes "ann";
  name = codes "weekly";
  source_kind = codes "filesystem";
  source_ref = codes "share";
  cron_expression = codes "0 2 * * 0";
  enabled = true;
  last_run_at = none;
  last_run_job_id = none;
  next_run_at = some 100;
  notify_emails = none;
  webhook_url = none;
  webhook_secret = none;
  alert_min_severity = ScanJobs.high;
  created_at = 0;
  updated_at = 0;
}

-- `{"enabled": false}`
abbrev switched_off : Fields
switched_off = field (codes "enabled") (boolean false) close

silent_fields :
    (get_field (codes "cron_expression") switched_off ≡ none)
    × (get_field (codes "name") switched_off ≡ none)
unfolding same_text
silent_fields = (refl, refl)

abbrev fields_or_none : Option Fields → Fields
fields_or_none none = close
fields_or_none (some fs) = fs

switched_off-IsSilent : IsSilent (object switched_off)
switched_off-IsSilent fs e =
    subst
      (λ f. (get_field (codes "cron_expression") f ≡ none) × (get_field (codes "name") f ≡ none))
      (ap fields_or_none e) silent_fields

abbrev blanked : ScheduledScan
blanked = record weekly { name = []; cron_expression = []; enabled = false; updated_at = 50 }

patch_done :
    patch_scan reads_5 first_of_1970 50
      (some admin)
      (codes "c1")
      (object switched_off)
      (weekly ∷ [])
    ≡ ok (blanked, blanked ∷ [])
unfolding patch_scan ScheduledScans.parse_body ScheduledScans.fetch_owned
    ScheduledScans.has_scan_role ScheduledScans.is_org_admin_or_scan_admin
    ScheduledScans.compute_next_or_throw same_text find_by_id update_scan
patch_done = refl

patch_scan-WasBlanked_example : (◌≡◌ {A = Text} [] []) × (◌≡◌ {A = Text} [] [])
patch_scan-WasBlanked_example =
    patch_scan-WasBlanked reads_5 first_of_1970 50 (some admin) (codes "c1") (object switched_off)
      (weekly ∷ []) (blanked ∷ []) blanked switched_off-IsSilent patch_done

abbrev same : Text → Text
same t = t

abbrev fails : ScheduledScan → Text → ℕ → Option Text × ℕ
fails row f n = (none, n + 1)

abbrev to_share : List Text → Text
to_share parts = codes "/share"

abbrev missing : Text → Option Node
missing p = none

abbrev in_order : List ScheduledScan → List ScheduledScan
in_order rows = rows

abbrev overdue : ScheduledScan
overdue = record weekly { next_run_at = some 5 }
