-- ===== src/Http/ScheduledScans.antt =====
-- apps/gateway/src/routes/scheduled-scans.ts. A handler gives its reply and the table it leaves, or
-- throws and leaves the table as it was. The caller's user, the generated id, the clock, as a date
-- and in milliseconds, and `Number` of a text are arguments. A body is JSON; of an array every named
-- field is undefined. The reply is the row: only its format and the hiding of the secret are left
-- out.
pub mod Patch
use vibe_shield.Prelude.{
  ℕ, ◌*◌, Bool, true, false, ◌||◌, List, [], ◌∷◌, ◌++◌, Option, none, some, Text, codes, decimal,
  same_text, trim, if◌then◌else◌, Result, ok, err, ◌>>=◌, ◌>>◌, require, or_throw,
}
use vibe_shield.Auth.Users
use vibe_shield.Auth.Users.{Role, UserWithRoles, role_satisfies}
use vibe_shield.Http.Errors.{
  HttpError, Thrown, http, unknown, authentication_error, permission_error, invalid_request_error,
  not_found_error,
}
use vibe_shield.Jobs.Cron.{
  CronParseError, wrong_field_count, empty_field, invalid_step, invalid_range, out_of_range, Moment,
  time, next_run,
}
use vibe_shield.Jobs.ScanJobs.{Severity, low, medium, high}
use vibe_shield.Jobs.ScheduledScans
use vibe_shield.Jobs.ScheduledScans.{ScheduledScan, CreateScheduledScan, UpdateScheduledScan}
use vibe_shield.Proxy.Reidentify.{
  Json, null, boolean, number, string, array, object, Fields, close, field,
}

pub record ParsedBody : Type 0 where
  pub name : Text
  pub source_kind : Text
  pub source_ref : Text
  pub cron_expression : Text
  pub enabled : Option Bool
  pub notify_emails : Option (Option Text)
  pub webhook_url : Option (Option Text)
  pub webhook_secret : Option (Option Text)
  pub alert_min_severity : Option Severity

-- `obj[field]`; `none` is undefined.
abbrev pub get_field : Text → Fields → Option Json
get_field k close = none
get_field k (field j v fs) = let rest = get_field k fs in if same_text j k then some v else rest

abbrev pub fields_of : Json → Option Fields
fields_of (object fs) = some fs
fields_of (array xs) = some close
fields_of _ = none

abbrev pub bad_field {ℓ} : {A : Type ℓ} → Text → Text → Result HttpError A
bad_field name what = err (invalid_request_error (name ++ what))

abbrev pub unless_blank : Text → Text → Result HttpError Text
unless_blank name [] = bad_field name (codes " is required")
unless_blank name (c ∷ s) = ok (c ∷ s)

abbrev pub req_str : Text → Option Json → Result HttpError Text
req_str name (some (string s)) = unless_blank name (trim s)
req_str name _ = bad_field name (codes " is required")

abbrev pub opt_str : Text → Option Json → Result HttpError (Option Text)
opt_str name none = ok none
opt_str name (some null) = ok none
opt_str name (some (string s)) = ok (some (trim s))
opt_str name _ = bad_field name (codes " must be a string")

abbrev pub none_if_blank : Text → Option Text
none_if_blank [] = none
none_if_blank (c ∷ s) = some (c ∷ s)

abbrev pub opt_nullable_str : Text → Option Json → Result HttpError (Option (Option Text))
opt_nullable_str name none = ok none
opt_nullable_str name (some null) = ok (some none)
opt_nullable_str name (some (string s)) = ok (some (none_if_blank (trim s)))
opt_nullable_str name _ = bad_field name (codes " must be a string or null")

abbrev pub severity_of : Text → Option Severity
severity_of s =
    if same_text s (codes "low")
    then some low
    else if same_text s (codes "medium")
    then some medium
    else if same_text s (codes "high")
    then some high
    else none

abbrev pub bad_severity {ℓ} : {A : Type ℓ} → Result HttpError A
bad_severity = bad_field (codes "alert_min_severity") (codes " must be low|medium|high")

abbrev pub known_severity : Option Severity → Result HttpError (Option Severity)
known_severity none = bad_severity
known_severity (some s) = ok (some s)

abbrev pub opt_severity : Option Json → Result HttpError (Option Severity)
opt_severity none = ok none
opt_severity (some (string s)) = known_severity (severity_of s)
opt_severity _ = bad_severity

abbrev pub opt_bool : Text → Option Json → Result HttpError (Option Bool)
opt_bool name none = ok none
opt_bool name (some (boolean b)) = ok (some b)
opt_bool name _ = bad_field name (codes " must be a boolean")

abbrev pub or_empty : Option Text → Text
or_empty none = []
or_empty (some s) = s

abbrev pub filesystem : Text
filesystem = codes "filesystem"

abbrev pub or_filesystem : Option Text → Text
or_filesystem none = filesystem
or_filesystem (some s) = s

-- `partial ? optStr(field) ?? '' : reqStr(field)`
abbrev pub str_field : Bool → Text → Option Json → Result HttpError Text
str_field false name v = req_str name v
str_field true name v = do s ← opt_str name v; ok (or_empty s)

-- The fields behind the texts.
abbrev pub parse_options : Text → Text → Text → Text → Fields → Result HttpError ParsedBody
parse_options kind cron_expression name source_ref fs = do
  enabled ← opt_bool (codes "enabled") (get_field (codes "enabled") fs)
  notify_emails ← opt_nullable_str (codes "notify_emails") (get_field (codes "notify_emails") fs)
  webhook_url ← opt_nullable_str (codes "webhook_url") (get_field (codes "webhook_url") fs)
  webhook_secret ← opt_nullable_str (codes "webhook_secret") (get_field (codes "webhook_secret") fs)
  alert_min_severity ← opt_severity (get_field (codes "alert_min_severity") fs)
  ok (record {
    name = name;
    source_kind = kind;
    source_ref = source_ref;
    cron_expression = cron_expression;
    enabled = enabled;
    notify_emails = notify_emails;
    webhook_url = webhook_url;
    webhook_secret = webhook_secret;
    alert_min_severity = alert_min_severity;
  })

abbrev pub parse_fields : Bool → Fields → Result HttpError ParsedBody
parse_fields partial fs = do
  kind ← opt_str (codes "source_kind") (get_field (codes "source_kind") fs)
  require (same_text (or_filesystem kind) filesystem) (
      invalid_request_error (
        codes "unsupported source_kind: "
        ++ (or_filesystem kind ++ codes " (v1.9 only supports \"filesystem\")")))
  cron_expression ←
      str_field partial (codes "cron_expression") (get_field (codes "cron_expression") fs)
  name ← str_field partial (codes "name") (get_field (codes "name") fs)
  source_ref ← str_field partial (codes "source_ref") (get_field (codes "source_ref") fs)
  parse_options (or_filesystem kind) cron_expression name source_ref fs

unfoldable pub parse_body : Bool → Json → Result HttpError ParsedBody
parse_body partial raw = do
  fs ← or_throw (fields_of raw) (invalid_request_error (codes "body must be a JSON object"))
  parse_fields partial fs

abbrev pub cron_message : CronParseError → Text
cron_message (wrong_field_count n) = codes "cron expression must have 5 fields, got " ++ decimal n
cron_message (empty_field s) = codes "empty field: " ++ s
cron_message (invalid_step s) = codes "invalid step in field: " ++ s
cron_message (invalid_range s) = codes "invalid range in field: " ++ s
cron_message (out_of_range s) = codes "out-of-range value in field: " ++ s

abbrev pub next_or_thrown : Result CronParseError (Option Moment) → Result HttpError (Option Moment)
next_or_thrown (ok next) = ok next
next_or_thrown (err e) =
    err (invalid_request_error (codes "invalid cron_expression: " ++ cron_message e))

unfoldable pub compute_next_or_throw :
    (Text → Option ℕ) → Text → Moment → Result HttpError (Option Moment)
compute_next_or_throw to_number [] today = ok none
compute_next_or_throw to_number (c ∷ s) today = next_or_thrown (next_run to_number (c ∷ s) today)

abbrev pub to_ms : Option Moment → Option ℕ
to_ms none = none
to_ms (some m) = some (time m * 60000)

-- A string, where it is one.
abbrev pub strings : Option (Option Text) → Option Text
strings none = none
strings (some t) = t

abbrev pub satisfies : Option Role → Role → Bool
satisfies none minimum = false
satisfies (some have) minimum = role_satisfies have minimum

unfoldable pub has_scan_role : UserWithRoles → Role → Bool
has_scan_role user minimum =
    if user.user.is_org_admin then true else satisfies (user.roles Users.scan) minimum

abbrev pub is_admin_role : Option Role → Bool
is_admin_role (some Users.admin) = true
is_admin_role _ = false

unfoldable pub is_org_admin_or_scan_admin : UserWithRoles → Bool
is_org_admin_or_scan_admin user = user.user.is_org_admin || is_admin_role (user.roles Users.scan)

unfoldable pub fetch_owned :
    Text → UserWithRoles → List ScheduledScan → Result HttpError ScheduledScan
fetch_owned id user rows = do
  row ← or_throw (ScheduledScans.find_by_id id rows) (not_found_error (codes "scheduled scan"))
  require (is_org_admin_or_scan_admin user || same_text row.user_id user.user.id)
      (not_found_error (codes "scheduled scan"))
  ok row

-- The first two checks of each handler.
abbrev pub signed_in : Option UserWithRoles → Role → Text → Result HttpError UserWithRoles
signed_in user minimum message = do
  u ← or_throw user (authentication_error (codes "sign-in required"))
  require (has_scan_role u minimum) (permission_error message)
  ok u

-- The patch that the handler makes of a parsed body: `name` and `cronExpression` are never
-- undefined.
abbrev pub patch_of : ParsedBody → UpdateScheduledScan
patch_of body = record {
  name = some body.name;
  cron_expression = some body.cron_expression;
  enabled = body.enabled;
  notify_emails = body.notify_emails;
  webhook_url = body.webhook_url;
  webhook_secret = body.webhook_secret;
  alert_min_severity = body.alert_min_severity;
}

abbrev pub not_found :
    Result ScheduledScans.ScheduledScanError (ScheduledScan × List ScheduledScan)
    → Result Thrown (ScheduledScan × List ScheduledScan)
not_found (ok r) = ok r
not_found (err e) = err unknown

abbrev pub thrown {ℓ} : {A : Type ℓ} → Result HttpError A → Result Thrown A
thrown (ok a) = ok a
thrown (err e) = err (http e)

module _ (to_number : Text → Option ℕ) (today : Moment) (now : ℕ) where
  -- POST /v1/scan/scheduled
  unfoldable pub post_scan :
      Option UserWithRoles
      → Json
      → Text
      → List ScheduledScan
      → Result HttpError (ScheduledScan × List ScheduledScan)
  post_scan user raw id rows = do
    u ← signed_in user Users.operator (codes "scan operator role required")
    body ← parse_body false raw
    next ← compute_next_or_throw to_number body.cron_expression today
    ok (
        ScheduledScans.create
          (record {
            user_id = u.user.id;
            name = body.name;
            source_kind = body.source_kind;
            source_ref = body.source_ref;
            cron_expression = body.cron_expression;
            enabled = body.enabled;
            notify_emails = strings body.notify_emails;
            webhook_url = strings body.webhook_url;
            webhook_secret = strings body.webhook_secret;
            alert_min_severity = body.alert_min_severity;
            next_run_at = to_ms next;
          })
          id now rows)

  -- PATCH /v1/scan/scheduled/:id
  unfoldable pub patch_scan :
      Option UserWithRoles
      → Text
      → Json
      → List ScheduledScan
      → Result Thrown (ScheduledScan × List ScheduledScan)
  patch_scan user id raw rows = do
    u ← thrown (signed_in user Users.operator (codes "scan operator role required"))
    existing ← thrown (fetch_owned id u rows)
    body ← thrown (parse_body true raw)
    next ← thrown (compute_next_or_throw to_number body.cron_expression today)
    not_found (ScheduledScans.update_scan existing.id (patch_of body) now rows)

-- GET /v1/scan/scheduled
unfoldable pub list_scans :
    (List ScheduledScan → List ScheduledScan)
    → Option UserWithRoles
    → List ScheduledScan
    → Result HttpError (List ScheduledScan)
list_scans newest_first user rows = do
  u ← signed_in user Users.viewer (codes "scan viewer role required")
  ok (
      if is_org_admin_or_scan_admin u
      then newest_first rows
      else ScheduledScans.list_for_user newest_first u.user.id rows)

-- GET /v1/scan/scheduled/:id
unfoldable pub get_scan :
    Option UserWithRoles → Text → List ScheduledScan → Result HttpError ScheduledScan
get_scan user id rows = do
  u ← signed_in user Users.viewer (codes "scan viewer role required")
  fetch_owned id u rows

-- DELETE /v1/scan/scheduled/:id
unfoldable pub delete_scan :
    Option UserWithRoles → Text → List ScheduledScan → Result HttpError (List ScheduledScan)
delete_scan user id rows = do
  u ← signed_in user Users.operator (codes "scan operator role required")
  existing ← fetch_owned id u rows
  ok (ScheduledScans.delete existing.id rows)
