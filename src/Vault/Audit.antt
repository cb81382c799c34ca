-- ===== src/Vault/Audit.antt =====
-- packages/schema/src/vault/audit-logger.ts, `AuditLogger`, and its table
-- (packages/schema/src/schema/audit.ts). SHA-256, the encoding of text, `JSON.stringify`, the
-- generated id and the clock are arguments; a time is in milliseconds since 1970, of days of
-- 86400000. A query without an ORDER BY gives the rows in the order of the table.
pub mod Canonical
pub mod Reordered
pub mod Digest
pub mod Recent
use vibe_shield.Prelude.{
  ℕ, ◌+◌, ◌*◌, ◌/◌, min, max, Bool, true, false, ◌&&◌, ◌||◌, List, [], ◌∷◌, ◌++◌, map, Option, none,
  some, Text, codes, same_text, ltb, leb, ◌==◌, length, take, select, if◌then◌else◌, before,
}
use vibe_shield.Vault.Audit.Canonical.{Value, canonicalize}
use vibe_shield.Proxy.Reidentify.{Json}

pub record AuditRow : Type 0 where
  pub id : Text
  pub tenant_id : Text
  pub session_id : Option Text
  pub event_type : Text
  pub area : Text
  pub actor_type : Text
  pub service_name : Option Text
  pub payload_hash : Text
  pub created_at : ℕ

pub record AuditEntry : Type 0 where
  pub tenant_id : Text
  pub session_id : Option Text
  pub event_type : Text
  pub area : Text
  pub actor_type : Option Text
  pub service_name : Option Text
  pub payload : Value

-- A row as the admin sees it; the times and hashes are formatted from these.
pub record AuditView : Type 0 where
  pub id : Text
  pub tenant_id : Text
  pub session_id : Option Text
  pub event_type : Text
  pub payload_hash : Text
  pub created_at : ℕ

abbrev pub or_user : Option Text → Text
or_user none = codes "user"
or_user (some t) = t

abbrev pub day_ms : ℕ
day_ms = 86400000

abbrev pub start_of_day_utc : ℕ → ℕ
start_of_day_utc date = date / day_ms * day_ms

-- ORDER BY created_at, id
abbrev pub is_earlier : AuditRow → AuditRow → Bool
is_earlier r s = ltb r.created_at s.created_at || (r.created_at == s.created_at && before r.id s.id)

abbrev pub insert_by : (AuditRow → AuditRow → Bool) → AuditRow → List AuditRow → List AuditRow
insert_by less r [] = r ∷ []
insert_by less r (s ∷ rows) = if less s r then s ∷ insert_by less r rows else r ∷ s ∷ rows

unfoldable pub order_by : (AuditRow → AuditRow → Bool) → List AuditRow → List AuditRow
order_by less [] = []
order_by less (r ∷ rows) = insert_by less r (order_by less rows)

-- What `h.update` takes, row by row.
abbrev pub digest_input : (Text → Text) → List AuditRow → Text
digest_input encode [] = []
digest_input encode (r ∷ rows) = r.payload_hash ++ (encode r.id ++ digest_input encode rows)

abbrev pub is_on_day : ℕ → AuditRow → Bool
is_on_day date r =
    leb (start_of_day_utc date) r.created_at && ltb r.created_at (start_of_day_utc date + day_ms)

abbrev pub is_counted : Text → Option Text → AuditRow → Bool
is_counted tenant none r = same_text r.tenant_id tenant
is_counted tenant (some event) r = same_text r.tenant_id tenant && same_text r.event_type event

unfoldable pub count_for_tenant : Text → Option Text → List AuditRow → ℕ
count_for_tenant tenant event rows = length (select (is_counted tenant event) rows)

abbrev pub or_hundred : Option ℕ → ℕ
or_hundred none = 100
or_hundred (some n) = n

-- `Math.min(Math.max(opts.limit ?? 100, 1), 500)`
abbrev pub clamp : Option ℕ → ℕ
clamp limit = min (max (or_hundred limit) 1) 500

abbrev pub view : AuditRow → AuditView
view r = record {
  id = r.id;
  tenant_id = r.tenant_id;
  session_id = r.session_id;
  event_type = r.event_type;
  payload_hash = r.payload_hash;
  created_at = r.created_at;
}

abbrev pub reverse_onto {ℓ} : {A : Type ℓ} → List A → List A → List A
reverse_onto [] ys = ys
reverse_onto (x ∷ xs) ys = reverse_onto xs (x ∷ ys)

abbrev pub of_tenant : Option Text → List AuditRow → List AuditRow
of_tenant none rows = rows
of_tenant (some tenant) rows = select (λ r. same_text r.tenant_id tenant) rows

-- ORDER BY created_at
abbrev pub is_older : AuditRow → AuditRow → Bool
is_older r s = ltb r.created_at s.created_at

unfoldable pub list_recent : Option Text → Option ℕ → List AuditRow → List AuditView
list_recent tenant limit rows =
    map view (reverse_onto (take (clamp limit) (order_by is_older (of_tenant tenant rows))) [])

module _ (sha256 encode : Text → Text) where
  unfoldable pub append :
      (Option Json → Text) → Text → ℕ → AuditEntry → List AuditRow → List AuditRow
  append stringify id now entry rows =
      rows
      ++ record {
        id = id;
        tenant_id = entry.tenant_id;
        session_id = entry.session_id;
        event_type = entry.event_type;
        area = entry.area;
        actor_type = or_user entry.actor_type;
        service_name = entry.service_name;
        payload_hash = sha256 (encode (stringify (canonicalize entry.payload)));
        created_at = now;
      }
        ∷ []

  unfoldable pub compute_daily_digest : ℕ → List AuditRow → Text
  compute_daily_digest date rows =
      sha256 (digest_input encode (order_by is_earlier (select (is_on_day date) rows)))
