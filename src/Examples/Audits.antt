-- ===== src/Examples/Audits.antt =====
-- The audit log at concrete inputs: a hash and an encoding are the text itself.
use vibe_shield.Prelude.{
  List, ℕ, ◌≡◌, refl, true, false, [], ◌∷◌, map, Option, none, Text, codes, same_text, select, All,
}
use vibe_shield.Proxy.Reidentify.{Json}
use vibe_shield.Vault.Audit.{
  compute_daily_digest, AuditRow, AuditEntry, append, is_earlier, is_on_day, order_by,
}
use vibe_shield.Vault.Audit.Canonical.{
  Value, null_value, boolean_value, object_value, member, no_members,
}
use vibe_shield.Vault.Audit.Digest.{IsSized, digested, compute_daily_digest_injective}
use vibe_shield.Vault.Audit.Reordered.{objects, swap, append-Reordered}

abbrev same : Text → Text
same t = t

abbrev row_at : ℕ → AuditRow
row_at time = record {
  id = codes "00000000-0000-0000-0000-000000000000";
  tenant_id = codes "firm";
  session_id = none;
  event_type = codes "proxy.request";
  area = codes "proxy";
  actor_type = codes "user";
  service_name = none;
  payload_hash = codes "hhhhhhhhhhhhhhhhhhhhhhhhhhhhhhhh";
  created_at = time;
}

one-IsSized : All (IsSized same) (order_by is_earlier (select (is_on_day 5) (row_at 1 ∷ [])))
unfolding order_by
one-IsSized = ((refl, refl), tt)

abbrev stored : Value
stored =
    object_value
      (member (codes "a") null_value (member (codes "b") (boolean_value true) no_members))

abbrev turned : Value
turned =
    object_value
      (member (codes "b") (boolean_value true) (member (codes "a") null_value no_members))

a_is_not_b : same_text (codes "a") (codes "b") ≡ false
unfolding same_text
a_is_not_b = refl

abbrev entry_of : Value → AuditEntry
entry_of payload = record {
  tenant_id = codes "firm";
  session_id = none;
  event_type = codes "proxy.request";
  area = codes "proxy";
  actor_type = none;
  service_name = none;
  payload = payload;
}

abbrev shown_as : Option Json → Text
shown_as v = codes "{}"

append-Reordered_example :
    append same same shown_as (codes "r1") 10 (entry_of stored) []
    ≡ append same same shown_as (codes "r1") 10 (entry_of turned) []
append-Reordered_example =
    append-Reordered same same shown_as (codes "r1") 10 (entry_of stored) [] turned
      (objects (swap (codes "a") (codes "b") null_value (boolean_value true) no_members a_is_not_b))

-- One row of the day, and a table that has a row of another day behind it and another tenant.
abbrev other_table : List AuditRow
other_table = record (row_at 1) { tenant_id = codes "other" } ∷ row_at 86400000 ∷ []

other-IsSized : All (IsSized same) (order_by is_earlier (select (is_on_day 5) other_table))
unfolding order_by
other-IsSized = ((refl, refl), tt)

one_digest :
    compute_daily_digest same same 5 (row_at 1 ∷ []) ≡ compute_daily_digest same same 5 other_table
unfolding compute_daily_digest order_by
one_digest = refl

compute_daily_digest_injective_example :
    map (digested same) (order_by is_earlier (select (is_on_day 5) (row_at 1 ∷ [])))
    ≡ map (digested same) (order_by is_earlier (select (is_on_day 5) other_table))
compute_daily_digest_injective_example =
    compute_daily_digest_injective same same 5 (row_at 1 ∷ []) other_table (λ a b e. e) one-IsSized
      other-IsSized one_digest
