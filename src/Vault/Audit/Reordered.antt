-- ===== src/Vault/Audit/Reordered.antt =====
-- The hash of an audit payload does not depend on the order in which its objects were built.
use vibe_shield.Prelude.{
  ℕ, ◌≡◌, refl, sym, ap, ap₂, ◌∙◌, inl, inr, true, false, List, Option, none, some, Text, same_text,
  before, before_asym, before_trans, before_total, Bool-cases,
}
use vibe_shield.Proxy.Reidentify.{Json, array, object, item, Fields, close, field}
use vibe_shield.Vault.Audit.{AuditRow, AuditEntry, append}
use vibe_shield.Vault.Audit.Canonical.{
  Value, array_value, object_value, Values, no_values, value, Members, no_members, member,
  insert_field, insert_member, or_null, canonicalize, canonicalize_items, canonicalize_fields,
}

-- Two values that differ in the order of the members of objects, at any depth.
mutual
  pub data Reordered : Value → Value → Type 0 where
    same : (v : Value) → Reordered v v
    arrays : {vs ws : Values} → ReorderedValues vs ws → Reordered (array_value vs) (array_value ws)
    objects :
        {ms ns : Members} → ReorderedMembers ms ns → Reordered (object_value ms) (object_value ns)

  pub data ReorderedValues : Values → Values → Type 0 where
    empty : ReorderedValues no_values no_values
    both :
        {v w : Value} {vs ws : Values}
        → Reordered v w
        → ReorderedValues vs ws
        → ReorderedValues (value v vs) (value w ws)

  pub data ReorderedMembers : Members → Members → Type 0 where
    done : ReorderedMembers no_members no_members
    keep :
        (k : Text) {v w : Value} {ms ns : Members}
        → Reordered v w
        → ReorderedMembers ms ns
        → ReorderedMembers (member k v ms) (member k w ns)
    swap :
        (k j : Text) (v w : Value) (ms : Members)
        → same_text k j ≡ false
        → ReorderedMembers (member k v (member j w ms)) (member j w (member k v ms))
    chain :
        {ms ns os : Members}
        → ReorderedMembers ms ns
        → ReorderedMembers ns os
        → ReorderedMembers ms os

insert_field_head :
    (k j : Text) (v w : Json) (fs : Fields)
    → before j k ≡ true
    → insert_field k v (field j w fs) ≡ field j w (insert_field k v fs)
insert_field_head k j v w fs h = rw h refl

insert_field_stop :
    (k j : Text) (v w : Json) (fs : Fields)
    → before j k ≡ false
    → insert_field k v (field j w fs) ≡ field k v (field j w fs)
insert_field_stop k j v w fs h = rw h refl

-- Two keys may be put in their places in either order, the smaller first.
insert_insert :
    (k j : Text) (v w : Json) (fs : Fields)
    → before k j ≡ true
    → insert_field k v (insert_field j w fs) ≡ insert_field j w (insert_field k v fs)
insert_insert k j v w close lt = rw (lt, before_asym k j lt) refl
insert_insert k j v w (field h x fs) lt = elim (Bool-cases (before h j)) [
  | inl hj ↦ elim (Bool-cases (before h k)) [
    | inl hk ↦ rw (hj, hk) (rw hj (ap (field h x) (insert_insert k j v w fs lt)))
    | inr hk ↦ rw (hj, hk) (rw lt (rw hj refl))
  ]
  | inr hj ↦ elim (Bool-cases (before h k)) [
    | inl hk ↦ let hj' = before_trans h k j hk lt in absurd (cc (hj, hj'))
    | inr hk ↦ rw (hj, hk) (rw (lt, before_asym k j lt) (rw hj refl))
  ]
]

insert_member_swap :
    (k j : Text) (v w : Option Json) (fs : Fields)
    → same_text k j ≡ false
    → insert_member k v (insert_member j w fs) ≡ insert_member j w (insert_member k v fs)
insert_member_swap k j none none fs d = refl
insert_member_swap k j none (some w) fs d = refl
insert_member_swap k j (some v) none fs d = refl
insert_member_swap k j (some v) (some w) fs d = elim (Bool-cases (before k j)) [
  | inl lt ↦ insert_insert k j v w fs lt
  | inr ge ↦ sym (insert_insert j k w v fs (before_total k j d ge))
]

mutual
  unfolding canonicalize canonicalize_items canonicalize_fields

  -- Values that differ only in the order of members have one canonical form.
  pub canonicalize-Reordered : {v w : Value} → Reordered v w → canonicalize v ≡ canonicalize w
  canonicalize-Reordered (same v) = refl
  canonicalize-Reordered (arrays r) = ap (λ x. some (array x)) (canonicalize_items-Reordered r)
  canonicalize-Reordered (objects r) = ap (λ x. some (object x)) (canonicalize_fields-Reordered r)

  pub canonicalize_items-Reordered :
      {vs ws : Values} → ReorderedValues vs ws → canonicalize_items vs ≡ canonicalize_items ws
  canonicalize_items-Reordered empty = refl
  canonicalize_items-Reordered (both r rs) =
      ap₂ (λ x y. item (or_null x) y) (canonicalize-Reordered r) (canonicalize_items-Reordered rs)

  pub canonicalize_fields-Reordered :
      {ms ns : Members} → ReorderedMembers ms ns → canonicalize_fields ms ≡ canonicalize_fields ns
  canonicalize_fields-Reordered done = refl
  canonicalize_fields-Reordered (keep k r rs) =
      ap₂ (insert_member k) (canonicalize-Reordered r) (canonicalize_fields-Reordered rs)
  canonicalize_fields-Reordered (swap k j v w ms d) =
      insert_member_swap k j (canonicalize v) (canonicalize w) (canonicalize_fields ms) d
  canonicalize_fields-Reordered (chain r s) =
      canonicalize_fields-Reordered r ∙ canonicalize_fields-Reordered s

-- The row that is appended does not depend on the order in which the objects of its payload were
-- built, at any depth.
pub append-Reordered :
    (sha256 encode : Text → Text) (stringify : Option Json → Text) (id : Text) (now : ℕ)
    (entry : AuditEntry) (rows : List AuditRow) (payload : Value)
    → Reordered entry.payload payload
    → append sha256 encode stringify id now entry rows
      ≡ append sha256 encode stringify id now (record entry { payload = payload }) rows
unfolding append
append-Reordered sha256 encode stringify id now entry rows payload r =
    rw (canonicalize-Reordered r) refl
