-- ===== src/Vault/Audit/Canonical.antt =====
-- `canonicalize` of packages/schema/src/vault/audit-logger.ts. A value is a tree, so that no cycle
-- is met; the keys of an object are told apart and are not array indices, which an object would list
-- first.
use vibe_shield.Prelude.{
  ℕ, Bool, ◌++◌, Option, none, some, Text, codes, decimal, before, if◌then◌else◌,
}
use vibe_shield.Proxy.Reidentify.{
  Json, null, boolean, number, string, array, object, Items, end, item, Fields, close, field,
}

mutual
  pub data Value : Type 0 where
    undefined null_value : Value
    boolean_value : Bool → Value
    number_value bigint : ℕ → Value
    string_value : Text → Value
    array_value : Values → Value
    object_value : Members → Value

  pub data Values : Type 0 where
    no_values : Values
    value : Value → Values → Values

  pub data Members : Type 0 where
    no_members : Members
    member : Text → Value → Members → Members

-- The place of a key among sorted keys.
abbrev pub insert_field : Text → Json → Fields → Fields
insert_field k v close = field k v close
insert_field k v (field j w fs) =
    let rest = insert_field k v fs in
    if before j k then field j w rest else field k v (field j w fs)

-- A member that is `undefined` is left out.
abbrev pub insert_member : Text → Option Json → Fields → Fields
insert_member k none fs = fs
insert_member k (some v) fs = insert_field k v fs

abbrev pub or_null : Option Json → Json
or_null none = null
or_null (some v) = v

-- `none` stands for `undefined`.
unfoldable mutual
  pub canonicalize : Value → Option Json
  canonicalize undefined = none
  canonicalize null_value = some null
  canonicalize (boolean_value b) = some (boolean b)
  canonicalize (number_value n) = some (number n)
  canonicalize (bigint n) = some (string (decimal n ++ codes "n"))
  canonicalize (string_value s) = some (string s)
  canonicalize (array_value vs) = some (array (canonicalize_items vs))
  canonicalize (object_value ms) = some (object (canonicalize_fields ms))

  pub canonicalize_items : Values → Items
  canonicalize_items no_values = end
  canonicalize_items (value v vs) = item (or_null (canonicalize v)) (canonicalize_items vs)

  pub canonicalize_fields : Members → Fields
  canonicalize_fields no_members = close
  canonicalize_fields (member k v ms) = insert_member k (canonicalize v) (canonicalize_fields ms)
