-- ===== src/Policy/Resolver.antt =====
-- apps/gateway/src/policy/resolver.ts, `PolicyResolver`, over the table vs_policies. A jsonb value
-- is its text; `policyConfigSchema.safeParse` (zod) and the driver's encoding of a policy are
-- parameters. The rows of the table are a list in the order in which the query gives them, which is
-- any, since it has no ORDER BY. A row's id and creation time, which nothing reads, are left out.
pub mod Laws
pub mod Saved
use vibe_shield.Prelude.{
  ℕ, suc, max, Bool, true, false, ◌&&◌, ◌||◌, List, [], ◌∷◌, ◌++◌, map, Option, none, some, Text,
  same_text, ltb, select, find?, includes, lookup, set, values, if◌then◌else◌,
}
use vibe_shield.Policy.Config.{PolicyConfig}
use vibe_shield.Policy.BuiltIn.{built_in_policies, default_policy}

pub record PolicyRow : Type 0 where
  pub name : Text
  pub version : ℕ
  pub json_config : Text

pub record ResolveContext : Type 0 where
  pub app_id : Text
  pub requested_policy : Option Text

pub record PolicyResolver : Type 0 where
  pub cache : List (Text × PolicyConfig)
  pub loaded : Bool

-- An entry of the map `byName`.
pub record Latest : Type 0 where
  pub version : ℕ
  pub config : PolicyConfig

-- `this.cache.set(p.name, p)` for each policy of a list.
abbrev pub cache_all : List PolicyConfig → List (Text × PolicyConfig) → List (Text × PolicyConfig)
cache_all [] cache = cache
cache_all (p ∷ ps) cache = cache_all ps (set p.name p cache)

-- The constructor.
unfoldable pub new_resolver : PolicyResolver
new_resolver = record { cache = cache_all built_in_policies []; loaded = false }

abbrev pub is_empty : List Text → Bool
is_empty [] = true
is_empty (a ∷ apps) = false

unfoldable pub app_allowed : PolicyConfig → Text → Bool
app_allowed policy app = is_empty policy.allowed_apps || includes app policy.allowed_apps

-- The test of the loop of `resolve`.
abbrev pub is_tied : Text → PolicyConfig → Bool
is_tied app policy = if is_empty policy.allowed_apps then false else app_allowed policy app

abbrev pub named_policy : Option Text → List (Text × PolicyConfig) → Option PolicyConfig
named_policy none cache = none
named_policy (some name) cache = lookup name cache

abbrev pub or_default_policy : Option PolicyConfig → PolicyConfig
or_default_policy none = default_policy
or_default_policy (some p) = p

unfoldable pub resolve_from : ResolveContext → List (Text × PolicyConfig) → PolicyConfig
resolve_from ctx cache =
    let by_app = or_default_policy (find? (is_tied ctx.app_id) (values cache)) in
    elim (named_policy ctx.requested_policy cache) [
      | none ↦ by_app
      | some named ↦ if app_allowed named ctx.app_id then named else by_app
    ]

abbrev pub max_version : List PolicyRow → ℕ
max_version [] = 0
max_version (r ∷ rows) = max r.version (max_version rows)

abbrev pub is_version_of : Text → PolicyRow → Bool
is_version_of name r = same_text r.name name

-- 1 where there is none, else one more than the greatest.
abbrev pub next_version : List PolicyRow → ℕ
next_version [] = 1
next_version (r ∷ rows) = suc (max_version (r ∷ rows))

module _ (safe_parse : Text → Option PolicyConfig) where
  -- One row of the loop that fills `byName`.
  unfoldable pub load_row : PolicyRow → List (Text × Latest) → List (Text × Latest)
  load_row row by_name = elim (safe_parse row.json_config) [
    | none ↦ by_name
    | some config ↦
        let latest : Latest = record { version = row.version; config = config } in
        elim (lookup row.name by_name) [
          | none ↦ set row.name latest by_name
          | some existing ↦
              if ltb existing.version row.version then set row.name latest by_name else by_name
        ]
  ]

  unfoldable pub load_rows : List PolicyRow → List (Text × Latest) → List (Text × Latest)
  load_rows [] by_name = by_name
  load_rows (r ∷ rows) by_name = load_rows rows (load_row r by_name)

  unfoldable pub ensure_loaded : List PolicyRow → PolicyResolver → PolicyResolver
  ensure_loaded rows r = if r.loaded then r else record {
    cache = cache_all (map (λ (l : Latest). l.config) (values (load_rows rows []))) r.cache;
    loaded = true;
  }

  unfoldable pub resolve :
      ResolveContext → List PolicyRow → PolicyResolver → PolicyConfig × PolicyResolver
  resolve ctx rows r = let r' = ensure_loaded rows r in (resolve_from ctx r'.cache, r')

-- The row goes behind the rows that are there.
unfoldable pub save :
    (PolicyConfig → Text)
    → PolicyConfig
    → List PolicyRow
    → PolicyResolver
    → List PolicyRow × PolicyResolver
save to_json config rows r = (
  rows
      ++ record {
        name = config.name;
        version = next_version (select (is_version_of config.name) rows);
        json_config = to_json config;
      }
        ∷ [],
  record r { cache = set config.name config r.cache },
)

abbrev pub list : PolicyResolver → List PolicyConfig
list r = values r.cache
