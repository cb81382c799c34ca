-- ===== src/Policy/Resolver/Laws.antt =====
-- Which policy a request gets.
use vibe_shield.Prelude.{
  ◌≡◌, refl, ◌⊎◌, inl, inr, true, false, Option, some, List, Text, any, find?, find?-passes,
  find?-none-any, values, lookup, Bool-cases, Option-cases, arith,
}
use vibe_shield.Policy.Config.{PolicyConfig}
use vibe_shield.Policy.BuiltIn.{default_policy}
use vibe_shield.Policy.Resolver.{
  PolicyRow, PolicyResolver, ResolveContext, app_allowed, is_tied, named_policy, or_default_policy,
  resolve_from, ensure_loaded, resolve, is_empty,
}

-- A policy allows the app, or it is the default and no policy of the map names the app.
abbrev pub IsFor : Text → List (Text × PolicyConfig) → PolicyConfig → Type 0
IsFor app cache p =
    (app_allowed p app ≡ true) ⊎ ((p ≡ default_policy) × (any (is_tied app) (values cache) ≡ false))

is_tied-app_allowed :
    (app : Text) (p : PolicyConfig) → is_tied app p ≡ true → app_allowed p app ≡ true
is_tied-app_allowed app p h = elim (Bool-cases (is_empty p.allowed_apps)) [
  | inl e ↦ absurd (ground arith)
  | inr e ↦ ground arith
]

by_app-IsFor :
    (app : Text) (cache : List (Text × PolicyConfig))
    → IsFor app cache (or_default_policy (find? (is_tied app) (values cache)))
by_app-IsFor app cache = elim (Option-cases (find? (is_tied app) (values cache))) [
  | inl e ↦ rw e (inr (refl, find?-none-any (is_tied app) (values cache) e))
  | inr (p, e) ↦
      rw e (inl (is_tied-app_allowed app p (find?-passes (is_tied app) (values cache) {x = p} e)))
]

resolve_from-IsFor :
    (ctx : ResolveContext) (cache : List (Text × PolicyConfig))
    → IsFor ctx.app_id cache (resolve_from ctx cache)
unfolding resolve_from
resolve_from-IsFor ctx cache = elim (Option-cases (named_policy ctx.requested_policy cache)) [
  | inl e ↦ rw (e, resolve_from) (by_app-IsFor ctx.app_id cache)
  | inr (p, e) ↦ elim (Bool-cases (app_allowed p ctx.app_id)) [
    | inl good ↦ rw (e, resolve_from) (rw good (inl good))
    | inr bad ↦ rw (e, resolve_from) (rw bad (by_app-IsFor ctx.app_id cache))
  ]
]

-- The policy that a request gets allows the request's app, or else it is the default policy and no
-- policy that was loaded names the app.
pub resolve-IsFor :
    (safe_parse : Text → Option PolicyConfig) (ctx : ResolveContext) (rows : List PolicyRow)
    (r : PolicyResolver)
    → let (p, r') = resolve safe_parse ctx rows r in IsFor ctx.app_id r'.cache p
unfolding resolve
resolve-IsFor safe_parse ctx rows r = resolve_from-IsFor ctx (ensure_loaded safe_parse rows r).cache

-- A requested policy that is known and allows the app is the one.
pub resolve_from-requested :
    (app name : Text) (cache : List (Text × PolicyConfig)) (p : PolicyConfig)
    → lookup name cache ≡ some p
    → app_allowed p app ≡ true
    → resolve_from (record { app_id = app; requested_policy = some name }) cache ≡ p
unfolding resolve_from
resolve_from-requested app name cache p e h = rw (e, resolve_from) (rw h refl)
