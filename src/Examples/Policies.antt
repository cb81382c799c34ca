-- ===== src/Examples/Policies.antt =====
-- Policies at concrete inputs: a column reads back as the one policy that is saved.
use mathlib.Core.List.{Permᴰ}
use vibe_shield.Prelude.{
  ◌∷◌, same_text, List, if◌then◌else◌, ◌≡◌, refl, [], Option, none, some, Text, codes, false, true,
}
use vibe_shield.Policy.Config.{PolicyConfig}
use vibe_shield.Policy.BuiltIn.{internal_only}
use vibe_shield.Policy.Resolver.{
  PolicyRow, ResolveContext, new_resolver, resolve, save, app_allowed,
}
use vibe_shield.Policy.Resolver.Laws.{IsFor, resolve-IsFor}
use vibe_shield.Policy.Resolver.Saved.{IsNamed, resolve-save}

abbrev loose : PolicyConfig
loose = record internal_only { name = codes "loose" }

abbrev reads_back : Text → Option PolicyConfig
reads_back t = some loose

abbrev trial : ResolveContext
trial = record { app_id = codes "trial-balance"; requested_policy = none }

resolve-IsFor_example :
    IsFor
      (codes "trial-balance")
      (resolve reads_back trial [] new_resolver).1.cache
      (resolve reads_back trial [] new_resolver).0
resolve-IsFor_example = resolve-IsFor reads_back trial [] new_resolver

abbrev wants_loose : ResolveContext
wants_loose = record { app_id = codes "converter"; requested_policy = some (codes "loose") }

loose_allowed : app_allowed loose (codes "converter") ≡ true
unfolding app_allowed
loose_allowed = refl

unloaded : new_resolver.loaded ≡ false
unfolding new_resolver
unloaded = refl

-- The table after the policy was saved, behind a row that does not parse.
abbrev stale : PolicyRow
stale = record { name = codes "stale"; version = 3; json_config = codes "?" }

abbrev reads_loose : Text → Option PolicyConfig
reads_loose t = if same_text t (codes "loose") then some loose else none

abbrev table : List PolicyRow
table = (save (λ c. codes "loose") loose (stale ∷ []) new_resolver).0

abbrev turned : List PolicyRow
turned = record { name = codes "loose"; version = 1; json_config = codes "loose" } ∷ stale ∷ []

loose_back : reads_loose (codes "loose") ≡ some loose
unfolding same_text
loose_back = refl

stale-IsNamed : IsNamed reads_loose stale
unfolding same_text
stale-IsNamed c e = absurd cc

turned-order : Permᴰ table turned
unfolding save same_text
turned-order = Permᴰ.swap refl refl

resolve-save_example :
    ((resolve reads_loose wants_loose turned
        (save (λ c. codes "loose") loose (stale ∷ []) new_resolver).1).0
      ≡ loose)
    × ((resolve reads_loose wants_loose turned new_resolver).0 ≡ loose)
resolve-save_example =
    resolve-save reads_loose (λ c. codes "loose") loose (stale ∷ []) turned new_resolver
      new_resolver (codes "converter") loose_back (stale-IsNamed, tt) unloaded loose_allowed
      turned-order
