-- ===== src/Policy/Resolver/Saved.antt =====
-- A saved policy: its version is new, and it is what the name stands for from then on, in the
-- process that saved it and in one that loads the table later.
use mathlib.Core.List.{Permᴰ}
use mathlib.Core.List.Permᴰ.{nil, cons, swap, trans}
use vibe_shield.Prelude.{
  ap₂, ℕ, ◌<◌, max, ◌≡◌, refl, sym, ap, subst, subst₂, ◌∙◌, ◌⊎◌, inl, inr, true, false, Option,
  some, List, [], ◌∷◌, ◌++◌, map, Text, same_text, same_text_iff, same_text_refl, ltb, any, select,
  All, All-append, All-map, All-update_to, All-set, lookup, set, values, has_key, lookup-set,
  lookup-set_other, Bool-cases, Option-cases, arith, if◌then◌else◌,
}
use vibe_shield.Policy.Config.{PolicyConfig}
use vibe_shield.Policy.Resolver.{
  PolicyRow, PolicyResolver, ResolveContext, Latest, app_allowed, cache_all, load_row, load_rows,
  ensure_loaded, resolve, save, next_version, max_version, is_version_of,
}
use vibe_shield.Policy.Resolver.Laws.{resolve_from-requested}

-- The version of a row is below a bound, where the row is of the name.
abbrev pub IsBelow : Text → ℕ → PolicyRow → Type 0
IsBelow name n r = is_version_of name r ≡ true → r.version < n

max_version-IsBelow :
    (name : Text) (rows : List PolicyRow) (n : ℕ)
    → max_version (select (is_version_of name) rows) < n
    → All (IsBelow name n) rows
max_version-IsBelow name [] n h = tt
max_version-IsBelow name (r ∷ rows) n h = elim (Bool-cases (same_text r.name name)) [
  | inl hit ↦
      let bound : max r.version (max_version (select (is_version_of name) rows)) < n =
        subst
          (λ b.
            max_version
              (if b then r ∷ select (is_version_of name) rows else select (is_version_of name) rows)
            < n)
          hit h in
      (λ q. omega arith, max_version-IsBelow name rows n (omega arith))
  | inr miss ↦
      let bound : max_version (select (is_version_of name) rows) < n =
        subst
          (λ b.
            max_version
              (if b then r ∷ select (is_version_of name) rows else select (is_version_of name) rows)
            < n)
          miss h in
      (λ q. absurd (cc), max_version-IsBelow name rows n bound)
]

max_version-next_version : (rows : List PolicyRow) → max_version rows < next_version rows
max_version-next_version [] = omega arith
max_version-next_version (r ∷ rows) = omega arith

-- The version that `save` writes is above every version of the name, so that it violates no
-- uniqueness of name and version.
pub next_version-IsBelow :
    (name : Text) (rows : List PolicyRow)
    → All (IsBelow name (next_version (select (is_version_of name) rows))) rows
next_version-IsBelow name rows =
    max_version-IsBelow name rows _ (max_version-next_version (select (is_version_of name) rows))

lookup-All :
    (P : Text × Latest → Type 0) (k : Text) (m : List (Text × Latest)) {l : Latest}
    → All P m
    → lookup k m ≡ some l
    → P (k, l)
lookup-All P k [] h e = absurd cc
lookup-All P k ((j, a) ∷ m) {l} (h, hs) e = elim (Bool-cases (same_text j k)) [
  | inl hit ↦
      let key : j ≡ k = (same_text_iff j k).0 hit in
      let same : a ≡ l = ground arith in subst₂ (λ x y. P (x, y)) key same h
  | inr miss ↦ lookup-All P k m hs (ground arith)
]

module _ (safe_parse : Text → Option PolicyConfig) where
  -- What is stored under a name says that name.
  abbrev pub IsNamed : PolicyRow → Type 0
  IsNamed row = (c : PolicyConfig) → safe_parse row.json_config ≡ some c → c.name ≡ row.name

  -- An entry of `byName` says its name, and its version is below the bound if it is of the name.
  abbrev IsEntry : Text → ℕ → Text × Latest → Type 0
  IsEntry name n (k, l) = (l.config.name ≡ k) × (same_text k name ≡ true → l.version < n)

  load_row-IsEntry :
      (name : Text) (n : ℕ) (r : PolicyRow) (m : List (Text × Latest))
      → IsNamed r
      → IsBelow name n r
      → All (IsEntry name n) m
      → All (IsEntry name n) (load_row safe_parse r m)
  unfolding load_row
  load_row-IsEntry name n r m named below h = elim (Option-cases (safe_parse r.json_config)) [
    | inl e ↦ rw (e, load_row) h
    | inr (c, e) ↦
        let latest : Latest = record { version = r.version; config = c } in
        let new : All (IsEntry name n) (set r.name latest m) =
          All-set (IsEntry name n) r.name latest m
            (λ j q. (named c e ∙ sym q, λ s. below (rw (← q) s))) h in
        rw (e, load_row)
          (elim (Option-cases (lookup r.name m)) [
            | inl f ↦ rw f new
            | inr (x, f) ↦ rw f (elim (Bool-cases (ltb x.version r.version)) [
              | inl newer ↦ rw newer new
              | inr older ↦ rw older h
            ])
          ])
  ]

  load_rows-IsEntry :
      (name : Text) (n : ℕ) (rows : List PolicyRow) (m : List (Text × Latest))
      → All IsNamed rows
      → All (IsBelow name n) rows
      → All (IsEntry name n) m
      → All (IsEntry name n) (load_rows safe_parse rows m)
  unfolding load_rows
  load_rows-IsEntry name n [] m named below h = h
  load_rows-IsEntry name n (r ∷ rows) m (q, named) (b, below) h =
      load_rows-IsEntry name n rows (load_row safe_parse r m) named below
        (load_row-IsEntry name n r m q b h)

  -- The newest row of a name replaces what was there.
  load_row-newest :
      (n : ℕ) (r : PolicyRow) (c : PolicyConfig) (m : List (Text × Latest))
      → safe_parse r.json_config ≡ some c
      → All (IsEntry r.name r.version) m
      → load_row safe_parse r m ≡ set r.name (record { version = r.version; config = c }) m
  unfolding load_row
  load_row-newest n r c m e h =
      rw (e, load_row)
        (elim (Option-cases (lookup r.name m)) [
          | inl f ↦ rw f refl
          | inr (x, f) ↦
              let below =
                (lookup-All (IsEntry r.name r.version) r.name m h f).1 (same_text_refl r.name) in
              let newer : ltb x.version r.version ≡ true = ground (arith, below) in
              rw f (rw newer refl)
        ])

-- The last of the policies of a name is the one that is cached; here they all are one.
cache_all-lookup :
    (name : Text) (c : PolicyConfig) (ps : List PolicyConfig) (cache : List (Text × PolicyConfig))
    → All (λ p. same_text p.name name ≡ true → p ≡ c) ps
    → (lookup name cache ≡ some c) ⊎ (any (λ p. same_text p.name name) ps ≡ true)
    → lookup name (cache_all ps cache) ≡ some c
cache_all-lookup name c [] cache h (inl e) = e
cache_all-lookup name c [] cache h (inr e) = absurd cc
cache_all-lookup name c (p ∷ ps) cache (h, hs) w = elim (Bool-cases (same_text p.name name)) [
  | inl hit ↦
      let key : p.name ≡ name = (same_text_iff p.name name).0 hit in
      let new : lookup name (set p.name p cache) ≡ some c =
        subst (λ k. lookup k (set p.name p cache) ≡ some c) key
          (lookup-set p.name p cache ∙ ap some (h hit)) in
      cache_all-lookup name c ps (set p.name p cache) hs (inl new)
  | inr miss ↦
      let old = lookup-set_other name p.name p cache miss in
      cache_all-lookup name c ps (set p.name p cache) hs
        (elim w [ inl e ↦ inl (old ∙ e) | inr e ↦ inr (ground arith) ])
]

set-only :
    (name : Text) (l : Latest) (m : List (Text × Latest))
    → All (λ e. same_text e.0 name ≡ true → e.1 ≡ l) (set name l m)
set-only name l m = elim (Bool-cases (any (has_key name) m)) [
  | inl there ↦ rw there (
      All-update_to (λ (e : Text × Latest). Unit {0}) (λ e. same_text e.0 name ≡ true → e.1 ≡ l)
        (has_key name) (λ e. (e.0, l)) m (λ e u q s. refl) (λ e u q s. absurd cc) (all_unit m))
  | inr new ↦ rw new (
      All-append (λ e. same_text e.0 name ≡ true → e.1 ≡ l) m ((name, l) ∷ []) (absent m new)
        (λ s. refl, tt))
]
  where
    all_unit : (n : List (Text × Latest)) → All (λ e. Unit {0}) n
    all_unit [] = tt
    all_unit (e ∷ n) = (tt, all_unit n)

    absent :
        (n : List (Text × Latest))
        → any (has_key name) n ≡ false
        → All (λ e. same_text e.0 name ≡ true → e.1 ≡ l) n
    absent [] h = tt
    absent (e ∷ n) h = elim (Bool-cases (same_text e.0 name)) [
      | inl hit ↦ absurd (ground arith)
      | inr miss ↦ (λ s. absurd cc, absent n (ground arith))
    ]

configs : List (Text × Latest) → List PolicyConfig
configs m = map (λ (l : Latest). l.config) (values m)

All-configs :
    (name : Text) (c : PolicyConfig) (m : List (Text × Latest))
    → All (λ e. e.1.config.name ≡ e.0) m
    → All (λ e. same_text e.0 name ≡ true → e.1.config ≡ c) m
    → All (λ p. same_text p.name name ≡ true → p ≡ c) (configs m)
unfolding configs
All-configs name c [] named only = tt
All-configs name c ((k, l) ∷ m) (n, named) (o, only) =
    (λ s. o (rw (← n) s), All-configs name c m named only)

any-configs :
    (name : Text) (l : Latest) (m : List (Text × Latest))
    → All (λ e. e.1.config.name ≡ e.0) m
    → lookup name m ≡ some l
    → any (λ p. same_text p.name name) (configs m) ≡ true
unfolding configs
any-configs name l [] named e = absurd cc
any-configs name l ((k, x) ∷ m) (n, named) e = elim (Bool-cases (same_text k name)) [
  | inl hit ↦ rw n (rw hit refl)
  | inr miss ↦ rw n (rw miss (any-configs name l m named (ground arith)))
]

-- One row that is `P`, among others that are `Q`.
abbrev IsAmong : (PolicyRow → Type 0) → (PolicyRow → Type 0) → List PolicyRow → Type 0
IsAmong P Q [] = ⊥
IsAmong P Q (r ∷ rows) = (P r × All Q rows) ⊎ (Q r × IsAmong P Q rows)

All-Permᴰ : (Q : PolicyRow → Type 0) {xs ys : List PolicyRow} → Permᴰ xs ys → All Q xs → All Q ys
All-Permᴰ Q nil h = tt
All-Permᴰ Q (cons e p) (h, hs) = (subst Q e h, All-Permᴰ Q p hs)
All-Permᴰ Q (swap e f) (h, (k, hs)) = (subst Q f k, (subst Q e h, hs))
All-Permᴰ Q (trans p q) h = All-Permᴰ Q q (All-Permᴰ Q p h)

IsAmong-Permᴰ :
    (P Q : PolicyRow → Type 0) {xs ys : List PolicyRow}
    → Permᴰ xs ys
    → IsAmong P Q xs
    → IsAmong P Q ys
IsAmong-Permᴰ P Q nil h = h
IsAmong-Permᴰ P Q (cons e p) (inl (h, hs)) = inl (subst P e h, All-Permᴰ Q p hs)
IsAmong-Permᴰ P Q (cons e p) (inr (h, hs)) = inr (subst Q e h, IsAmong-Permᴰ P Q p hs)
IsAmong-Permᴰ P Q (swap e f) (inl (h, (k, hs))) = inr (subst Q f k, inl (subst P e h, hs))
IsAmong-Permᴰ P Q (swap e f) (inr (h, inl (k, hs))) = inl (subst P f k, (subst Q e h, hs))
IsAmong-Permᴰ P Q (swap e f) (inr (h, inr (k, hs))) = inr (subst Q f k, inr (subst Q e h, hs))
IsAmong-Permᴰ P Q (trans p q) h = IsAmong-Permᴰ P Q q (IsAmong-Permᴰ P Q p h)

IsAmong-last :
    (P Q : PolicyRow → Type 0) (xs : List PolicyRow) (r : PolicyRow)
    → All Q xs
    → P r
    → IsAmong P Q (xs ++ r ∷ [])
IsAmong-last P Q [] r h k = inl (k, tt)
IsAmong-last P Q (x ∷ xs) r (h, hs) k = inr (h, IsAmong-last P Q xs r hs k)

All-both :
    (P Q : PolicyRow → Type 0) (rows : List PolicyRow)
    → All P rows
    → All Q rows
    → All (λ r. P r × Q r) rows
All-both P Q [] h k = tt
All-both P Q (r ∷ rows) (h, hs) (k, ks) = ((h, k), All-both P Q rows hs ks)

module _ (safe_parse : Text → Option PolicyConfig) (name : Text) (newest : Latest) where
  -- The newest policy of the name is what stands under it.
  record IsSettled (m : List (Text × Latest)) : Type 0 where
    pub found : lookup name m ≡ some newest
    pub named : All (λ e. e.1.config.name ≡ e.0) m
    pub only : All (λ e. same_text e.0 name ≡ true → e.1 ≡ newest) m

  -- A row of before: it says its name, and its version is below the newest's.
  abbrev IsOld : PolicyRow → Type 0
  IsOld r = IsNamed safe_parse r × IsBelow name newest.version r

  set-IsSettled :
      (r : PolicyRow) (c : PolicyConfig) (m : List (Text × Latest))
      → same_text r.name name ≡ false
      → c.name ≡ r.name
      → IsSettled m
      → IsSettled (set r.name (record { version = r.version; config = c }) m)
  set-IsSettled r c m other said h = record {
    found = lookup-set_other name r.name _ m other ∙ h.found;
    named = All-set (λ e. e.1.config.name ≡ e.0) r.name _ m (λ j q. said ∙ sym q) h.named;
    only =
        All-set (λ e. same_text e.0 name ≡ true → e.1 ≡ newest) r.name _ m
          (λ j q s. (let there : same_text r.name name ≡ true = rw (← q) s in absurd cc)) h.only;
  }

  load_row-IsSettled :
      (r : PolicyRow) (m : List (Text × Latest))
      → IsOld r
      → IsSettled m
      → IsSettled (load_row safe_parse r m)
  unfolding load_row
  load_row-IsSettled r m (named, below) h = elim (Option-cases (safe_parse r.json_config)) [
    | inl e ↦ rw (e, load_row) h
    | inr (c, e) ↦
        rw (e, load_row)
          (elim (Bool-cases (same_text r.name name)) [
            | inl hit ↦
                let key : r.name ≡ name = (same_text_iff r.name name).0 hit in
                let there : lookup r.name m ≡ some newest = rw key h.found in
                let older : ltb newest.version r.version ≡ false = ground (arith, below hit) in
                rw there (rw older h)
            | inr miss ↦
                let new = set-IsSettled r c m miss (named c e) h in
                elim (Option-cases (lookup r.name m)) [
                  | inl f ↦ rw f new
                  | inr (x, f) ↦ rw f (elim (Bool-cases (ltb x.version r.version)) [
                    | inl newer ↦ rw newer new
                    | inr older ↦ rw older h
                  ])
                ]
          ])
  ]

  load_rows-IsSettled :
      (rows : List PolicyRow) (m : List (Text × Latest))
      → All IsOld rows
      → IsSettled m
      → IsSettled (load_rows safe_parse rows m)
  unfolding load_rows
  load_rows-IsSettled [] m hs h = h
  load_rows-IsSettled (r ∷ rows) m (o, hs) h =
      load_rows-IsSettled rows (load_row safe_parse r m) hs (load_row-IsSettled r m o h)

  module _ (saved : PolicyRow) (is_name : saved.name ≡ name)
      (is_version : saved.version ≡ newest.version)
      (stored : safe_parse saved.json_config ≡ some newest.config)
      (says : newest.config.name ≡ name) where
    saved-IsSettled :
        (m : List (Text × Latest))
        → All (IsEntry safe_parse name newest.version) m
        → IsSettled (load_row safe_parse saved m)
    saved-IsSettled m h =
        subst IsSettled
          (sym (
            load_row-newest safe_parse saved.version saved newest.config m stored
              (subst₂ (λ k n. All (IsEntry safe_parse k n) m) (sym is_name) (sym is_version) h)
            ∙ ap₂ (λ k n. set k (record { version = n; config = newest.config }) m) is_name
                is_version))
          (record {
            found = lookup-set name newest m;
            named =
                All-set (λ e. e.1.config.name ≡ e.0) name newest m (λ j q. says ∙ sym q)
                  (All-map (IsEntry safe_parse name newest.version) (λ e. e.1.config.name ≡ e.0) m
                    (λ e k. k.0) h);
            only = set-only name newest m;
          })

    -- Whatever the order in which the rows are read.
    load_rows-saved :
        (rows : List PolicyRow) (m : List (Text × Latest))
        → IsAmong (λ r. r ≡ saved) IsOld rows
        → All (IsEntry safe_parse name newest.version) m
        → IsSettled (load_rows safe_parse rows m)
    unfolding load_rows
    load_rows-saved [] m none_of h = elim none_of [ ]
    load_rows-saved (r ∷ rows) m (inl (same, old)) h =
        load_rows-IsSettled rows (load_row safe_parse r m) old
          (subst (λ x. IsSettled (load_row safe_parse x m)) (sym same) (saved-IsSettled m h))
    load_rows-saved (r ∷ rows) m (inr ((named, below), among)) h =
        load_rows-saved rows (load_row safe_parse r m) among
          (load_row-IsEntry safe_parse name newest.version r m named below h)

  -- Who loads a table that settles the name finds its newest policy under it.
  lookup-ensure_loaded :
      (rows : List PolicyRow) (r : PolicyResolver)
      → r.loaded ≡ false
      → IsSettled (load_rows safe_parse rows [])
      → lookup name (ensure_loaded safe_parse rows r).cache ≡ some newest.config
  unfolding ensure_loaded configs
  lookup-ensure_loaded rows r fresh h =
      rw (fresh, ensure_loaded)
        (cache_all-lookup name newest.config (configs (load_rows safe_parse rows [])) r.cache
          (All-configs name newest.config (load_rows safe_parse rows []) h.named (
            All-map (λ e. same_text e.0 name ≡ true → e.1 ≡ newest)
              (λ e. same_text e.0 name ≡ true → e.1.config ≡ newest.config)
              (load_rows safe_parse rows []) (λ e k s. ap (λ (l : Latest). l.config) (k s)) h.only))
          (inr (any-configs name newest (load_rows safe_parse rows []) h.named h.found)))

-- A policy that was saved is the one that a request for it by name gets, from the resolver that
-- saved it and from any resolver that loads the table afterwards, in whatever order the table's rows
-- are read, if it allows the app, reads back from its column, and every stored policy has the name of
-- its row.
pub resolve-save :
    (safe_parse : Text → Option PolicyConfig) (to_json : PolicyConfig → Text)
    (config : PolicyConfig) (rows read : List PolicyRow) (r later : PolicyResolver) (app : Text)
    → safe_parse (to_json config) ≡ some config
    → All (IsNamed safe_parse) rows
    → later.loaded ≡ false
    → app_allowed config app ≡ true
    → Permᴰ (save to_json config rows r).0 read
    → let ctx : ResolveContext = record { app_id = app; requested_policy = some config.name } in
      ((resolve safe_parse ctx read (save to_json config rows r).1).0 ≡ config)
      × ((resolve safe_parse ctx read later).0 ≡ config)
unfolding save resolve
resolve-save safe_parse to_json config rows read r later app stored named fresh allowed order =
    let version = next_version (select (is_version_of config.name) rows) in
    let newest : Latest = record { version = version; config = config } in
    let saved : PolicyRow = record {
      name = config.name;
      version = version;
      json_config = to_json config;
    } in
    let settled : IsSettled safe_parse config.name newest (load_rows safe_parse read []) =
      load_rows-saved safe_parse config.name newest saved refl refl stored refl read []
        (IsAmong-Permᴰ (λ x. x ≡ saved) (IsOld safe_parse config.name newest) order
          (IsAmong-last (λ x. x ≡ saved) (IsOld safe_parse config.name newest) rows saved
            (All-both (IsNamed safe_parse) (IsBelow config.name version) rows named
              (next_version-IsBelow config.name rows))
            refl))
        tt in
    (
      elim (Bool-cases r.loaded) [
        | inl old ↦
            resolve_from-requested app config.name _ config
              (unfold ensure_loaded in rw old (lookup-set config.name config r.cache)) allowed
        | inr new ↦
            resolve_from-requested app config.name _ config
              (lookup-ensure_loaded safe_parse config.name newest read
                (record r { cache = set config.name config r.cache }) new settled)
              allowed
      ],
      resolve_from-requested app config.name _ config
          (lookup-ensure_loaded safe_parse config.name newest read later fresh settled) allowed,
    )
