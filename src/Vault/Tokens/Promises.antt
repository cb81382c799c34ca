-- ===== src/Vault/Tokens/Promises.antt =====
-- What `TokenVault` promises its callers (the header of token-vault.ts), for tables that stand for
-- a ledger; Lifecycle shows that all reachable tables do.
use vibe_shield.Prelude.{
  ℕ, ◌≡◌, refl, sym, ap, subst, ◌∙◌, true, List, Option, some, Text, Result-ok-injective, length,
  any, ok,
}
use vibe_shield.Vault.Crypto.{Platform, IsCollisionFree, nonce_length}
use vibe_shield.Vault.Rows.{Db}
use vibe_shield.Vault.Tokens.Ledger.{
  Entry, has_cleartext, assign, cleartext_of, cleartext_of-assign, cleartext_of-persists,
  found-assign,
}
use vibe_shield.Vault.Tokens.Laws.{Implements, IsReady, resolve_lem, allocate_lem, allocate_known}
use vibe_shield.Vault.Tokens.{Allocated, allocate, resolve}

module _ (p : Platform) (keys : Text → Option Text) (free : IsCollisionFree p) where
  -- A session stays ready where the sessions stay as they are.
  pub ready_in :
      {db db' : Db} {session : Text} {now : ℕ}
      → db'.sessions ≡ db.sessions
      → IsReady p keys free db session now
      → IsReady p keys free db' session now
  ready_in {db} {db'} {session} same r = record {
    row = r.row;
    key = r.key;
    found = rw same r.found;
    live = r.live;
    keyed = r.keyed;
    key_size = r.key_size;
  }

  -- What the ledger says of a call that succeeded.
  pub record Outcome (a : Allocated) (db' db : Db) (session entity cleartext : Text)
      (l : List Entry) : Type 0 where
    pub token_assigned : (assign session entity cleartext l).0 ≡ a.token
    pub implemented : Implements p keys free db' (assign session entity cleartext l).1
    pub same_sessions : db'.sessions ≡ db.sessions

  pub allocate-Outcome :
      (db : Db) (l : List Entry)
      → Implements p keys free db l
      → (nonce session : Text) (now : ℕ) (entity cleartext : Text)
      → IsReady p keys free db session now
      → length nonce ≡ nonce_length
      → p.well_formed cleartext ≡ true
      → (a : Allocated) (db' : Db)
      → allocate p keys nonce now session entity cleartext db ≡ ok (a, db')
      → Outcome a db' db session entity cleartext l
  allocate-Outcome db l h nonce session now entity cleartext ready fresh readable a db' done =
      let (db₁, done₁, h₁, same) =
        allocate_lem p keys free db l h session now ready nonce entity cleartext fresh readable in
      let same_result = Result-ok-injective (sym done₁ ∙ done) in
      let same_db : db₁ ≡ db' = ap (λ (r : Allocated × Db). r.1) same_result in
      record {
        token_assigned = ap (λ (r : Allocated × Db). r.0.token) same_result;
        implemented =
            subst (λ d. Implements p keys free d (assign session entity cleartext l).1) same_db h₁;
        same_sessions = ap (λ (d : Db). d.sessions) (sym same_db) ∙ same;
      }

  module _ (db : Db) (l : List Entry) (h : Implements p keys free db l) (nonce session : Text)
      (now : ℕ) (entity cleartext : Text) (ready : IsReady p keys free db session now)
      (fresh_nonce : length nonce ≡ nonce_length) (readable : p.well_formed cleartext ≡ true) where
    -- Of tables that stand for a ledger, in a live session whose tenant has a 32-byte key,
    -- `allocate` of a well-formed text succeeds, and in the tables that it leaves the token that it
    -- returns resolves to that text.
    pub resolve-allocate :
        (a : Allocated) × (db' : Db) × (allocate p keys nonce now session entity cleartext db
          ≡ ok (a, db'))
        × (resolve p keys session a.token db' ≡ ok (some cleartext))
    resolve-allocate =
        let (db', done, h', same) =
          allocate_lem p keys free db l h session now ready nonce entity cleartext fresh_nonce
            readable in
        (
          record {
            token = (assign session entity cleartext l).0;
            reused = any (has_cleartext session cleartext) l;
          },
          db',
          done,
          resolve_lem p keys free db' _ h' session now (ready_in same ready) _
              ∙ ap ok (cleartext_of-assign session entity cleartext l h.ledger),
        )

    -- Of tables that stand for a ledger, a token that resolved to a text, in whatever live session,
    -- resolves to it after an `allocate` of a well-formed text that succeeds.
    pub resolve-allocate_other :
        (s t c : Text) (a : Allocated) (db' : Db) (later : ℕ)
        → IsReady p keys free db s later
        → resolve p keys s t db ≡ ok (some c)
        → allocate p keys nonce now session entity cleartext db ≡ ok (a, db')
        → resolve p keys s t db' ≡ ok (some c)
    resolve-allocate_other s t c a db' later other known done =
        let o =
          allocate-Outcome db l h nonce session now entity cleartext ready fresh_nonce readable a
            db' done in
        let before = resolve_lem p keys free db l h s later other t in
        resolve_lem p keys free db' _ o.implemented s later (ready_in o.same_sessions other) t
        ∙ ap ok (
            cleartext_of-persists session entity cleartext l h.ledger s t
              (Result-ok-injective (sym before ∙ known)))

    -- Of tables that stand for a ledger, a second `allocate` of a well-formed text in a session,
    -- under whatever entity type, while the session is live and its tenant has a 32-byte key,
    -- returns the same token, reports the reuse, and changes nothing.
    pub allocate_idempotent :
        (nonce' entity' : Text) (later : ℕ) (a : Allocated) (db' : Db)
        → length nonce' ≡ nonce_length
        → IsReady p keys free db session later
        → allocate p keys nonce now session entity cleartext db ≡ ok (a, db')
        → allocate p keys nonce' later session entity' cleartext db'
          ≡ ok (record { token = a.token; reused = true }, db')
    allocate_idempotent nonce' entity' later a db' fresh' ready' done =
        let o =
          allocate-Outcome db l h nonce session now entity cleartext ready fresh_nonce readable a
            db' done in
        let (e, found, named) = found-assign session entity cleartext l h.ledger in
        subst
          (λ t.
            allocate p keys nonce' later session entity' cleartext db'
            ≡ ok (record { token = t; reused = true }, db'))
          (named ∙ o.token_assigned)
          (allocate_known p keys free db' _ o.implemented session later
            (ready_in o.same_sessions ready') nonce' entity' cleartext fresh' readable found)

  -- Further calls of `allocate` that succeed, in whatever live sessions.
  pub data Allocations : Db → Db → Type 0 where
    none_more : (db : Db) → Allocations db db
    one_more :
        (db : Db) {db₁ db₂ : Db} (nonce session : Text) (now : ℕ) (entity cleartext : Text)
        (a : Allocated)
        → IsReady p keys free db session now
        → length nonce ≡ nonce_length
        → p.well_formed cleartext ≡ true
        → allocate p keys nonce now session entity cleartext db ≡ ok (a, db₁)
        → Allocations db₁ db₂
        → Allocations db db₂

  -- What the tables stand for, where a token stands for a text.
  record Keeps (s t c : Text) (db db' : Db) : Type 0 where
    pub ledger : List Entry
    pub implemented : Implements p keys free db' ledger
    pub same_sessions : db'.sessions ≡ db.sessions
    pub known : cleartext_of s t ledger ≡ some c

  Allocations-Keeps :
      (s t c : Text) {db db' : Db} (l : List Entry)
      → Allocations db db'
      → Implements p keys free db l
      → cleartext_of s t l ≡ some c
      → Keeps s t c db db'
  Allocations-Keeps s t c l (none_more db) h known = record {
    ledger = l;
    implemented = h;
    same_sessions = refl;
    known = known;
  }
  Allocations-Keeps s t c l
        (one_more db {db₁} nonce session now entity cleartext a ready fresh readable done more) h
        known =
      let o =
        allocate-Outcome db l h nonce session now entity cleartext ready fresh readable a db₁
          done in
      let k =
        Allocations-Keeps s t c (assign session entity cleartext l).1 more o.implemented
          (cleartext_of-persists session entity cleartext l h.ledger s t known) in
      record {
        ledger = k.ledger;
        implemented = k.implemented;
        same_sessions = k.same_sessions ∙ o.same_sessions;
        known = k.known;
      }

  -- Of tables that stand for a ledger, two well-formed texts that a live session gives the same
  -- token are the same text, whatever allocations of well-formed texts there are between the two,
  -- in whatever live sessions.
  pub allocate_injective :
      (db : Db) (l : List Entry)
      → Implements p keys free db l
      → (nonce session : Text) (now : ℕ) (entity cleartext : Text)
      → IsReady p keys free db session now
      → length nonce ≡ nonce_length
      → p.well_formed cleartext ≡ true
      → (nonce' entity' cleartext' : Text) (later : ℕ) (a b : Allocated) (db₁ db₂ db₃ : Db)
      → length nonce' ≡ nonce_length
      → p.well_formed cleartext' ≡ true
      → IsReady p keys free db session later
      → allocate p keys nonce now session entity cleartext db ≡ ok (a, db₁)
      → Allocations db₁ db₂
      → allocate p keys nonce' later session entity' cleartext' db₂ ≡ ok (b, db₃)
      → a.token ≡ b.token
      → cleartext ≡ cleartext'
  allocate_injective db l h nonce session now entity cleartext ready fresh readable nonce' entity'
        cleartext' later a b db₁ db₂ db₃ fresh' readable' ready' done more next same =
      let o =
        allocate-Outcome db l h nonce session now entity cleartext ready fresh readable a db₁
          done in
      let k =
        Allocations-Keeps session (assign session entity cleartext l).0 cleartext
          (assign session entity cleartext l).1 more o.implemented
          (cleartext_of-assign session entity cleartext l h.ledger) in
      let o' =
        allocate-Outcome db₂ k.ledger k.implemented nonce' session later entity' cleartext'
          (ready_in (k.same_sessions ∙ o.same_sessions) ready') fresh' readable' b db₃ next in
      let first =
        cleartext_of-persists session entity' cleartext' k.ledger k.implemented.ledger session _
          k.known in
      let second = cleartext_of-assign session entity' cleartext' k.ledger k.implemented.ledger in
      cc (first, second, o.token_assigned, o'.token_assigned, same)
