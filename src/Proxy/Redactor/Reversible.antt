-- ===== src/Proxy/Redactor/Reversible.antt =====
-- The redactor with the token vault: the tokens that a request gets stand for its texts.
use vibe_shield.Prelude.{
  ℕ, suc, ◌≡◌, sym, subst, ◌∙◌, inl, inr, true, List, [], Option, some, Text, All, All-append,
  All-map, length, Result, ok, err, Result-cases, Result-ok-injective,
}
use vibe_shield.Prelude.Stateful.{Action, Holds, Ensures}
use vibe_shield.Vault.Crypto.{Platform, IsCollisionFree, nonce_length}
use vibe_shield.Vault.Rows.{Db}
use vibe_shield.Vault.Tokens.{VaultError, Allocated, allocate, resolve}
use vibe_shield.Vault.Tokens.Ledger.{Entry}
use vibe_shield.Vault.Tokens.Laws.{Implements, IsReady}
use vibe_shield.Vault.Tokens.Promises.{
  ready_in, allocate-Outcome, resolve-allocate, resolve-allocate_other,
}
use vibe_shield.Proxy.Redactor.{
  EngineToken, EngineResult, Allocation, Log, Prompt, record_misses, allocate_token, redact_prompt,
  redact_request,
}
use vibe_shield.Proxy.Redactor.Relation.{RedactsPrompt}
use vibe_shield.Proxy.Redactor.Clean.{redact_prompt-RedactsPrompt}

pub data RedactError : Type 0 where
  engine_failed : RedactError
  vault : VaultError → RedactError

-- The tables, and how many calls of the vault there were.
pub record Vault : Type 0 where
  pub calls : ℕ
  pub db : Db

-- The token of an allocation, and the vault it leaves.
abbrev pub allocated : Vault → Result VaultError (Allocated × Db) → Result RedactError Text × Vault
allocated v (ok (a, db)) = (ok a.token, record { calls = suc v.calls; db = db })
allocated v (err e) = (err (vault e), record v { calls = suc v.calls })

-- `TokenVault.allocate` in a session, at the nonce and the time of each call.
unfoldable pub vault_allocate :
    (p : Platform) (keys : Text → Option Text) (nonces : ℕ → Text) (clock : ℕ → ℕ) (session : Text)
    → Text
    → Text
    → Action Vault RedactError Text
vault_allocate p keys nonces clock session entity cleartext v =
    allocated v (allocate p keys (nonces v.calls) (clock v.calls) session entity cleartext v.db)

module _ (p : Platform) (keys : Text → Option Text) (free : IsCollisionFree p) (nonces : ℕ → Text)
    (clock : ℕ → ℕ) (session : Text) where
  -- An allocation whose token resolves to its text.
  abbrev pub Resolves : Db → Allocation → Type 0
  Resolves db a = resolve p keys session a.token db ≡ ok (some a.cleartext)

  -- The tables stand for a ledger, the session is live at every call, and what was allocated
  -- resolves.
  record IsKept (l : Log Vault) : Type 0 where
    pub ledger : List Entry
    pub implemented : Implements p keys free l.vault.db ledger
    pub ready : (k : ℕ) → IsReady p keys free l.vault.db session (clock k)
    pub resolved : All (Resolves l.vault.db) l.allocations

  module _ (fresh : (k : ℕ) → length (nonces k) ≡ nonce_length) where
    allocate_token-IsKept :
        (engine : Text → Result RedactError EngineResult) (e : EngineToken)
        → p.well_formed e.cleartext ≡ true
        → Ensures IsKept
            (λ (t : Text). Unit {0})
            (allocate_token engine (vault_allocate p keys nonces clock session) e)
    unfolding allocate_token vault_allocate
    allocate_token-IsKept engine e readable l i =
        elim (Result-cases (
          allocate p keys (nonces l.vault.calls) (clock l.vault.calls) session e.entity_type
            e.cleartext l.vault.db)) [
              | inr (x, q) ↦
                  rw (q, allocate_token)
                    (record {
                      ledger = i.ledger;
                      implemented = i.implemented;
                      ready = i.ready;
                      resolved = i.resolved;
                    })
              | inl ((a, db'), q) ↦
                  let k = l.vault.calls in
                  let o =
                    allocate-Outcome p keys free l.vault.db i.ledger i.implemented (nonces k)
                      session (clock k) e.entity_type e.cleartext (i.ready k) (fresh k) readable a
                      db' q in
                  let (a₁, db₁, done, known) =
                    resolve-allocate p keys free l.vault.db i.ledger i.implemented (nonces k)
                      session (clock k) e.entity_type e.cleartext (i.ready k) (fresh k) readable in
                  let same : ◌≡◌ {A = Allocated × Db} (a₁, db₁) (a, db') =
                    Result-ok-injective (sym done ∙ q) in
                  let new : resolve p keys session a.token db' ≡ ok (some e.cleartext) =
                    subst
                      (λ (r : Allocated × Db).
                        resolve p keys session r.0.token r.1 ≡ ok (some e.cleartext))
                      same known in
                  rw (q, allocate_token)
                    (
                      tt,
                      record {
                        ledger = _;
                        implemented = o.implemented;
                        ready = λ n. ready_in p keys free o.same_sessions (i.ready n);
                        resolved =
                            All-append (Resolves db') l.allocations _
                              (All-map (Resolves l.vault.db) (Resolves db') l.allocations
                                (λ b r.
                                  resolve-allocate_other p keys free l.vault.db i.ledger
                                    i.implemented (nonces k) session (clock k) e.entity_type
                                    e.cleartext (i.ready k) (fresh k) readable session b.token
                                    b.cleartext a db' (clock k) (i.ready k) r q)
                                i.resolved)
                              (new, tt);
                      },
                    )
            ]

    -- Every allocation that a redaction makes, in a session that is live at each call, resolves to
    -- its cleartext in the tables that the redaction leaves, also where it fails half-way; the
    -- engine's cleartexts are well formed.
    pub redact_request-resolve :
        (engine : Text → Result RedactError EngineResult) (prompt : Prompt)
        (outcome : Result RedactError Prompt) (db : Db) (l : List Entry) (log : Log Vault)
        → Implements p keys free db l
        → ((k : ℕ) → IsReady p keys free db session (clock k))
        → ((s : Text) (r : EngineResult)
            → engine s ≡ ok r
            → All (λ e. p.well_formed e.cleartext ≡ true) r.tokens)
        → redact_request engine
            (vault_allocate p keys nonces clock session)
            prompt
            (record { calls = 0; db = db })
          ≡ (outcome, log)
        → All (Resolves log.vault.db) log.allocations
    unfolding redact_request
    redact_request-resolve engine prompt outcome db l log h ready readable done =
        subst (λ r. All (Resolves r.1.vault.db) r.1.allocations) done
          (state
            (redact_prompt engine (vault_allocate p keys nonces clock session) prompt
              (record { vault = record { calls = 0; db = db }; allocations = []; misses = [] }))
            (redact_prompt-RedactsPrompt engine (vault_allocate p keys nonces clock session) IsKept
              (λ e u. Unit {0})
              (λ ms l i.
                unfold record_misses in
                (
                  tt,
                  record {
                    ledger = i.ledger;
                    implemented = i.implemented;
                    ready = i.ready;
                    resolved = i.resolved;
                  },
                ))
              (λ s r e.
                All-map (λ e. p.well_formed e.cleartext ≡ true) _ r.tokens
                  (λ e w. allocate_token-IsKept engine e w) (readable s r e))
              prompt _ (record { ledger = l; implemented = h; ready = ready; resolved = tt })))
      where
        state :
            (r : Result RedactError Prompt × Log Vault)
            → Holds IsKept (RedactsPrompt engine (λ e u. Unit {0}) prompt) r
            → All (Resolves r.1.vault.db) r.1.allocations
        state (ok q, log) (h, i) = i.resolved
        state (err e, log) i = i.resolved
