-- ===== src/Proxy/Orchestrator/Sent.antt =====
-- What reaches the model's API.
use vibe_shield.Prelude.{
  zero, ◌≡◌, refl, sym, ap, subst, ◌∙◌, ◌⊎◌, inl, inr, true, List, [], ◌∷◌, Option, none, Text, any,
  Result, ok, err, map_error, Option-cases, Bool-cases,
}
use vibe_shield.Prelude.Stateful.{
  Action, lift, then_do, ◌>>=◌, Holds, Ensures, Ensures->>=, Leaves, Ensures-Leaves,
}
use vibe_shield.Policy.Config.{PolicyConfig}
use vibe_shield.Policy.BuiltIn.{default_policy}
use vibe_shield.Policy.Resolver.{app_allowed}
use vibe_shield.Policy.Resolver.Laws.{resolve-IsFor}
use vibe_shield.Vault.Rows.{Db}
use vibe_shield.Quota.Redis.{Redis}
use vibe_shield.Quota.RateLimit
use vibe_shield.Quota.RateLimit.{RateLimitExceeded}
use vibe_shield.Quota.SpendRate
use vibe_shield.Quota.SpendRate.{SpendRateLimitExceeded}
use vibe_shield.Quota.SpendCap.{SpendCapExceeded, check_cap}
use vibe_shield.Proxy.Admission.{
  AdmissionError, Auth, acquire_session, assert_policy_allows_request,
}
use vibe_shield.Http.Errors.{Thrown}
use vibe_shield.Proxy.Reidentify.{collect_content}
use vibe_shield.Proxy.Redactor.{MissInput, Log, Prompt, redact_request}
use vibe_shield.Proxy.Redactor.Reversible.{RedactError, Vault, vault_allocate}
use vibe_shield.Proxy.Redactor.Relation.{Answers, RedactsPrompt}
use vibe_shield.Proxy.Redactor.Clean.{redact_request-RedactsPrompt}
use vibe_shield.Proxy.Orchestrator.{
  MessagesRequest, Params, ModelReply, World, Deps, Draws, Event, anthropic_params,
  admission_request, admission_thrown, append, resolve_policy, rate_checked, cap_checked,
  spend_rate_checked, check_rate, check_spend_cap, check_spend_rate, check_quotas, acquired,
  acquire, redacted, redact, record_batch, call_model, record_spend, record_spend_rate,
  look_up_fails, reidentify, audit_request, is_off, finish, handle,
}

module _ (redis : Redis) (deps : Deps redis.Store) (draws : Draws) where
  -- Nothing more than this was sent.
  abbrev HasSent : List Params → World redis.Store → Type 0
  HasSent sent w = w.sent ≡ sent

  -- Nothing more than this was sent, and the tables of the vault are these.
  abbrev IsAt : List Params → Db → World redis.Store → Type 0
  IsAt sent db w = (w.sent ≡ sent) × (w.db ≡ db)

  append-sent :
      (tenant : Text) (session : Option Text) (event : Event) (w : World redis.Store)
      → (append redis deps draws tenant session event w).sent ≡ w.sent
  unfolding append
  append-sent tenant session event w = elim (Bool-cases deps.audit) [
    | inl q ↦ rw q refl
    | inr q ↦ rw q refl
  ]

  append-db :
      (tenant : Text) (session : Option Text) (event : Event) (w : World redis.Store)
      → (append redis deps draws tenant session event w).db ≡ w.db
  unfolding append
  append-db tenant session event w = elim (Bool-cases deps.audit) [
    | inl q ↦ rw q refl
    | inr q ↦ rw q refl
  ]

  -- The session is what the request is given from the tables: its own, found live and its tenant's,
  -- or a new one; and the tables with it.
  abbrev pub IsSessionOf : MessagesRequest → Auth → Db → Text → Db → Type 0
  IsSessionOf request auth db session db' =
      acquire_session deps.default_session_ttl draws.session_id draws.now
        (admission_request request) auth db
      ≡ ok (session, db')

  -- The prompt is the redaction of the request's, with the tokens that the vault gives from these
  -- tables on in the session.
  abbrev pub IsCleaned : MessagesRequest → Text → Db → Prompt → Type 0
  IsCleaned request session db q =
      RedactsPrompt deps.engine
        (Answers (vault_allocate deps.platform deps.keys draws.nonces draws.clock session)
          (record { calls = zero; db = db }))
        request.prompt q

  -- The policy of a request allows its app, or is the default.
  abbrev pub IsPolicyOf : Auth → PolicyConfig → Type 0
  IsPolicyOf auth policy = (app_allowed policy auth.app_id ≡ true) ⊎ (policy ≡ default_policy)

  resolve_policy-IsAt :
      (sent : List Params) (db : Db) (request : MessagesRequest) (auth : Auth)
      → Ensures (IsAt sent db) (IsPolicyOf auth) (resolve_policy redis deps draws request auth)
  unfolding resolve_policy
  resolve_policy-IsAt sent db request auth w i = elim (Option-cases deps.policies) [
    | inl q ↦ rw (q, resolve_policy) (inr refl, i)
    | inr ((safe_parse, rows), q) ↦
        rw (q, resolve_policy)
          (
            elim (resolve-IsFor safe_parse
                (record { app_id = auth.app_id; requested_policy = request.policy_name }) rows
                w.resolver) [ inl h ↦ inl h | inr (h, _) ↦ inr h ],
            i,
          )
  ]

  module _ (sent : List Params) (db : Db) where
    rate_checked-IsAt :
        (auth : Auth) (r : Result RateLimitExceeded (Unit {0}) × redis.Store)
        (w : World redis.Store)
        → IsAt sent db w
        → Holds (IsAt sent db) (λ _. Unit {0}) (rate_checked redis deps draws auth r w)
    rate_checked-IsAt auth (ok _, store) w i = (tt, i)
    rate_checked-IsAt auth (err e, store) w i = (append-sent _ _ _ _ ∙ i.0, append-db _ _ _ _ ∙ i.1)

    cap_checked-IsAt :
        (auth : Auth) (r : Result SpendCapExceeded (Unit {0})) (w : World redis.Store)
        → IsAt sent db w
        → Holds (IsAt sent db) (λ _. Unit {0}) (cap_checked redis deps draws auth r w)
    cap_checked-IsAt auth (ok _) w i = (tt, i)
    cap_checked-IsAt auth (err e) w i = (append-sent _ _ _ _ ∙ i.0, append-db _ _ _ _ ∙ i.1)

    spend_rate_checked-IsAt :
        (auth : Auth) (r : Result SpendRateLimitExceeded (Unit {0})) (w : World redis.Store)
        → IsAt sent db w
        → Holds (IsAt sent db) (λ _. Unit {0}) (spend_rate_checked redis deps draws auth r w)
    spend_rate_checked-IsAt auth (ok _) w i = (tt, i)
    spend_rate_checked-IsAt auth (err e) w i = (append-sent _ _ _ _ ∙ i.0, append-db _ _ _ _ ∙ i.1)

    check_quotas-IsAt :
        (auth : Auth) (policy : PolicyConfig)
        → Ensures (IsAt sent db) (λ _. Unit {0}) (check_quotas redis deps draws auth policy)
    unfolding check_quotas check_rate check_spend_cap check_spend_rate append
    check_quotas-IsAt auth policy =
        Ensures->>= (IsAt sent db) (λ _. Unit) (λ _. Unit) (check_rate redis deps draws auth policy)
          _ rate
          (λ _ _.
            Ensures->>= (IsAt sent db) (λ _. Unit) (λ _. Unit)
              (check_spend_cap redis deps draws auth policy) _ cap (λ _ _. spend_rate))
      where
        rate : Ensures (IsAt sent db) (λ _. Unit {0}) (check_rate redis deps draws auth policy)
        rate w i = elim (Option-cases deps.rate_limiter) [
          | inl q ↦ rw (q, check_rate) (tt, i)
          | inr (limiter, q) ↦
              rw (q, check_rate)
                (rate_checked-IsAt auth
                  (RateLimit.check redis limiter auth.tenant_id auth.app_id
                    policy.rate_limit_per_minute draws.now w.store)
                  w i)
        ]

        cap : Ensures (IsAt sent db) (λ _. Unit {0}) (check_spend_cap redis deps draws auth policy)
        cap w i = elim (Bool-cases deps.spend_tracker) [
          | inl q ↦
              rw (q, check_spend_cap)
                (cap_checked-IsAt auth
                  (check_cap auth.tenant_id policy.spend_cap_microdollars draws.month_start w.spend)
                  w i)
          | inr q ↦ rw (q, check_spend_cap) (tt, i)
        ]

        spend_rate : Ensures (IsAt sent db) (λ _. Unit {0}) (check_spend_rate redis deps draws auth)
        spend_rate w i = elim (Option-cases deps.spend_rate_limiter) [
          | inl q ↦ rw (q, check_spend_rate) (tt, i)
          | inr (limiter, q) ↦
              rw (q, check_spend_rate)
                (elim (Bool-cases (SpendRate.enabled limiter)) [
                  | inl on ↦
                      rw (on, check_spend_rate)
                        (spend_rate_checked-IsAt auth
                          (SpendRate.check redis limiter auth.tenant_id none draws.now w.store) w i)
                  | inr off ↦ rw (off, check_spend_rate) (tt, i)
                ])
        ]

    acquire-Leaves :
        {A : Type 0} (J : World redis.Store → Type 0) (policy : PolicyConfig)
        (request : MessagesRequest) (auth : Auth) (f : Text → Action (World redis.Store) Thrown A)
        → ((w : World redis.Store) → w.sent ≡ sent → J w)
        → ((session : Text) (db' : Db)
            → IsSessionOf request auth db session db'
            → Leaves (IsAt sent db') J (f session))
        → Leaves (IsAt sent db) J (acquire redis deps draws policy request auth >>= f)
    unfolding acquire
    acquire-Leaves J policy request auth f weaker next w (i, d) =
        after _ (λ session db' q. from d ∙ q)
      where
        from :
            w.db ≡ db
            → acquire_session deps.default_session_ttl draws.session_id draws.now
                (admission_request request)
                auth
                db
              ≡ acquire_session deps.default_session_ttl draws.session_id draws.now
                  (admission_request request)
                  auth
                  w.db
        from d =
            ap
              (acquire_session deps.default_session_ttl draws.session_id draws.now
                (admission_request request) auth)
              (sym d)

        after :
            (r : Result AdmissionError (Text × Db))
            → ((session : Text) (db' : Db)
                → r ≡ ok (session, db')
                → IsSessionOf request auth db session db')
            → J (then_do f (acquired redis deps draws policy request r w)).1
        after (ok (session, db')) h = next session db' (h session db' refl) _ (i, refl)
        after (err e) h = weaker w i

    redact-Leaves :
        {A : Type 0} (J : World redis.Store → Type 0) (session : Text) (request : MessagesRequest)
        (f : Prompt × List MissInput → Action (World redis.Store) Thrown A)
        → ((w : World redis.Store) → w.sent ≡ sent → J w)
        → ((c : Prompt × List MissInput)
            → IsCleaned request session db c.0
            → Leaves (HasSent sent) J (f c))
        → Leaves (IsAt sent db) J (redact redis deps draws session request >>= f)
    unfolding redact
    redact-Leaves J session request f weaker next w (i, d) = after run (λ q e. cleaned q e)
      where
        run : Result RedactError Prompt × Log Vault
        run =
            redact_request deps.engine
              (vault_allocate deps.platform deps.keys draws.nonces draws.clock session)
              request.prompt (record { calls = zero; db = w.db })

        cleaned : (q : Prompt) → run.0 ≡ ok q → IsCleaned request session db q
        cleaned q e =
            subst (λ x. IsCleaned request session x q) d
              (redact_request-RedactsPrompt deps.engine
                (vault_allocate deps.platform deps.keys draws.nonces draws.clock session)
                request.prompt q (record { calls = zero; db = w.db }) run.1 (λ k. (e k, run.1)))

        after :
            (r : Result RedactError Prompt × Log Vault)
            → ((q : Prompt) → r.0 ≡ ok q → IsCleaned request session db q)
            → J (then_do f (redacted redis deps draws r w)).1
        after (ok q, log) h = next (q, log.misses) (h q refl) _ i
        after (err e, log) h = weaker _ i

  module _ (sent : List Params) where
    record_batch-HasSent :
        (misses : List MissInput)
        → Ensures (HasSent sent) (λ _. Unit {0}) (record_batch redis deps draws misses)
    unfolding record_batch
    record_batch-HasSent misses w i = elim (Bool-cases deps.recognizer_misses) [
      | inl q ↦ rw (q, record_batch) (tt, i)
      | inr q ↦ rw (q, record_batch) (tt, i)
    ]

    record_spend-HasSent :
        (auth : Auth) (params : Params) (reply : ModelReply)
        → Ensures (HasSent sent) (λ _. Unit {0}) (record_spend redis deps draws auth params reply)
    unfolding record_spend
    record_spend-HasSent auth params reply w i = elim (Bool-cases deps.spend_tracker) [
      | inl q ↦ rw (q, record_spend) (tt, i)
      | inr q ↦ rw (q, record_spend) (tt, i)
    ]

    record_spend_rate-HasSent :
        (auth : Auth) (params : Params) (reply : ModelReply)
        → Ensures
            (HasSent sent)
            (λ _. Unit {0})
            (record_spend_rate redis deps draws auth params reply)
    unfolding record_spend_rate
    record_spend_rate-HasSent auth params reply w i = elim (Option-cases deps.spend_rate_limiter) [
      | inl q ↦ rw (q, record_spend_rate) (tt, i)
      | inr (limiter, q) ↦
          rw (q, record_spend_rate)
            (elim (Bool-cases (SpendRate.enabled limiter)) [
              | inl on ↦ rw (on, record_spend_rate) (tt, i)
              | inr off ↦ rw (off, record_spend_rate) (tt, i)
            ])
    ]

    reidentify-HasSent :
        (policy : PolicyConfig) (session : Text) (reply : ModelReply)
        → Ensures (HasSent sent) (λ _. Unit {0}) (reidentify redis deps draws policy session reply)
    unfolding reidentify
    reidentify-HasSent policy session reply w i =
        elim (Bool-cases (
          any (look_up_fails redis deps draws policy.reid session w.db)
            (collect_content reply.content []))) [
              | inl q ↦ rw (q, reidentify) i
              | inr q ↦ rw (q, reidentify) (tt, i)
            ]

    audit_request-HasSent :
        (auth : Auth) (policy : PolicyConfig) (session : Text) (params : Params)
        (reply : ModelReply)
        → Ensures
            (HasSent sent)
            (λ _. Unit {0})
            (audit_request redis deps draws auth policy session params reply)
    unfolding audit_request
    audit_request-HasSent auth policy session params reply w i = (
      tt,
      elim (Bool-cases (is_off policy.reid.mode)) [
        | inl q ↦ rw (q, audit_request) (append-sent _ _ _ _ ∙ i)
        | inr q ↦ rw (q, audit_request) (append-sent _ _ _ _ ∙ append-sent _ _ _ _ ∙ i)
      ],
    )

    finish-HasSent :
        (auth : Auth) (policy : PolicyConfig) (session : Text) (params : Params)
        (reply : ModelReply)
        → Leaves
            (HasSent sent)
            (HasSent sent)
            (finish redis deps draws auth policy session params reply)
    unfolding finish
    finish-HasSent auth policy session params reply =
        Ensures-Leaves (HasSent sent) (HasSent sent) (λ _. Unit) _ _ (λ w i. i)
          (record_spend-HasSent auth params reply)
          (λ _ _.
            Ensures-Leaves (HasSent sent) (HasSent sent) (λ _. Unit) _ _ (λ w i. i)
              (record_spend_rate-HasSent auth params reply)
              (λ _ _.
                Ensures-Leaves (HasSent sent) (HasSent sent) (λ _. Unit) _ _ (λ w i. i)
                  (reidentify-HasSent policy session reply)
                  (λ shown _.
                    Ensures-Leaves (HasSent sent) (HasSent sent) (λ _. Unit) _ _ (λ w i. i)
                      (audit_request-HasSent auth policy session params reply) (λ _ _ w i. i))))

  -- The call sends the request, and nothing after it sends more.
  call_model-HasSent :
      (sent : List Params) (auth : Auth) (policy : PolicyConfig) (session : Text) (params : Params)
      → Leaves (HasSent sent) (HasSent (params ∷ sent)) (
          call_model redis deps draws params >>= finish redis deps draws auth policy session params)
  unfolding call_model
  call_model-HasSent sent auth policy session params w i = after _ _ (ap (◌∷◌ params) i)
    where
      after :
          (r : Result Thrown ModelReply) (s : World redis.Store)
          → s.sent ≡ params ∷ sent
          → (then_do (finish redis deps draws auth policy session params) (r, s)).1.sent
            ≡ params ∷ sent
      after (ok reply) s h = finish-HasSent (params ∷ sent) auth policy session params reply s h
      after (err e) s h = h

  -- Nothing was sent, or one request: admitted by a policy for its app, with the redacted prompt.
  abbrev pub SentClean : MessagesRequest → Auth → List Params → Db → World redis.Store → Type 0
  SentClean request auth sent db w =
      (w.sent ≡ sent)
      ⊎ ((policy : PolicyConfig) × (q : Prompt) × (session : Text) × (db' : Db) × (w.sent
            ≡ anthropic_params request q ∷ sent)
          × IsSessionOf request auth db session db'
          × IsCleaned request session db' q
          × IsPolicyOf auth policy
          × (assert_policy_allows_request deps.zdr_enabled policy (admission_request request)
              ≡ ok tt))

  assert-ok :
      (sent : List Params) (db : Db) (policy : PolicyConfig) (request : MessagesRequest)
      (r : Result AdmissionError (Unit {0}))
      → Ensures
          (IsAt sent db)
          (λ _. r ≡ ok tt)
          (lift (map_error (admission_thrown policy request) r))
  assert-ok sent db policy request (ok u) w i = (refl, i)
  assert-ok sent db policy request (err e) w i = i

  -- Whatever comes of a request, an error at whatever point included, the model's API was sent
  -- nothing or one request, which retries may repeat: its prompt is the redaction of the request's,
  -- with each of the engine's tokens replaced by what the vault, from the tables that the request
  -- found and the session it was given in them, answered for its type and cleartext; its model, size
  -- and retention are admitted by a policy; and that policy allows the app or is the default.
  pub handle-SentClean :
      (request : MessagesRequest) (auth : Auth) (w : World redis.Store)
      → SentClean request auth w.sent w.db (handle redis deps draws request auth w).1
  unfolding handle
  handle-SentClean request auth w =
      early (IsPolicyOf auth) _ _ (resolve_policy-IsAt w.sent w.db request auth)
        (λ policy of.
          early
            (λ _.
              assert_policy_allows_request deps.zdr_enabled policy (admission_request request)
              ≡ ok tt)
            _ _
            (assert-ok w.sent w.db policy request
              (assert_policy_allows_request deps.zdr_enabled policy (admission_request request)))
            (λ _ allowed.
              early (λ _. Unit) _ _ (check_quotas-IsAt w.sent w.db auth policy)
                (λ _ _.
                  acquire-Leaves w.sent w.db Clean policy request auth _ (λ s i. inl i)
                    (λ session db' given.
                      redact-Leaves w.sent db' Clean session request _ (λ s i. inl i)
                        (λ clean redacts.
                          Ensures-Leaves (HasSent w.sent) Clean (λ _. Unit) _ _ (λ s i. inl i)
                            (record_batch-HasSent w.sent clean.1)
                            (λ _ _ s i. inr (
                              policy,
                              clean.0,
                              session,
                              db',
                              call_model-HasSent w.sent auth policy session
                                  (anthropic_params request clean.0) s i,
                              given,
                              redacts,
                              of,
                              allowed,
                            )))))))
        w (refl, refl)
    where
      Clean : World redis.Store → Type 0
      Clean = SentClean request auth w.sent w.db

      early :
          {A B : Type 0} (P : A → Type 0) (m : Action (World redis.Store) Thrown A)
          (f : A → Action (World redis.Store) Thrown B)
          → Ensures (IsAt w.sent w.db) P m
          → ((a : A) → P a → Leaves (IsAt w.sent w.db) (SentClean request auth w.sent w.db) (f a))
          → Leaves (IsAt w.sent w.db) (SentClean request auth w.sent w.db) (m >>= f)
      early P m f first next =
          Ensures-Leaves (IsAt w.sent w.db) (SentClean request auth w.sent w.db) P m f
            (λ s i. inl i.0) first next
