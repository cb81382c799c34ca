-- ===== src/Proxy/Orchestrator.antt =====
-- apps/gateway/src/proxy/orchestrator.ts, `ProxyOrchestrator.handle` and what it calls. The engine,
-- the model's API, the keys and the random numbers are arguments, as is the time, one for all of a
-- request but the vault's calls. The database and Redis answer; an audit row is written where the
-- logger is configured, at once. Metrics are left out. `sent` is a record of what went to the
-- model's API, which the source does not keep.
pub mod Sent
use vibe_shield.Prelude.{
  ℕ, zero, Bool, true, false, ◌&&◌, not, List, [], ◌∷◌, ◌++◌, Option, none, some, Text, codes,
  decimal, any, leb, if◌then◌else◌, Result, ok, err, map_error,
}
use vibe_shield.Prelude.Stateful.{Action, pure, throw, lift, then_do, ◌>>=◌, ◌>>◌}
use vibe_shield.Token.{tokens_of, pieces}
use vibe_shield.Policy.Config.{PolicyConfig}
use vibe_shield.Policy.Reid.{ReidMode, full, partial, nothing, ReidPolicy, should_resolve}
use vibe_shield.Policy.BuiltIn.{default_policy}
use vibe_shield.Policy.Resolver
use vibe_shield.Policy.Resolver.{PolicyRow, PolicyResolver}
use vibe_shield.Vault.Crypto.{Platform}
use vibe_shield.Vault.Rows.{Db}
use vibe_shield.Vault.Tokens
use vibe_shield.Quota.Redis.{Redis}
use vibe_shield.Quota.RateLimit
use vibe_shield.Quota.RateLimit.{RateLimiter, RateLimitExceeded}
use vibe_shield.Quota.SpendRate
use vibe_shield.Quota.SpendRate.{SpendRateLimiter, SpendRateLimitExceeded}
use vibe_shield.Quota.SpendCap.{SpendRecord, SpendCapExceeded, check_cap, record_usage, price_for}
use vibe_shield.Http.Errors.{
  HttpError, Thrown, http, unknown, rate_limit, invalid_request_error, permission_error,
  engine_unavailable_error,
}
use vibe_shield.Proxy.Admission
use vibe_shield.Proxy.Admission.{
  AdmissionError, Auth, assert_policy_allows_request, acquire_session,
}
use vibe_shield.Proxy.Retry.{UpstreamError, RetryOptions, with_retry}
use vibe_shield.Proxy.Reidentify.{
  Fields, Block, collect_content, parse_entity_type, reidentify_response,
}
use vibe_shield.Proxy.Redactor.{EngineResult, MissInput, Log, Prompt, redact_request}
use vibe_shield.Proxy.Redactor.Reversible.{RedactError, Vault, vault_allocate}

pub record MessagesRequest : Type 0 where
  pub model : Text
  pub max_tokens : ℕ
  pub session_id : Option Text
  pub policy_name : Option Text
  pub prompt : Prompt
  pub rest : Fields

-- What goes to the model's API: the request without its session, policy and streaming fields.
pub record Params : Type 0 where
  pub model : Text
  pub max_tokens : ℕ
  pub prompt : Prompt
  pub rest : Fields

pub record ModelReply : Type 0 where
  pub content : List Block
  pub input_tokens : ℕ
  pub output_tokens : ℕ
  pub rest : Fields

-- The audit rows of the proxy: an event and the payload that is hashed.
pub data Event : Type 0 where
  requested : Text → Text → ℕ → ℕ → Text → Bool → Event
  reidentified : ReidMode → Text → Event
  rate_limit_breached : Text → ℕ → ℕ → Event
  spend_cap_breached : Text → Event
  spend_rate_breached : Text → ℕ → ℕ → Event

pub record AuditRow : Type 0 where
  pub tenant_id : Text
  pub session_id : Option Text
  pub event : Event

pub record World (Store : Type 0) : Type 0 where
  pub store : Store
  pub spend : List SpendRecord
  pub db : Db
  pub misses : List MissInput
  pub audits : List AuditRow
  pub resolver : PolicyResolver
  pub sent : List Params

-- The dependencies of the orchestrator; `none` and `false` stand for one that is not configured.
pub record Deps (E : Type 0) : Type 0 where
  pub engine : Text → Result RedactError EngineResult
  pub upstream : Params → ℕ → Result UpstreamError ModelReply
  pub platform : Platform
  pub keys : Text → Option Text
  pub default_session_ttl : ℕ
  pub rate_limiter : Option RateLimiter
  pub spend_tracker : Bool
  pub spend_rate_limiter : Option SpendRateLimiter
  -- `policyConfigSchema.safeParse` and the rows of vs_policies.
  pub policies : Option ((Text → Option PolicyConfig) × List PolicyRow)
  pub zdr_enabled : Bool
  pub audit : Bool
  pub recognizer_misses : Bool
  -- The name of an error of the engine or the vault.
  pub name_of : RedactError → Text

-- What a run draws: the time, the start of the month, a new session's id, and the nonces, times and
-- random numbers of the calls that follow.
pub record Draws : Type 0 where
  pub now : ℕ
  pub month_start : ℕ
  pub session_id : Text
  pub nonces : ℕ → Text
  pub clock : ℕ → ℕ
  pub random : ℕ → ℕ

-- `redactedToAnthropicParams`, of the request with its redacted prompt.
abbrev pub anthropic_params : MessagesRequest → Prompt → Params
anthropic_params request prompt = record {
  model = request.model;
  max_tokens = request.max_tokens;
  prompt = prompt;
  rest = request.rest;
}

abbrev pub rate_limit_error : ℕ → ℕ → HttpError
rate_limit_error limit retry_after = record {
  status = 429;
  kind = rate_limit;
  message = codes "rate limit exceeded: " ++ (decimal limit ++ codes "/min");
  retry_after_seconds = some retry_after;
}

unfoldable pub map_anthropic_error : UpstreamError → HttpError
map_anthropic_error e = elim e.status [
  | none ↦ engine_unavailable_error (codes "Anthropic call failed")
  | some status ↦
      if leb 500 status
      then engine_unavailable_error (codes "upstream model error")
      else invalid_request_error
          (codes "Anthropic rejected the request (status " ++ (decimal status ++ codes ")"))
]

-- The errors of the gates. The messages of the policy's errors name the model, the limits and the
-- policy.
abbrev pub admission_thrown : PolicyConfig → MessagesRequest → AdmissionError → Thrown
admission_thrown policy request Admission.model_not_allowed = http (
    invalid_request_error (
      codes "model \""
      ++ (request.model ++ (codes "\" not allowed by policy \"" ++ (policy.name ++ codes "\"")))))
admission_thrown policy request Admission.max_tokens_exceeded = http (
    invalid_request_error (
      codes "max_tokens="
      ++ (decimal request.max_tokens
          ++ (codes " exceeds policy ceiling " ++ ceiling_text policy.max_tokens_ceiling))))
  where
    ceiling_text : Option ℕ → Text
    ceiling_text none = []
    ceiling_text (some n) = decimal n
admission_thrown policy request Admission.zdr_required = http (
    permission_error (
      codes "policy \""
      ++ (policy.name ++ codes "\" requires ZDR but the gateway is not configured with ZDR")))
admission_thrown policy request Admission.session_not_found =
    http (invalid_request_error (codes "session_id not found"))
admission_thrown policy request (Admission.session e) = unknown

-- Only `none` is spelled 'none' in the source's test.
abbrev pub is_off : ReidMode → Bool
is_off nothing = true
is_off full = false
is_off partial = false

abbrev pub admission_request : MessagesRequest → Admission.Request
admission_request request = record {
  model = request.model;
  max_tokens = request.max_tokens;
  session_id = request.session_id;
}

module _ (redis : Redis) (deps : Deps redis.Store) (draws : Draws) where
  abbrev pub Step : Type 0 → Type 0
  Step A = Action (World redis.Store) Thrown A

  -- `audit.append`
  unfoldable pub append : Text → Option Text → Event → World redis.Store → World redis.Store
  append tenant session event w =
      if deps.audit
      then record w {
        audits = record { tenant_id = tenant; session_id = session; event = event } ∷ w.audits;
      }
      else w

  unfoldable pub resolve_policy : MessagesRequest → Auth → Step PolicyConfig
  resolve_policy request auth w = elim deps.policies [
    | none ↦ (ok default_policy, w)
    | some (safe_parse, rows) ↦
        let (policy, resolver) =
          Resolver.resolve safe_parse
            (record { app_id = auth.app_id; requested_policy = request.policy_name }) rows
            w.resolver in
        (ok policy, record w { resolver = resolver })
  ]

  -- What `checkQuotas` makes of the three limiters' answers.
  abbrev pub rate_checked :
      Auth
      → Result RateLimitExceeded (Unit {0}) × redis.Store
      → World redis.Store
      → Result Thrown (Unit {0}) × World redis.Store
  rate_checked auth (ok _, store) w = (ok tt, record w { store = store })
  rate_checked auth (err e, store) w = (
    err (http (rate_limit_error e.limit e.retry_after_seconds)),
    append auth.tenant_id none (rate_limit_breached auth.app_id e.limit e.retry_after_seconds)
        (record w { store = store }),
  )

  abbrev pub cap_checked : Auth → Result SpendCapExceeded (Unit {0}) → Step (Unit {0})
  cap_checked auth (ok _) w = (ok tt, w)
  cap_checked auth (err e) w = (
    err (http (permission_error (codes "monthly spend cap reached for this tenant"))),
    append auth.tenant_id none (spend_cap_breached auth.app_id) w,
  )

  abbrev pub spend_rate_checked : Auth → Result SpendRateLimitExceeded (Unit {0}) → Step (Unit {0})
  spend_rate_checked auth (ok _) w = (ok tt, w)
  spend_rate_checked auth (err e) w = (
    err (http (rate_limit_error e.cap_microdollars e.retry_after_seconds)),
    append auth.tenant_id none
        (spend_rate_breached auth.app_id e.current_microdollars e.cap_microdollars) w,
  )

  unfoldable pub check_rate : Auth → PolicyConfig → Step (Unit {0})
  check_rate auth policy w = elim deps.rate_limiter [
    | none ↦ (ok tt, w)
    | some limiter ↦
        rate_checked auth
          (RateLimit.check redis limiter auth.tenant_id auth.app_id policy.rate_limit_per_minute
            draws.now w.store)
          w
  ]

  unfoldable pub check_spend_cap : Auth → PolicyConfig → Step (Unit {0})
  check_spend_cap auth policy w =
      if deps.spend_tracker
      then cap_checked auth
          (check_cap auth.tenant_id policy.spend_cap_microdollars draws.month_start w.spend) w
      else (ok tt, w)

  unfoldable pub check_spend_rate : Auth → Step (Unit {0})
  check_spend_rate auth w = elim deps.spend_rate_limiter [
    | none ↦ (ok tt, w)
    | some limiter ↦
        if SpendRate.enabled limiter
        then spend_rate_checked auth
            (SpendRate.check redis limiter auth.tenant_id none draws.now w.store) w
        else (ok tt, w)
  ]

  unfoldable pub check_quotas : Auth → PolicyConfig → Step (Unit {0})
  check_quotas auth policy = do
    check_rate auth policy
    check_spend_cap auth policy
    check_spend_rate auth

  abbrev pub acquired :
      PolicyConfig → MessagesRequest → Result AdmissionError (Text × Db) → Step Text
  acquired policy request (ok (id, db)) w = (ok id, record w { db = db })
  acquired policy request (err e) w = (err (admission_thrown policy request e), w)

  unfoldable pub acquire : PolicyConfig → MessagesRequest → Auth → Step Text
  acquire policy request auth w =
      acquired policy request
        (acquire_session deps.default_session_ttl draws.session_id draws.now
          (admission_request request) auth w.db)
        w

  -- The prompt and the misses of a redaction; what it throws becomes a 503.
  abbrev pub redacted : Result RedactError Prompt × Log Vault → Step (Prompt × List MissInput)
  redacted (ok prompt, log) w = (ok (prompt, log.misses), record w { db = log.vault.db })
  redacted (err e, log) w = (
    err (http (engine_unavailable_error (codes "redaction failed: " ++ deps.name_of e))),
    record w { db = log.vault.db },
  )

  unfoldable pub redact : Text → MessagesRequest → Step (Prompt × List MissInput)
  redact session request w =
      redacted
        (redact_request deps.engine
          (vault_allocate deps.platform deps.keys draws.nonces draws.clock session) request.prompt
          (record { calls = zero; db = w.db }))
        w

  -- `recordBatch`
  unfoldable pub record_batch : List MissInput → Step (Unit {0})
  record_batch misses w =
      (ok tt, if deps.recognizer_misses then record w { misses = misses ++ w.misses } else w)

  unfoldable pub call_model : Params → Step ModelReply
  call_model params w = (
    map_error (λ e. http (map_anthropic_error e))
        (with_retry (deps.upstream params) draws.random
          (record { max_attempts = none; base_delay_ms = none; max_delay_ms = none })).result,
    record w { sent = params ∷ w.sent },
  )

  unfoldable pub record_spend : Auth → Params → ModelReply → Step (Unit {0})
  record_spend auth params reply w = (
    ok tt,
    if deps.spend_tracker
        then record w {
          spend =
              record_usage
                (record {
                  tenant_id = auth.tenant_id;
                  app_id = auth.app_id;
                  model = params.model;
                  input_tokens = reply.input_tokens;
                  output_tokens = reply.output_tokens;
                })
                draws.now w.spend;
        }
        else w,
  )

  unfoldable pub record_spend_rate : Auth → Params → ModelReply → Step (Unit {0})
  record_spend_rate auth params reply w = elim deps.spend_rate_limiter [
    | none ↦ (ok tt, w)
    | some limiter ↦
        if SpendRate.enabled limiter
        then (
          ok tt,
          record w {
            store =
                (SpendRate.record_cost redis limiter auth.tenant_id
                  (price_for params.model reply.input_tokens reply.output_tokens) none draws.now
                  w.store).1;
          },
        )
        else (ok tt, w)
  ]

  abbrev pub is_error : Result Tokens.VaultError (Option Text) → Bool
  is_error (ok a) = false
  is_error (err e) = true

  abbrev pub answer : Result Tokens.VaultError (Option Text) → Option Text
  answer (ok a) = a
  answer (err e) = none

  -- Whether the look-up of a token fails, where there is one.
  abbrev pub look_up_fails : ReidPolicy → Text → Db → Text → Bool
  look_up_fails policy session db t = elim (parse_entity_type t) [
    | none ↦ false
    | some entity ↦
        should_resolve policy none entity
        && is_error (Tokens.resolve deps.platform deps.keys session t db)
  ]

  unfoldable pub reidentify : PolicyConfig → Text → ModelReply → Step ModelReply
  reidentify policy session reply w =
      if any (look_up_fails policy.reid session w.db) (collect_content reply.content [])
      then (err unknown, w)
      else (
        ok (record reply {
          content =
              reidentify_response
                (λ t. answer (Tokens.resolve deps.platform deps.keys session t w.db))
                (some policy.reid) none reply.content;
        }),
        w,
      )

  unfoldable pub audit_request : Auth → PolicyConfig → Text → Params → ModelReply → Step (Unit {0})
  audit_request auth policy session params reply w =
      let w' =
        append auth.tenant_id (some session)
          (requested auth.app_id params.model reply.input_tokens reply.output_tokens policy.name
            deps.zdr_enabled)
          w in
      (
        ok tt,
        if is_off policy.reid.mode
            then w'
            else append auth.tenant_id (some session) (reidentified policy.reid.mode params.model)
                w',
      )

  -- From the model's reply on.
  unfoldable pub finish :
      Auth → PolicyConfig → Text → Params → ModelReply → Step (ModelReply × Text)
  finish auth policy session params reply = do
    record_spend auth params reply
    record_spend_rate auth params reply
    shown ← reidentify policy session reply
    audit_request auth policy session params reply
    pure (shown, session)

  unfoldable pub handle : MessagesRequest → Auth → Step (ModelReply × Text)
  handle request auth = do
    policy ← resolve_policy request auth
    lift (
        map_error (admission_thrown policy request)
          (assert_policy_allows_request deps.zdr_enabled policy (admission_request request)))
    check_quotas auth policy
    session ← acquire policy request auth
    clean ← redact session request
    record_batch clean.1
    reply ← call_model (anthropic_params request clean.0)
    finish auth policy session (anthropic_params request clean.0) reply
