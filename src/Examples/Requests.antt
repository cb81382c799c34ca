-- ===== src/Examples/Requests.antt =====
-- A request at concrete inputs: an engine that finds one name in every text.
use vibe_shield.Prelude.{
  ℕ, ◌≡◌, refl, true, List, [], ◌∷◌, none, some, Text, codes, same_text, Result, ok, arith, All,
}
use vibe_shield.Vault.Tokens.Laws.{IsReady}
use vibe_shield.Proxy.Reidentify.{close}
use vibe_shield.Proxy.Admission.{Auth}
use vibe_shield.Proxy.Redactor
use vibe_shield.Proxy.Redactor.{
  EngineToken, EngineResult, Allocation, Log, Prompt, plain, redact_request,
}
use vibe_shield.Proxy.Redactor.Relation.{Answers, RedactsPrompt}
use vibe_shield.Proxy.Redactor.Clean.{redact_request-RedactsPrompt}
use vibe_shield.Proxy.Redactor.Reversible.{
  RedactError, Vault, vault_allocate, Resolves, redact_request-resolve,
}
use vibe_shield.Proxy.Orchestrator.{MessagesRequest, ModelReply, World, Deps, Draws, handle}
use vibe_shield.Proxy.Orchestrator.Sent.{SentClean, handle-SentClean}
use vibe_shield.Policy.Resolver.{new_resolver}
use vibe_shield.Examples.Vault
use vibe_shield.Examples.Vault.{
  plain_free, one_key, session_1, one_session, nonce_0, one_session-Implements,
}
use vibe_shield.Examples.Quota.{table, empty}

abbrev found : EngineToken
found = record { token = codes "<X>"; entity_type = codes "PERSON"; cleartext = codes "Ann" }

abbrev answered : EngineResult
answered = record { redacted_text = codes "Hi <X>"; tokens = found ∷ []; misses = none }

abbrev finds {ℓ} : {E : Type ℓ} → Text → Result E EngineResult
finds s = ok answered

abbrev prompt : Prompt
prompt = record {
  system = none;
  messages = record { content = plain (codes "Hi Ann"); rest = close } ∷ [];
}

abbrev clean : Prompt
clean = record {
  system = none;
  messages = record { content = plain (codes "Hi <P>"); rest = close } ∷ [];
}

abbrev always_p : {V : Type 0} → Text → Text → V → Result RedactError Text × V
always_p entity cleartext v = (ok (codes "<P>"), v)

abbrev outcome : Result RedactError Prompt × Log ℕ
outcome = redact_request finds always_p prompt 0

cleaned : outcome ≡ (ok clean, outcome.1)
unfolding redact_request Redactor.redact_prompt Redactor.redact_system Redactor.redact_messages
    Redactor.redact_content Redactor.redact_string Redactor.call_engine Redactor.record_misses
    Redactor.replace_each Redactor.allocate_token Redactor.split_join same_text
cleaned = refl

redact_request-RedactsPrompt_example :
    RedactsPrompt (finds {E = RedactError}) (Answers {V = ℕ} always_p 0) prompt clean
redact_request-RedactsPrompt_example =
    redact_request-RedactsPrompt finds always_p prompt clean 0 outcome.1 cleaned

always_ready : (k : ℕ) → IsReady Vault.plain one_key plain_free one_session session_1 10
unfolding same_text
always_ready k = record {
  row = Vault.row_1;
  key = Vault.zeros_32;
  found = refl;
  live = omega arith;
  keyed = refl;
  key_size = refl;
}

All-formed : (es : List EngineToken) → All (λ e. true ≡ true) es
All-formed [] = tt
All-formed (e ∷ es) = (refl, All-formed es)

abbrev run : Result RedactError Prompt × Log Vault
run =
    redact_request finds (vault_allocate Vault.plain one_key (λ k. nonce_0) (λ k. 10) session_1)
      prompt (record { calls = 0; db = one_session })

redact_request-resolve_example :
    All
      (Resolves Vault.plain one_key plain_free (λ k. nonce_0) (λ k. 10) session_1 run.1.vault.db)
      run.1.allocations
redact_request-resolve_example =
    redact_request-resolve Vault.plain one_key plain_free (λ k. nonce_0) (λ k. 10) session_1
      (λ k. refl) finds prompt run.0 one_session [] run.1 one_session-Implements always_ready
      (λ s r e. All-formed r.tokens) refl

abbrev auth : Auth
auth = record { tenant_id = codes "firm"; app_id = codes "mybooks" }

abbrev request : MessagesRequest
request = record {
  model = codes "claude-opus-4-7";
  max_tokens = 100;
  session_id = some session_1;
  policy_name = none;
  prompt = prompt;
  rest = close;
}

abbrev reply : ModelReply
reply = record { content = []; input_tokens = 10; output_tokens = 20; rest = close }

abbrev deps : Deps (Text → ℕ)
deps = record {
  engine = finds;
  upstream = λ params attempt. ok reply;
  platform = Vault.plain;
  keys = one_key;
  default_session_ttl = 60;
  rate_limiter = none;
  spend_tracker = true;
  spend_rate_limiter = none;
  policies = none;
  zdr_enabled = true;
  audit = true;
  recognizer_misses = true;
  name_of = λ e. codes "Error";
}

abbrev draws : Draws
draws = record {
  now = 10;
  month_start = 0;
  session_id = codes "s2";
  nonces = λ k. nonce_0;
  clock = λ k. 10;
  random = λ k. 0;
}

abbrev world : World (Text → ℕ)
world = record {
  store = empty;
  spend = [];
  db = one_session;
  misses = [];
  audits = [];
  resolver = new_resolver;
  sent = [];
}

handle-SentClean_example :
    SentClean table deps draws request auth [] one_session
      (handle table deps draws request auth world).1
handle-SentClean_example = handle-SentClean table deps draws request auth world
