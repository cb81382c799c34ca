-- ===== src/Examples/Proxy.antt =====
-- Tokens, the stream, the response, the retries and the sessions of requests at concrete inputs.
use vibe_shield.Prelude.{
  ℕ, ◌≡◌, ◌≤◌, ◌+◌, refl, true, false, not, ◌&&◌, List, [], ◌∷◌, ◌++◌, Option, none, some, Text,
  codes, same_text, Result, ok, err, arith, max, leb, length, if◌then◌else◌,
}
use vibe_shield.Policy.Reid.{none_policy, nothing, effective_mode}
use vibe_shield.Proxy.Reidentify.{Block, text_block, close, reidentify_response, policy_or_full}
use vibe_shield.Proxy.Reidentify.Laws.{reidentify_response_none}
use vibe_shield.Proxy.Stream.{
  Event, text_delta, block_stop, broken, run_events, initial, held, stream_proxy,
}
use vibe_shield.Proxy.Stream.Buffer.{written, buffered, reidentified}
use vibe_shield.Proxy.Stream.Laws.{run_events-buffered, stream_proxy-buffered}
use vibe_shield.Proxy.Retry.{UpstreamError, RetryOptions, max_of, with_retry}
use vibe_shield.Proxy.Retry.Attempts.{fails_again, all_fail, with_retry_lem}
use vibe_shield.Proxy.Admission.{Request, Auth, ephemeral, acquire_session}
use vibe_shield.Proxy.Admission.Gates.{IsOwned, acquire_session-IsOwned}
use vibe_shield.Vault.Rows.{Db}
use vibe_shield.Vault.Sessions.{create}

abbrev person : Text
person = codes "PERSON"

abbrev ann_vault : Text → Option Text
ann_vault t = if same_text t (codes "<PERSON_1>") then some (codes "Ann") else none

-- A token that the upstream cuts in two.
abbrev cut_token : List Event
cut_token =
    text_delta (some 0) (codes "Hi <PER")
    ∷ text_delta (some 0) (codes "SON_1>!")
    ∷ block_stop (some 0)
    ∷ []

run_events-buffered_example :
    written 0 (run_events ann_vault cut_token initial).0
      ++ reidentified ann_vault (held 0 (run_events ann_vault cut_token initial).1.trailing)
    ≡ (buffered ann_vault 0 cut_token ([], [])).0
      ++ reidentified ann_vault (buffered ann_vault 0 cut_token ([], [])).1
run_events-buffered_example = run_events-buffered ann_vault 0 cut_token

stream_proxy-buffered_example :
    written 0 (stream_proxy ann_vault cut_token (broken none))
    ≡ (buffered ann_vault 0 cut_token ([], [])).0
stream_proxy-buffered_example = stream_proxy-buffered ann_vault 0 cut_token (broken none) refl

abbrev greeting : List Block
greeting = text_block (codes "Hi <PERSON_1>") close ∷ []

none_mode : effective_mode (policy_or_full (some none_policy)) none ≡ nothing
unfolding effective_mode
none_mode = refl

reidentify_response_none_example :
    reidentify_response ann_vault (some none_policy) none greeting ≡ greeting
reidentify_response_none_example =
    reidentify_response_none ann_vault (some none_policy) none greeting none_mode

-- Overloaded twice, then served.
abbrev overloaded : ℕ → Result UpstreamError ℕ
overloaded attempt = if leb attempt 2 then err (record { status = some 529 }) else ok attempt

abbrev defaults : RetryOptions
defaults = record { max_attempts = none; base_delay_ms = none; max_delay_ms = none }

with_retry_lem_example :
    let run = with_retry overloaded (λ attempt. 7) defaults in
    let n = length run.delays in
    (run.result ≡ overloaded (1 + n))
    × (1 + n ≤ max (max_of defaults) 1)
    × (all_fail overloaded (λ attempt. 7) defaults n 1 ≡ true)
    × ((fails_again overloaded (λ attempt. 7) defaults (overloaded (1 + n))
          && not (leb (max_of defaults) (1 + n)))
        ≡ false)
with_retry_lem_example = with_retry_lem overloaded (λ attempt. 7) defaults

abbrev request : Request
request = record { model = codes "claude-sonnet-4-6"; max_tokens = 100; session_id = none }

abbrev firm : Auth
firm = record { tenant_id = codes "firm"; app_id = codes "mybooks" }

abbrev no_rows : Db
no_rows = record { sessions = []; tokens = []; token_index = [] }

acquired :
    acquire_session 60 (codes "s1") 5 request firm no_rows
    ≡ ok (codes "s1", (create (ephemeral firm 60) (codes "s1") 5 no_rows).1)
unfolding acquire_session create
acquired = refl

acquire_session-IsOwned_example :
    IsOwned (create (ephemeral firm 60) (codes "s1") 5 no_rows).1 (codes "s1") (codes "firm") 5
acquire_session-IsOwned_example =
    acquire_session-IsOwned 60 (codes "s1") 5 request firm no_rows
      (create (ephemeral firm 60) (codes "s1") 5 no_rows).1 (codes "s1") (omega arith) acquired
