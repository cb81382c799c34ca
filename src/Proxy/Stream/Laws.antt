-- ===== src/Proxy/Stream/Laws.antt =====
-- Streaming against a buffer of the whole block: a token that is cut in two by the upstream's chunks
-- is replaced like one that is not.
use vibe_shield.Prelude.{
  ℕ, ◌≡◌, refl, sym, subst, ap, ◌∙◌, List, [], ◌∷◌, ◌++◌, Option, none, some, Text, append-nil,
  append_assoc,
}
use vibe_shield.Token.{pieces_from, render, replace_tokens}
use vibe_shield.Proxy.Stream.{
  Event, Ending, finished, broken, failed, State, held, handle, run_events, initial, stream_proxy,
}
use vibe_shield.Proxy.Stream.Buffer.{
  written, written-append, append-empty, reidentified, buffer_event, buffered,
}
use vibe_shield.Proxy.Stream.InStep.{Tracks, handle-Tracks}

module _ (vault : Text → Option Text) where
  run_events-Tracks :
      (i : ℕ) (es : List Event) (q : Text × Text) (w : Text) (s : State)
      → Tracks vault i q w s
      → Tracks vault i
          (buffered vault i es q)
          (w ++ written i (run_events vault es s).0)
          (run_events vault es s).1
  unfolding run_events
  run_events-Tracks i [] q w s t = rw (append-nil w) t
  run_events-Tracks i (e ∷ es) q w s t =
      let out = (handle vault e s).0 in
      let s' = (handle vault e s).1 in
      let all = w ++ written i (out ++ (run_events vault es s').0) in
      let later =
        run_events-Tracks i es (buffer_event vault i e q) (w ++ written i out) s'
          (handle-Tracks vault i e q w s t) in
      let joined : (w ++ written i out) ++ written i (run_events vault es s').0
          ≡ w ++ written i (out ++ (run_events vault es s').0) =
        append_assoc w _ _ ∙ ap (◌++◌ w) (sym (written-append i out _)) in
      subst
        (λ x.
          Tracks vault i (buffered vault i es (buffer_event vault i e q)) x
            (run_events vault es s').1)
        joined later

  initial-Tracks : (i : ℕ) → Tracks vault i ([], []) [] initial
  unfolding held
  initial-Tracks i = record { same = λ d. refl; front = []; suffix = refl; sound = tt }

  -- However the upstream cuts a block's text into events, and whatever comes of other blocks between
  -- them: what the client has been sent of the block, with what is held of it, replaced, is what a
  -- server that buffers the block until its end would have sent, with what it has received since,
  -- replaced.
  pub run_events-buffered :
      (i : ℕ) (es : List Event)
      → let (outs, s) = run_events vault es initial in
        let (sent, kept) = buffered vault i es ([], []) in
        written i outs ++ reidentified vault (held i s.trailing) ≡ sent ++ reidentified vault kept
  run_events-buffered i es =
      let t = run_events-Tracks i es ([], []) [] initial (initial-Tracks i) in
      let (sent, kept) = buffered vault i es ([], []) in
      let hold = held i (run_events vault es initial).1.trailing in
      ap (λ x. written i (run_events vault es initial).0 ++ reidentified vault x)
        (sym (append-nil hold))
      ∙ sym (t.same [])
      ∙ ap (λ x. sent ++ reidentified vault x) (append-nil kept)

  closed_block :
      (i : ℕ) (es : List Event)
      → (buffered vault i es ([], [])).1 ≡ []
      → written i (run_events vault es initial).0 ≡ (buffered vault i es ([], [])).0
  unfolding replace_tokens render pieces_from
  closed_block i es closed =
      let t = run_events-Tracks i es ([], []) [] initial (initial-Tracks i) in
      let nothing_held = append-empty t.front _ (sym closed ∙ t.suffix) in
      sym (append-nil _)
      ∙ ap (λ h. written i (run_events vault es initial).0 ++ reidentified vault h)
          (sym nothing_held)
      ∙ run_events-buffered i es
      ∙ ap (λ k. (buffered vault i es ([], [])).0 ++ reidentified vault k) closed
      ∙ append-nil _

  -- For a block that the upstream has closed, however it then ends, the client has been sent exactly
  -- the block's texts with every token replaced: nothing of it is still held.
  pub stream_proxy-buffered :
      (i : ℕ) (es : List Event) (ending : Ending)
      → (buffered vault i es ([], [])).1 ≡ []
      → written i (stream_proxy vault es ending) ≡ (buffered vault i es ([], [])).0
  unfolding stream_proxy
  stream_proxy-buffered i es finished closed = closed_block i es closed
  stream_proxy-buffered i es (broken none) closed =
      written-append i (run_events vault es initial).0 (failed 500 ∷ [])
      ∙ append-nil _
      ∙ closed_block i es closed
  stream_proxy-buffered i es (broken (some status)) closed =
      written-append i (run_events vault es initial).0 (failed status ∷ [])
      ∙ append-nil _
      ∙ closed_block i es closed
