-- ===== src/Proxy/Stream.antt =====
-- apps/gateway/src/proxy/streaming.ts, `streamProxy`. The upstream is the list of the events that it
-- delivers and how it ends. The vault's `resolve` is the argument `vault`, a function of the token:
-- it does not fail, and its answer does not change while a stream is served.
pub mod Cut
pub mod Cache
pub mod Buffer
pub mod InStep
pub mod Laws
use vibe_shield.Prelude.{
  ℕ, zero, suc, ◌-◌, Bool, true, false, List, [], ◌∷◌, ◌++◌, Option, none, some, Text, same_text,
  ltb, ◌==◌, find?, take, drop, if◌then◌else◌, map,
}
use vibe_shield.Token.{Piece, unit, token, pieces, pieces_from, token_at}

-- A content_block_delta of type text_delta, a content_block_stop, or an event of another type; the
-- index may be missing.
pub data Event : Type 0 where
  text_delta : Option ℕ → Text → Event
  block_stop : Option ℕ → Event
  other : Option Text → Text → Event

-- How the upstream ends: by itself, or by an error that may have a status.
pub data Ending : Type 0 where
  finished : Ending
  broken : Option ℕ → Ending

-- What is written to the client: a text_delta, an event passed on, or the error event.
pub data Output : Type 0 where
  text : ℕ → Text → Output
  passed : Event → Output
  failed : ℕ → Output

-- `trailing` and `resolved`; a map is the list of its entries, newest first.
pub record State : Type 0 where
  pub trailing : List (ℕ × Text)
  pub resolved : List (Text × Text)

abbrev pub index_of : Option ℕ → ℕ
index_of none = 0
index_of (some n) = n

-- `trailing.get(idx) ?? ''`
unfoldable pub held : ℕ → List (ℕ × Text) → Text
held i [] = []
held i ((j, s) ∷ m) = if j == i then s else held i m

-- `trailing.delete(idx)`
unfoldable pub forget : ℕ → List (ℕ × Text) → List (ℕ × Text)
forget i [] = []
forget i ((j, s) ∷ m) = let rest = forget i m in if j == i then rest else (j, s) ∷ rest

unfoldable pub cached : Text → List (Text × Text) → Option Text
cached t [] = none
cached t ((u, s) ∷ m) = if same_text u t then some s else cached t m

-- `lastIndexOf` with one added, so that 0 stands for -1.
unfoldable pub last_position : ℕ → Text → ℕ
last_position c [] = 0
last_position c (x ∷ s) = elim (last_position c s) [
  | zero ↦ if x == c then 1 else 0
  | suc n ↦ suc (suc n)
]

-- The part of the buffer that may be flushed, and the part that is held.
unfoldable pub split_buffer : Text → Text × Text
split_buffer buffered =
    let last_open = last_position b'<' buffered in
    let last_close = last_position b'>' buffered in
    if ltb last_close last_open
    then (take (last_open - 1) buffered, drop (last_open - 1) buffered)
    else (buffered, [])

abbrev pub initial : State
initial = record { trailing = []; resolved = [] }

module _ (vault : Text → Option Text) where
  -- `ct ?? token`
  abbrev pub resolved_text : Text → Text
  resolved_text t = elim (vault t) [ none ↦ t | some s ↦ s ]

  unfoldable pub try_resolve_token : Text → List (Text × Text) → Text × List (Text × Text)
  try_resolve_token t cache = elim (cached t cache) [
    | some s ↦ (s, cache)
    | none ↦ (resolved_text t, (t, resolved_text t) ∷ cache)
  ]

  -- The loop of `replaceTokens` over the matches and the slices between them; its early returns are
  -- for texts with no match, of which it returns the text.
  unfoldable pub replace_loop : List Piece → List (Text × Text) → Text × List (Text × Text)
  replace_loop [] cache = ([], cache)
  replace_loop (unit c ∷ ps) cache =
      let (rest, cache') = replace_loop ps cache in (c ∷ rest, cache')
  replace_loop (token name whole ∷ ps) cache =
      let (s, cache₁) = try_resolve_token whole cache in
      let (rest, cache₂) = replace_loop ps cache₁ in (s ++ rest, cache₂)

  -- A text delta for the block, unless there is nothing to write.
  unfoldable pub flush : ℕ → Text → State → List Output × State
  flush i [] s = ([], s)
  flush i (c ∷ t) s =
      let (out, cache) = replace_loop (pieces (c ∷ t)) s.resolved in
      (text i out ∷ [], record s { resolved = cache })

  -- At a block's end: what is held is written, and forgotten.
  unfoldable pub release : ℕ → Text → State → List Output × State
  release i [] s = ([], s)
  release i (c ∷ t) s =
      let (out, s') = flush i (c ∷ t) s in (out, record s' { trailing = forget i s'.trailing })

  unfoldable pub handle : Event → State → List Output × State
  handle (text_delta index delta) s =
      let i = index_of index in
      let (flushable, hold) = split_buffer (held i s.trailing ++ delta) in
      flush i flushable (record s { trailing = (i, hold) ∷ s.trailing })
  handle (block_stop index) s =
      let i = index_of index in
      let (out, s') = release i (held i s.trailing) s in (out ++ passed (block_stop index) ∷ [], s')
  handle (other none body) s = ([], s)
  handle (other (some type) body) s = (passed (other (some type) body) ∷ [], s)

  unfoldable pub run_events : List Event → State → List Output × State
  run_events [] s = ([], s)
  run_events (e ∷ es) s =
      let (out, s') = handle e s in let (outs, s'') = run_events es s' in (out ++ outs, s'')

  -- The headers are sent before the first event, so a failure of the upstream is written as an
  -- event too, with status 500 where the error has none.
  unfoldable pub stream_proxy : List Event → Ending → List Output
  stream_proxy events finished = (run_events events initial).0
  stream_proxy events (broken none) = (run_events events initial).0 ++ failed 500 ∷ []
  stream_proxy events (broken (some status)) = (run_events events initial).0 ++ failed status ∷ []
