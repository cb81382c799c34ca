-- ===== src/Proxy/Stream/Buffer.antt =====
-- What the client is sent of one block, a server that buffers blocks whole, and what `flush` and
-- `release` write.
use vibe_shield.Prelude.{
  ℕ, ◌≡◌, refl, sym, ap, ◌∙◌, inl, inr, List, [], ◌∷◌, ◌++◌, Option, Text, ◌==◌, ==_iff,
  if◌then◌else◌, arith, Bool-cases, append-nil, append_assoc,
}
use vibe_shield.Token.{pieces, pieces_from, render, replace_tokens}
use vibe_shield.Proxy.Stream.Cache.{IsSound, replace_loop_lem}
use vibe_shield.Proxy.Stream.{
  Event, text_delta, block_stop, other, Output, text, passed, failed, State, index_of, held, forget,
  resolved_text, replace_loop, flush, release,
}

-- What the client is sent of the text of one block.
abbrev pub written : ℕ → List Output → Text
written i [] = []
written i (text j t ∷ os) = if j == i then t ++ written i os else written i os
written i (passed e ∷ os) = written i os
written i (failed n ∷ os) = written i os

pub written-append :
    (i : ℕ) (os os' : List Output) → written i (os ++ os') ≡ written i os ++ written i os'
written-append i [] os' = refl
written-append i (text j t ∷ os) os' = elim (Bool-cases (j == i)) [
  | inl q ↦ rw q (ap (◌++◌ t) (written-append i os os') ∙ sym (append_assoc t _ _))
  | inr q ↦ rw q (written-append i os os')
]
written-append i (passed e ∷ os) os' = written-append i os os'
written-append i (failed n ∷ os) os' = written-append i os os'

pub passed-silent :
    (i : ℕ) (os : List Output) (e : Event) → written i (os ++ passed e ∷ []) ≡ written i os
passed-silent i os e = written-append i os (passed e ∷ []) ∙ append-nil _

pub append-empty : (a b : Text) → [] ≡ a ++ b → b ≡ []
append-empty [] b e = sym e
append-empty (x ∷ a) b e = cc

module _ (vault : Text → Option Text) where
  -- The tokens of a text replaced all at once.
  abbrev pub reidentified : Text → Text
  reidentified = replace_tokens (resolved_text vault)

  -- A server that buffers a block until its end: what it has sent of the block, and what it has
  -- received since.
  abbrev pub buffer_event : ℕ → Event → Text × Text → Text × Text
  buffer_event i (text_delta index d) (sent, kept) =
      if index_of index == i then (sent, kept ++ d) else (sent, kept)
  buffer_event i (block_stop index) (sent, kept) =
      if index_of index == i then (sent ++ reidentified kept, []) else (sent, kept)
  buffer_event i (other type body) (sent, kept) = (sent, kept)

  abbrev pub buffered : ℕ → List Event → Text × Text → Text × Text
  buffered i [] q = q
  buffered i (e ∷ es) q = buffered i es (buffer_event i e q)

  replace_all :
      (s : Text) (m : List (Text × Text))
      → IsSound vault m
      → ((replace_loop vault (pieces s) m).0 ≡ reidentified s)
        × IsSound vault (replace_loop vault (pieces s) m).1
  unfolding replace_tokens
  replace_all s m h = replace_loop_lem vault (pieces s) m h

  pub flush_lem :
      (i j : ℕ) (t : Text) (s : State)
      → IsSound vault s.resolved
      → (written i (flush vault j t s).0 ≡ (if j == i then reidentified t else []))
        × ((flush vault j t s).1.trailing ≡ s.trailing)
        × IsSound vault (flush vault j t s).1.resolved
  unfolding flush replace_tokens render pieces_from
  flush_lem i j [] s h =
      (elim (Bool-cases (j == i)) [ inl q ↦ rw q refl | inr q ↦ rw q refl ], refl, h)
  flush_lem i j (c ∷ t) s h =
      let (same, h') = replace_all (c ∷ t) s.resolved h in
      (
        elim (Bool-cases (j == i)) [ inl q ↦ rw q (append-nil _ ∙ same) | inr q ↦ rw q refl ],
        refl,
        h',
      )

  held-forget :
      (i j : ℕ) (m : List (ℕ × Text)) → held i (forget j m) ≡ (if j == i then [] else held i m)
  unfolding held forget
  held-forget i j [] = ground arith
  held-forget i j ((k, t) ∷ m) = ground (arith, held-forget i j m)

  pub release_lem :
      (i j : ℕ) (t : Text) (s : State)
      → held j s.trailing ≡ t
      → IsSound vault s.resolved
      → let (out, s') = release vault j t s in
        (written i out ≡ (if j == i then reidentified t else []))
        × (held i s'.trailing ≡ (if j == i then [] else held i s.trailing))
        × IsSound vault s'.resolved
  unfolding release replace_tokens render pieces_from
  release_lem i j [] s e h = elim (Bool-cases (j == i)) [
    | inl q ↦ let here : j ≡ i = (==_iff _ _).0 q in rw q (refl, rw (← here) e, h)
    | inr q ↦ rw q (refl, refl, h)
  ]
  release_lem i j (c ∷ t) s e h =
      let (same, stays, h') = flush_lem i j (c ∷ t) s h in
      (same, ap (λ m. held i (forget j m)) stays ∙ held-forget i j s.trailing, h')
