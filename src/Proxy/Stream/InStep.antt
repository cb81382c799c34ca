-- ===== src/Proxy/Stream/InStep.antt =====
-- The two servers in step: one event keeps them so.
use vibe_shield.Prelude.{
  ℕ, ◌≡◌, refl, sym, ap, ap₂, ◌∙◌, inl, inr, [], ◌∷◌, ◌++◌, Option, none, some, Text, ◌==◌, ==_iff,
  Bool-cases, append-nil, append_assoc,
}
use vibe_shield.Token.Replace.{replace_tokens-append}
use vibe_shield.Proxy.Stream.Cut.{split_buffer_lem, IsSplit-Cuts}
use vibe_shield.Proxy.Stream.Cache.{IsSound}
use vibe_shield.Proxy.Stream.{
  Event, text_delta, block_stop, other, State, index_of, held, split_buffer, resolved_text, release,
  handle,
}
use vibe_shield.Proxy.Stream.Buffer.{
  written, passed-silent, reidentified, buffer_event, flush_lem, release_lem,
}

module _ (vault : Text → Option Text) where
  -- `w` was written of the block; the rest stands in the state, and will come to the same.
  pub record Tracks (i : ℕ) (q : Text × Text) (w : Text) (s : State) : Type 0 where
    pub same :
        (d : Text)
        → q.0 ++ reidentified vault (q.1 ++ d) ≡ w ++ reidentified vault (held i s.trailing ++ d)
    pub front : Text
    pub suffix : q.1 ≡ front ++ held i s.trailing
    pub sound : IsSound vault s.resolved

  -- What does not touch the block leaves the two in step.
  Tracks-other :
      (i : ℕ) (q : Text × Text) (w out : Text) (s s' : State)
      → out ≡ []
      → held i s'.trailing ≡ held i s.trailing
      → IsSound vault s'.resolved
      → Tracks i q w s
      → Tracks i q (w ++ out) s'
  Tracks-other i q w out s s' nothing stays sound t = record {
    same = λ d. t.same d ∙ rw (nothing, stays, append-nil w);
    front = t.front;
    suffix = t.suffix ∙ ap (◌++◌ t.front) (sym stays);
    sound = sound;
  }

  Tracks-here :
      (i : ℕ) (sent kept w d out : Text) (s s' : State)
      → out ≡ reidentified vault (split_buffer (held i s.trailing ++ d)).0
      → held i s'.trailing ≡ (split_buffer (held i s.trailing ++ d)).1
      → IsSound vault s'.resolved
      → Tracks i (sent, kept) w s
      → Tracks i (sent, kept ++ d) (w ++ out) s'
  Tracks-here i sent kept w d out s s' flushed holds sound t =
      let h = held i s.trailing in
      let a = (split_buffer (h ++ d)).0 in
      let b = (split_buffer (h ++ d)).1 in
      let (joined, split) = split_buffer_lem (h ++ d) in
      record {
        same = λ e.
            let parts : reidentified vault (h ++ (d ++ e))
                ≡ reidentified vault a ++ reidentified vault (b ++ e) =
              ap (reidentified vault)
                (sym (append_assoc h d e) ∙ ap (λ x. x ++ e) (sym joined) ∙ append_assoc a b e)
              ∙ replace_tokens-append (resolved_text vault) a (b ++ e) (IsSplit-Cuts a b e split) in
            ap (λ x. sent ++ reidentified vault x) (append_assoc kept d e)
            ∙ t.same (d ++ e)
            ∙ ap (◌++◌ w) parts
            ∙ sym (append_assoc w _ _)
            ∙ ap₂ (λ x y. (w ++ x) ++ reidentified vault (y ++ e)) (sym flushed) (sym holds);
        front = t.front ++ a;
        suffix =
            ap (λ x. x ++ d) t.suffix
            ∙ append_assoc t.front h d
            ∙ ap (◌++◌ t.front) (sym joined)
            ∙ sym (append_assoc t.front a b)
            ∙ ap (◌++◌ (t.front ++ a)) (sym holds);
        sound = sound;
      }

  Tracks-stop :
      (i : ℕ) (sent kept w out : Text) (s s' : State)
      → out ≡ reidentified vault (held i s.trailing)
      → held i s'.trailing ≡ []
      → IsSound vault s'.resolved
      → Tracks i (sent, kept) w s
      → Tracks i (sent ++ reidentified vault kept, []) (w ++ out) s'
  Tracks-stop i sent kept w out s s' flushed holds sound t =
      let whole : sent ++ reidentified vault kept ≡ w ++ out =
        ap (λ x. sent ++ reidentified vault x) (sym (append-nil kept))
        ∙ t.same []
        ∙ ap (λ x. w ++ reidentified vault x) (append-nil _)
        ∙ ap (◌++◌ w) (sym flushed) in
      record { same = λ d. rw (whole, holds); front = []; suffix = sym holds; sound = sound }

  pub handle-Tracks :
      (i : ℕ) (e : Event) (q : Text × Text) (w : Text) (s : State)
      → Tracks i q w s
      → Tracks i
          (buffer_event vault i e q)
          (w ++ written i (handle vault e s).0)
          (handle vault e s).1
  unfolding handle held
  handle-Tracks i (text_delta index d) (sent, kept) w s t =
      let j = index_of index in
      let (a, b) = split_buffer (held j s.trailing ++ d) in
      let (same, stays, sound) =
        flush_lem vault i j a (record s { trailing = (j, b) ∷ s.trailing }) t.sound in
      elim (Bool-cases (j == i)) [
        | inl q ↦
            let here : j ≡ i = (==_iff _ _).0 q in
            let flushed = same ∙ (rw q refl) in
            rw q (
              Tracks-here i sent kept w d _ s _
                (flushed
                  ∙ ap (λ k. reidentified vault (split_buffer (held k s.trailing ++ d)).0) here)
                (ap (held i) stays
                  ∙ (rw q (ap (λ k. (split_buffer (held k s.trailing ++ d)).1) here)))
                sound t)
        | inr q ↦ rw q (
            Tracks-other i (sent, kept) w _ s _ (same ∙ (rw q refl))
              (ap (held i) stays ∙ (rw q refl)) sound t)
      ]
  handle-Tracks i (block_stop index) (sent, kept) w s t =
      let j = index_of index in
      let (same, holds, sound) = release_lem vault i j (held j s.trailing) s refl t.sound in
      elim (Bool-cases (j == i)) [
        | inl q ↦
            let here : j ≡ i = (==_iff _ _).0 q in
            rw q (
              Tracks-stop i sent kept w _ s _
                (passed-silent i (release vault j (held j s.trailing) s).0 (block_stop index)
                  ∙ same
                  ∙ (rw q (ap (λ k. reidentified vault (held k s.trailing)) here)))
                (holds ∙ (rw q refl)) sound t)
        | inr q ↦ rw q (
            Tracks-other i (sent, kept) w _ s _
              (passed-silent i (release vault j (held j s.trailing) s).0 (block_stop index)
                ∙ same
                ∙ (rw q refl))
              (holds ∙ (rw q refl)) sound t)
      ]
  handle-Tracks i (other none body) (sent, kept) w s t =
      Tracks-other i (sent, kept) w [] s s refl refl t.sound t
  handle-Tracks i (other (some type) body) (sent, kept) w s t =
      Tracks-other i (sent, kept) w [] s s refl refl t.sound t
