-- ===== src/Vault/Audit/Digest.antt =====
-- The daily digest pins down the payload hashes and the ids of its day.
use vibe_shield.Prelude.{
  ℕ, ◌≡◌, refl, sym, ap, ap₂, ◌∙◌, List, [], ◌∷◌, ◌++◌, map, Text, length, take, drop,
  take-append_length, drop-append_length, length-append, All, select, arith,
}
use vibe_shield.Vault.Audit.{
  AuditRow, digest_input, is_on_day, is_earlier, order_by, compute_daily_digest,
}

-- What the digest reads of a row.
abbrev pub digested : (Text → Text) → AuditRow → Text × Text
digested encode r = (r.payload_hash, encode r.id)

-- A hash has 32 bytes, and a uuid 36.
abbrev pub IsSized : (Text → Text) → AuditRow → Type 0
IsSized encode r = (length r.payload_hash ≡ 32) × (length (encode r.id) ≡ 36)

append_cancel : (a b s t : Text) → length a ≡ length b → a ++ s ≡ b ++ t → (a ≡ b) × (s ≡ t)
append_cancel a b s t n e = (
  sym (take-append_length a s) ∙ ap (take (length a)) e ∙ rw n (take-append_length b t),
  sym (drop-append_length a s) ∙ ap (drop (length a)) e ∙ rw n (drop-append_length b t),
)

digest_input_injective :
    (encode : Text → Text) (rs ss : List AuditRow)
    → All (IsSized encode) rs
    → All (IsSized encode) ss
    → digest_input encode rs ≡ digest_input encode ss
    → map (digested encode) rs ≡ map (digested encode) ss
digest_input_injective encode [] [] h k e = refl
digest_input_injective encode [] (s ∷ ss) h ((n, m), k) e = absurd (
    omega
      (arith, ap length e, length-append s.payload_hash (encode s.id ++ digest_input encode ss)))
digest_input_injective encode (r ∷ rs) [] ((n, m), h) k e = absurd (
    omega
      (arith, ap length e, length-append r.payload_hash (encode r.id ++ digest_input encode rs)))
digest_input_injective encode (r ∷ rs) (s ∷ ss) ((n, m), h) ((n', m'), k) e =
    let (hash, rest) = append_cancel r.payload_hash s.payload_hash _ _ (n ∙ sym n') e in
    let (id, tail) = append_cancel (encode r.id) (encode s.id) _ _ (m ∙ sym m') rest in
    ap₂ ◌∷◌ (ap₂ (λ x y. (x, y)) hash id) (digest_input_injective encode rs ss h k tail)

-- Where SHA-256 is collision free, hashes have 32 bytes and encoded ids 36, two tables with one digest
-- for a day have on it the same sequence of payload hashes and encoded ids, in order of time and id.
pub compute_daily_digest_injective :
    (sha256 encode : Text → Text) (date : ℕ) (rows rows' : List AuditRow)
    → ((a b : Text) → sha256 a ≡ sha256 b → a ≡ b)
    → All (IsSized encode) (order_by is_earlier (select (is_on_day date) rows))
    → All (IsSized encode) (order_by is_earlier (select (is_on_day date) rows'))
    → compute_daily_digest sha256 encode date rows ≡ compute_daily_digest sha256 encode date rows'
    → map (digested encode) (order_by is_earlier (select (is_on_day date) rows))
      ≡ map (digested encode) (order_by is_earlier (select (is_on_day date) rows'))
unfolding compute_daily_digest
compute_daily_digest_injective sha256 encode date rows rows' free h k e =
    digest_input_injective encode _ _ h k (free _ _ e)
