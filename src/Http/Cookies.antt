-- ===== src/Http/Cookies.antt =====
-- apps/gateway/src/auth/cookie.ts. `encodeURIComponent`, `decodeURIComponent` (`none` where it
-- throws) and `toUTCString` are arguments; a header is its text. A client sends back the name and
-- the value of a cookie, and separates cookies by a semicolon and a space.
use vibe_shield.Prelude.{
  split_on-append, map, All, sym, append_assoc, trim-space, ℕ, ◌≡◌, refl, ap, ◌∙◌, Bool, false,
  List, [], ◌∷◌, ◌++◌, Option, none, some, Text, codes, same_text, cut_at, cut_at-append, split_on,
  split_on-IsFree, trim, trim-HasNoSpace, IsFree, HasNoSpace, ◌==◌, if◌then◌else◌, All-append,
  all-All, is_space,
}
use vibe_shield.Http.Errors.{join}

abbrev pub session_cookie_name : Text
session_cookie_name = codes "vs_session"

abbrev pub attributes : Bool → List Text
attributes secure =
    codes "Path=/"
    ∷ codes "HttpOnly"
    ∷ codes "SameSite=Lax"
    ∷ (if secure then codes "Secure" ∷ [] else [])

module _ (encode : Text → Text) (utc : ℕ → Text) where
  -- The value of the header `Set-Cookie`.
  unfoldable pub set_session_cookie : Text → Bool → ℕ → Text
  set_session_cookie token secure expires = join (codes "; ") (
      (session_cookie_name ++ b'=' ∷ encode token)
      ∷ (codes "Expires=" ++ utc expires)
      ∷ attributes secure)

unfoldable pub clear_session_cookie : Bool → Text
clear_session_cookie secure = join (codes "; ") (
    (session_cookie_name ++ b'=' ∷ [])
    ∷ codes "Expires=Thu, 01 Jan 1970 00:00:00 GMT"
    ∷ attributes secure)

module _ (decode : Text → Option Text) where
  -- The loop over the parts of the header.
  unfoldable pub find_session : List Text → Option Text
  find_session [] = none
  find_session (part ∷ parts) =
      let rest = find_session parts in
      elim (cut_at b'=' (trim part)) [
        | none ↦ rest
        | some (name, value) ↦ if same_text name session_cookie_name then decode value else rest
      ]

  unfoldable pub read_session_cookie : Option Text → Option Text
  read_session_cookie none = none
  read_session_cookie (some []) = none
  read_session_cookie (some (c ∷ s)) = find_session (split_on b';' (c ∷ s))

  -- The first pair of `Set-Cookie`, which is what a client sends back.
  abbrev pub sent_back : Text → Text
  sent_back header = elim (cut_at b';' header) [ none ↦ header | some (pair, rest) ↦ pair ]

  -- A cookie with its name and value, as a client sends it.
  abbrev pub pair_of : Text × Text → Text
  pair_of (name, value) = name ++ b'=' ∷ value

  -- A cookie that is not the session's.
  abbrev pub IsOther : Text × Text → Type 0
  IsOther (name, value) =
      (same_text name session_cookie_name ≡ false)
      × IsFree b'=' name
      × IsFree b';' (pair_of (name, value))
      × HasNoSpace (pair_of (name, value))

  -- A part of the header with what stands in front of it: nothing, or a space.
  IsMargin : Text → Type 0
  IsMargin margin = IsFree b';' margin × ((s : Text) → HasNoSpace s → trim (margin ++ s) ≡ s)

  space-IsMargin : IsMargin (codes " ")
  unfolding IsMargin
  space-IsMargin = ((refl, tt), trim-space)

  none-IsMargin : IsMargin []
  unfolding IsMargin
  none-IsMargin = (tt, trim-HasNoSpace)

  margin-IsFree : (margin : Text) → IsMargin margin → IsFree b';' margin
  unfolding IsMargin
  margin-IsFree margin m = m.0

  trim-margin :
      (margin : Text) → IsMargin margin → (s : Text) → HasNoSpace s → trim (margin ++ s) ≡ s
  unfolding IsMargin
  trim-margin margin m = m.1

  join_more :
      (t : Text) (ts : List Text) (s : Text) (after : List Text)
      → join (codes "; ") (t ∷ (ts ++ s ∷ after))
        ≡ t ++ (codes "; " ++ join (codes "; ") (ts ++ s ∷ after))
  join_more t [] s after = refl
  join_more t (u ∷ ts) s after = refl

  find_session-split_on :
      (margin s : Text) (after : List Text)
      → IsMargin margin
      → IsFree b';' s
      → HasNoSpace s
      → (parts : List Text) × (split_on b';' (margin ++ join (codes "; ") (s ∷ after))
          ≡ (margin ++ s) ∷ parts)
        × (trim (margin ++ s) ≡ s)
  unfolding IsMargin
  find_session-split_on margin s [] (free, trims) fs ns = (
    [],
    split_on-IsFree b';' (margin ++ s) (All-append (λ d. (d == b';') ≡ false) margin s free fs),
    trims s ns,
  )
  find_session-split_on margin s (t ∷ after) (free, trims) fs ns = (
    split_on b';' (codes " " ++ join (codes "; ") (t ∷ after)),
    ap (split_on b';') (sym (append_assoc margin s _))
        ∙ split_on-append b';' (margin ++ s) (codes " " ++ join (codes "; ") (t ∷ after))
            (All-append (λ d. (d == b';') ≡ false) margin s free fs),
    trims s ns,
  )

  -- The session's cookie is found behind others.
  find_session-others :
      (margin : Text) (others : List (Text × Text)) (s value : Text) (after : List Text)
      → IsMargin margin
      → All IsOther others
      → IsFree b';' s
      → HasNoSpace s
      → cut_at b'=' s ≡ some (session_cookie_name, value)
      → find_session (split_on b';' (margin ++ join (codes "; ") (map pair_of others ++ s ∷ after)))
        ≡ decode value
  unfolding find_session
  find_session-others margin [] s value after m h fs ns cut =
      let (parts, split, trimmed) = find_session-split_on margin s after m fs ns in
      ap find_session split
      ∙ rw (trimmed, find_session) (rw (cut, find_session) (unfold same_text in refl))
  find_session-others margin ((n, v) ∷ others) s value after m ((other, fn, fp, np), h) fs ns cut =
      let rest = join (codes "; ") (map pair_of others ++ s ∷ after) in
      let split : split_on b';' (margin ++ (pair_of (n, v) ++ (codes "; " ++ rest)))
          ≡ (margin ++ pair_of (n, v)) ∷ split_on b';' (codes " " ++ rest) =
        ap (split_on b';') (sym (append_assoc margin (pair_of (n, v)) _))
        ∙ split_on-append b';' (margin ++ pair_of (n, v)) (codes " " ++ rest) (
            All-append (λ d. (d == b';') ≡ false) margin (pair_of (n, v)) (margin-IsFree margin m)
              fp) in
      ap (λ t. find_session (split_on b';' (margin ++ t)))
        (join_more (pair_of (n, v)) (map pair_of others) s after)
      ∙ ap find_session split
      ∙ rw (trim-margin margin m (pair_of (n, v)) np, find_session)
          (rw (cut_at-append b'=' n v fn, find_session)
            (rw (other, find_session)
              (find_session-others (codes " ") others s value after space-IsMargin h fs ns cut)))

  read_session_cookie-find_session :
      (s : Text) → read_session_cookie (some s) ≡ find_session (split_on b';' s)
  unfolding read_session_cookie find_session
  read_session_cookie-find_session [] = refl
  read_session_cookie-find_session (c ∷ s) = refl

  -- The token of a session cookie that was set is read from the header that a client sends back, in
  -- which it stands behind any cookies of other names and in front of any other parts, where
  -- decoding undoes the encoding, neither the encoded token nor the cookies in front have a space or
  -- a semicolon, and the names in front have no equals sign.
  pub read_session_cookie-set_session_cookie :
      (encode : Text → Text) (utc : ℕ → Text) (token : Text) (secure : Bool) (expires : ℕ)
      (others : List (Text × Text)) (after : List Text)
      → decode (encode token) ≡ some token
      → HasNoSpace (encode token)
      → IsFree b';' (encode token)
      → All IsOther others
      → read_session_cookie (
          some (
            join (codes "; ") (
              map pair_of others
              ++ sent_back (set_session_cookie encode utc token secure expires) ∷ after)))
        ≡ some token
  unfolding set_session_cookie
  read_session_cookie-set_session_cookie encode utc token secure expires others after round space
        free h =
      rw (cut_at-append b';' (codes "vs_session=" ++ encode token) _ pair_free) (
        read_session_cookie-find_session _
        ∙ find_session-others [] others (codes "vs_session=" ++ encode token) (encode token) after
            none-IsMargin h pair_free pair_space refl
        ∙ round)
    where
      pair_free : IsFree b';' (codes "vs_session=" ++ encode token)
      pair_free =
          All-append (λ d. (d == b';') ≡ false) (codes "vs_session=") (encode token)
            (all-All (λ d. d == b';') (codes "vs_session=") refl) free

      pair_space : HasNoSpace (codes "vs_session=" ++ encode token)
      pair_space =
          All-append (λ d. is_space d ≡ false) (codes "vs_session=") (encode token)
            (all-All is_space (codes "vs_session=") refl) space
