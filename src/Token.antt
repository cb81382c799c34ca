-- ===== src/Token.antt =====
-- The vault's token text: how `TokenVault.allocate` spells it
-- (packages/schema/src/vault/token-vault.ts), and how `TOKEN_RE`, the regular expression
-- /<([A-Z][A-Z_]*?)_(\d+)>/g of apps/gateway/src/proxy/reidentifier.ts and streaming.ts and of
-- routes/materialize.ts, finds it in a text. A match is computed by recursion on the text;
-- `\d` is an ASCII digit, as in a regular expression with no `u` flag.
pub mod Matching
pub mod Injective
pub mod Split
pub mod Replace
use mathlib.Core.Option
use vibe_shield.Prelude.{
  ℕ, zero, suc, ◌+◌, ◌-◌, Bool, ◌&&◌, ◌||◌, List, [], ◌∷◌, ◌++◌, Option, none, some, Text, leb,
  ◌==◌, if◌then◌else◌, is_digit, take, decimal,
}

-- `<${entityType}_${n.toString()}>`
unfoldable pub format_token : Text → ℕ → Text
format_token entity n = b'<' ∷ (entity ++ (b'_' ∷ (decimal n ++ b'>' ∷ [])))

abbrev pub is_upper : ℕ → Bool
is_upper c = leb b'A' c && leb c b'Z'

-- [A-Z_]
abbrev pub is_name_char : ℕ → Bool
is_name_char c = is_upper c || c == b'_'

-- `\d*>`: how many units it takes.
unfoldable pub closing : Text → Option ℕ
closing [] = none
closing (c ∷ s) =
    let more = Option.map suc (closing s) in
    if is_digit c then more else if c == b'>' then some 1 else none

unfoldable pub digits_at : Text → Option ℕ
digits_at [] = none
digits_at (d ∷ s) = if is_digit d then Option.map suc (closing s) else none

-- `_(\d+)>`
unfoldable pub numbered : Text → Option ℕ
numbered [] = none
numbered (u ∷ s) = if u == b'_' then Option.map suc (digits_at s) else none

abbrev pub longer : ℕ → Text × ℕ → Text × ℕ
longer c (name, n) = (c ∷ name, suc n)

abbrev pub lazy_end : Option ℕ → Option (Text × ℕ) → Option (Text × ℕ)
lazy_end none more = more
lazy_end (some n) more = some ([], n)

-- `([A-Z_]*?)_(\d+)>`: the group, and how many units are taken. The group is lazy: the end is tried
-- before one more unit.
unfoldable pub named : Text → Option (Text × ℕ)
named [] = none
named (c ∷ s) =
    let more = Option.map (longer c) (named s) in
    lazy_end (numbered (c ∷ s)) (if is_name_char c then more else none)

unfoldable pub first_name : Text → Option (Text × ℕ)
first_name [] = none
first_name (c ∷ s) = if is_upper c then Option.map (longer c) (named s) else none

abbrev pub one_more : Text × ℕ → Text × ℕ
one_more (name, n) = (name, suc n)

-- A match of TOKEN_RE at the start of a text: group 1 and the length of the match.
unfoldable pub token_at : Text → Option (Text × ℕ)
token_at [] = none
token_at (c ∷ s) = if c == b'<' then Option.map one_more (first_name s) else none

-- What a global search makes of a text: the tokens that it matches, and the units between them.
pub data Piece : Type 0 where
  unit : ℕ → Piece
  token : Text → Text → Piece

-- The search goes on behind a match: the first argument counts the units still to be passed over.
unfoldable pub pieces_from : ℕ → Text → List Piece
pieces_from skip [] = []
pieces_from (suc skip) (c ∷ s) = pieces_from skip s
pieces_from zero (c ∷ s) = elim (token_at (c ∷ s)) [
  | none ↦ unit c ∷ pieces_from 0 s
  | some (name, n) ↦ token name (take n (c ∷ s)) ∷ pieces_from (n - 1) s
]

abbrev pub pieces : Text → List Piece
pieces s = pieces_from 0 s

-- `[...text.matchAll(TOKEN_RE)].map((m) => m[0])`
unfoldable pub tokens_of : List Piece → List Text
tokens_of [] = []
tokens_of (unit c ∷ ps) = tokens_of ps
tokens_of (token name whole ∷ ps) = whole ∷ tokens_of ps

unfoldable pub render : (Text → Text) → List Piece → Text
render f [] = []
render f (unit c ∷ ps) = c ∷ render f ps
render f (token name whole ∷ ps) = f whole ++ render f ps

-- `text.replace(TOKEN_RE, f)`
unfoldable pub replace_tokens : (Text → Text) → Text → Text
replace_tokens f s = render f (pieces s)
