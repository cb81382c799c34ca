-- ===== src/Jobs/Cron.antt =====
-- apps/gateway/src/scan/cron.ts. `Number` of a text is an argument: the natural number that it
-- reads, `none` where it is none; the source refuses negative numbers and fractions alike. A `Date`
-- is its UTC fields and the number of its day since 1970, months counted from 0; what its setters
-- carry over is written out.
pub mod Fields
pub mod Next
pub mod Steps
use vibe_shield.Prelude.{
  ℕ, zero, suc, ◌+◌, ◌-◌, ◌*◌, ◌/◌, ◌%◌, Bool, true, false, ◌&&◌, ◌||◌, not, List, [], ◌∷◌, ◌++◌,
  Option, none, some, Text, codes, same_text, ltb, leb, ◌==◌, any, length, decimal, split_on,
  cut_at, trim, is_space, onto_first, if◌then◌else◌, Result, ok, err, require, or_throw,
}
use vibe_shield.Prelude.{◌>>=◌, ◌>>◌}

pub data CronParseError : Type 0 where
  wrong_field_count : ℕ → CronParseError
  empty_field : Text → CronParseError
  invalid_step invalid_range out_of_range : Text → CronParseError

-- The values of a `FieldSet`.
pub record CronExpr : Type 0 where
  pub minute : List ℕ
  pub hour : List ℕ
  pub dom : List ℕ
  pub month : List ℕ
  pub dow : List ℕ

abbrev pub has : ℕ → List ℕ → Bool
has n = any (λ m. m == n)

-- `out.add`
abbrev pub add : ℕ → List ℕ → List ℕ
add n out = if has n out then out else out ++ n ∷ []

-- The loop that adds each step from `v` to `last`; the fuel is one more than the way to go.
unfoldable pub add_steps : ℕ → ℕ → ℕ → ℕ → List ℕ → List ℕ
add_steps zero v last step out = out
add_steps (suc f) v last step out =
    let rest = add_steps f (v + step) last step (add v out) in if leb v last then rest else out

-- The second of the parts between dashes.
abbrev pub second : List Text → Text
second [] = []
second (a ∷ []) = []
second (a ∷ b ∷ parts) = b

abbrev pub is_empty : List ℕ → Bool
is_empty [] = true
is_empty (n ∷ ns) = false

-- `split(/\s+/)` of a trimmed text: the flag says that the last unit was a space.
abbrev pub split_spaces : Bool → Text → List Text
split_spaces after [] = [] ∷ []
split_spaces after (c ∷ s) =
    let rest = split_spaces (is_space c) s in
    if is_space c then (if after then rest else [] ∷ rest) else onto_first c rest

module _ (number : Text → Option ℕ) where
  -- The step, and what stands before it.
  abbrev pub step_of : Text → Result CronParseError (Text × ℕ)
  step_of part = elim (cut_at b'/' part) [
    | none ↦ ok (part, 1)
    | some (body, text) ↦ elim (number text) [
      | none ↦ err (invalid_step part)
      | some step ↦ if step == 0 then err (invalid_step part) else ok (body, step)
    ]
  ]

  abbrev pub range_of : Text → Text → Text → ℕ → ℕ → Result CronParseError (ℕ × ℕ)
  range_of part s e min max = do
    start ← or_throw (number s) (invalid_range part)
    last ← or_throw (number e) (invalid_range part)
    require (leb min start && (leb last max && leb start last)) (invalid_range part)
    ok (start, last)

  abbrev pub single_of : Text → Text → ℕ → ℕ → Result CronParseError (ℕ × ℕ)
  single_of part body min max = do
    n ← or_throw (number body) (out_of_range part)
    require (leb min n && leb n max) (out_of_range part)
    ok (n, n)

  -- The first and the last value of a part without its step.
  unfoldable pub bounds_of : Text → Text → ℕ → ℕ → Result CronParseError (ℕ × ℕ)
  bounds_of part body min max =
      if same_text body (codes "*") then ok (min, max) else elim (cut_at b'-' body) [
        | none ↦ single_of part body min max
        | some (s, rest) ↦ range_of part s (second (split_on b'-' body)) min max
      ]

  unfoldable pub expand_part : Text → ℕ → ℕ → List ℕ → Result CronParseError (List ℕ)
  expand_part part min max out = do
    stepped ← step_of part
    bounds ← bounds_of part stepped.0 min max
    ok (add_steps (suc (bounds.1 - bounds.0)) bounds.0 bounds.1 stepped.1 out)

  unfoldable pub expand_parts : List Text → ℕ → ℕ → List ℕ → Result CronParseError (List ℕ)
  expand_parts [] min max out = ok out
  expand_parts (part ∷ parts) min max out = do
    out' ← expand_part part min max out
    expand_parts parts min max out'

  unfoldable pub parse_field : Text → ℕ → ℕ → Result CronParseError (List ℕ)
  parse_field raw min max = do
    out ← expand_parts (split_on b',' raw) min max []
    require (not (is_empty out)) (empty_field raw)
    ok out

  abbrev pub parse_fields : List Text → Result CronParseError CronExpr
  parse_fields (a ∷ b ∷ c ∷ d ∷ e ∷ []) = do
    minute ← parse_field a 0 59
    hour ← parse_field b 0 23
    dom ← parse_field c 1 31
    month ← parse_field d 1 12
    dow ← parse_field e 0 6
    ok (record { minute = minute; hour = hour; dom = dom; month = month; dow = dow })
  parse_fields parts = err (wrong_field_count (length parts))

  unfoldable pub parse_cron : Text → Result CronParseError CronExpr
  parse_cron expr = parse_fields (split_spaces false (trim expr))

-- A `Date` to the minute.
pub record Moment : Type 0 where
  pub year : ℕ
  pub month : ℕ
  pub dom : ℕ
  pub hour : ℕ
  pub minute : ℕ
  pub day : ℕ

-- Minutes since 1970.
abbrev pub time : Moment → ℕ
time m = m.day * 1440 + m.hour * 60 + m.minute

-- 1970 began on a Thursday.
abbrev pub dow_of : Moment → ℕ
dow_of m = (m.day + 4) % 7

abbrev pub is_leap : ℕ → Bool
is_leap y = (y % 4 == 0) && (not (y % 100 == 0) || y % 400 == 0)

abbrev pub days_in_month : ℕ → ℕ → ℕ
days_in_month y m =
    if m == 1
    then (if is_leap y then 29 else 28)
    else if (m == 3) || (m == 5) || (m == 8) || (m == 10)
    then 30
    else 31

-- setUTCMonth(month + 1, 1), then midnight.
unfoldable pub next_month : Moment → Moment
next_month m = record {
  year = if m.month == 11 then suc m.year else m.year;
  month = if m.month == 11 then 0 else suc m.month;
  dom = 1;
  hour = 0;
  minute = 0;
  day = m.day + (suc (days_in_month m.year m.month) - m.dom);
}

-- setUTCDate(dom + 1), then midnight.
unfoldable pub next_day : Moment → Moment
next_day m =
    if ltb m.dom (days_in_month m.year m.month)
    then record m { dom = suc m.dom; hour = 0; minute = 0; day = suc m.day }
    else next_month m

-- setUTCHours(hour + 1, 0, 0, 0)
unfoldable pub next_hour : Moment → Moment
next_hour m = if m.hour == 23 then next_day m else record m { hour = suc m.hour; minute = 0 }

-- setUTCMinutes(minute + 1, 0, 0)
unfoldable pub next_minute : Moment → Moment
next_minute m = if m.minute == 59 then next_hour m else record m { minute = suc m.minute }

-- One turn of the loop: where to go on, or that the moment is the one.
unfoldable pub skip : CronExpr → Moment → Option Moment
skip e m =
    if not (has (suc m.month) e.month)
    then some (next_month m)
    else if not (has m.dom e.dom) || not (has (dow_of m) e.dow)
    then some (next_day m)
    else if not (has m.hour e.hour)
    then some (next_hour m)
    else if not (has m.minute e.minute)
    then some (next_minute m)
    else none

unfoldable pub search : CronExpr → ℕ → ℕ → Moment → Option Moment
search e horizon zero m = none
search e horizon (suc f) m =
    if ltb (time m) horizon
    then elim (skip e m) [ none ↦ some m | some next ↦ search e horizon f next ]
    else none

abbrev pub horizon_minutes : ℕ
horizon_minutes = 4 * 366 * 24 * 60

-- Each turn gains a minute, so that the fuel is the way to the horizon.
unfoldable pub next_after : CronExpr → Moment → Option Moment
next_after e from =
    let start = next_minute from in search e (time start + horizon_minutes) horizon_minutes start

unfoldable pub next_run : (Text → Option ℕ) → Text → Moment → Result CronParseError (Option Moment)
next_run number expr from = do e ← parse_cron number expr; ok (next_after e from)
