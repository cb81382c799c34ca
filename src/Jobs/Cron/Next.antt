-- ===== src/Jobs/Cron/Next.antt =====
-- The next run: the first minute that matches.
use vibe_shield.Prelude.{
  ℕ, zero, suc, ◌+◌, ◌-◌, ◌≤◌, ◌<◌, ◌≡◌, refl, sym, ap, subst, ◌⊎◌, inl, inr, Bool, true, false,
  ◌&&◌, Option, none, some, ltb, ◌==◌, if◌then◌else◌, Bool-cases, arith,
}
use vibe_shield.Jobs.Cron.{
  CronExpr, has, Moment, time, dow_of, days_in_month, next_month, next_day, next_hour, next_minute,
  skip, search, next_after, horizon_minutes,
}

-- The fields of a date.
pub record IsMoment (m : Moment) : Type 0 where
  pub minute_bound : m.minute ≤ 59
  pub hour_bound : m.hour ≤ 23
  pub dom_bound : m.dom ≤ days_in_month m.year m.month

abbrev pub matches : CronExpr → Moment → Bool
matches e m =
    has (suc m.month) e.month
    && (has m.dom e.dom && (has (dow_of m) e.dow && (has m.hour e.hour && has m.minute e.minute)))

-- From one moment to another, minute by minute, past moments that do not match.
pub data Passes (e : CronExpr) : Moment → Moment → Type 0 where
  here : (m : Moment) → Passes e m m
  past : (m : Moment) {n : Moment} → matches e m ≡ false → Passes e (next_minute m) n → Passes e m n

Passes-trans : (e : CronExpr) {l m n : Moment} → Passes e l m → Passes e m n → Passes e l n
Passes-trans e (here m) q = q
Passes-trans e (past m h p) q = past m h (Passes-trans e p q)

-- The rest of an hour.
Passes-next_hour :
    (e : CronExpr) (k : ℕ) (m : Moment)
    → m.minute + k ≡ 59
    → ((i : ℕ) → matches e (record m { minute = i }) ≡ false)
    → Passes e m (next_hour m)
unfolding next_minute next_hour next_day next_month
Passes-next_hour e zero m h off =
    let last : (m.minute == 59) ≡ true = ground arith in
    past m (off m.minute) (
      subst (λ n. Passes e n (next_hour m))
        (sym (ap (λ b. if b then next_hour m else record m { minute = suc m.minute }) last))
        (here (next_hour m)))
Passes-next_hour e (suc k) m h off =
    let more : (m.minute == 59) ≡ false = ground arith in
    let rest : Passes e (record m { minute = suc m.minute }) (next_hour m) =
      Passes-next_hour e k (record m { minute = suc m.minute }) (omega arith) off in
    past m (off m.minute) (
      subst (λ n. Passes e n (next_hour m))
        (sym (ap (λ b. if b then next_hour m else record m { minute = suc m.minute }) more)) rest)

-- The rest of a day.
Passes-next_day :
    (e : CronExpr) (k : ℕ) (m : Moment)
    → m.minute ≤ 59
    → m.hour + k ≡ 23
    → ((h i : ℕ) → matches e (record m { hour = h; minute = i }) ≡ false)
    → Passes e m (next_day m)
unfolding next_hour next_day next_month
Passes-next_day e zero m b h off =
    let last : (m.hour == 23) ≡ true = ground arith in
    subst (λ n. Passes e m n)
      (ap (λ b. if b then next_day m else record m { hour = suc m.hour; minute = 0 }) last)
      (Passes-next_hour e (59 - m.minute) m (omega arith) (off m.hour))
Passes-next_day e (suc k) m b h off =
    let more : (m.hour == 23) ≡ false = ground arith in
    Passes-trans e
      (subst (λ n. Passes e m n)
        (ap (λ b. if b then next_day m else record m { hour = suc m.hour; minute = 0 }) more)
        (Passes-next_hour e (59 - m.minute) m (omega arith) (off m.hour)))
      (Passes-next_day e k (record m { hour = suc m.hour; minute = 0 }) (omega arith) (omega arith)
        off)

-- The rest of a month.
Passes-next_month :
    (e : CronExpr) (k : ℕ) (m : Moment)
    → m.minute ≤ 59
    → m.hour ≤ 23
    → m.dom + k ≡ days_in_month m.year m.month
    → ((d h i n : ℕ) → matches e (record m { dom = d; hour = h; minute = i; day = n }) ≡ false)
    → Passes e m (next_month m)
unfolding next_day next_month
Passes-next_month e zero m b c h off =
    let last : ltb m.dom (days_in_month m.year m.month) ≡ false = ground arith in
    subst (λ n. Passes e m n)
      (ap
        (λ b.
          if b
          then record m { dom = suc m.dom; hour = 0; minute = 0; day = suc m.day }
          else next_month m)
        last)
      (Passes-next_day e (23 - m.hour) m b (omega arith) (λ g i. off m.dom g i m.day))
Passes-next_month e (suc k) m b c h off =
    let more : ltb m.dom (days_in_month m.year m.month) ≡ true = ground arith in
    let tomorrow : Moment = record m { dom = suc m.dom; hour = 0; minute = 0; day = suc m.day } in
    let same : next_month tomorrow ≡ next_month m = ap at (omega arith) in
    Passes-trans e
      (subst (λ n. Passes e m n)
        (ap
          (λ b.
            if b
            then record m { dom = suc m.dom; hour = 0; minute = 0; day = suc m.day }
            else next_month m)
          more)
        (Passes-next_day e (23 - m.hour) m b (omega arith) (λ g i. off m.dom g i m.day)))
      (subst (λ n. Passes e tomorrow n) same
        (Passes-next_month e k tomorrow (omega arith) (omega arith) (omega arith) off))
  where
    at : ℕ → Moment
    at n = record {
      year = if m.month == 11 then suc m.year else m.year;
      month = if m.month == 11 then 0 else suc m.month;
      dom = 1;
      hour = 0;
      minute = 0;
      day = n;
    }

-- A turn of the loop passes moments that do not match, and gains time.
pub record Gains (e : CronExpr) (m n : Moment) : Type 0 where
  pub passes : Passes e m n
  pub valid : IsMoment n
  pub later : time m < time n

days_in_month_pos : (y m : ℕ) → 1 ≤ days_in_month y m
days_in_month_pos y m = ground arith

next_month-valid :
    (m : Moment) → IsMoment m → IsMoment (next_month m) × (time m < time (next_month m))
unfolding next_month
next_month-valid m v = (
  record {
    minute_bound = omega arith;
    hour_bound = omega arith;
    dom_bound =
        days_in_month_pos (if m.month == 11 then suc m.year else m.year)
          (if m.month == 11 then 0 else suc m.month);
  },
  omega (arith, v.minute_bound, v.hour_bound, v.dom_bound),
)

next_day-valid : (m : Moment) → IsMoment m → IsMoment (next_day m) × (time m < time (next_day m))
unfolding next_day
next_day-valid m v = elim (Bool-cases (ltb m.dom (days_in_month m.year m.month))) [
  | inl more ↦ rw more (
    record { minute_bound = omega arith; hour_bound = omega arith; dom_bound = ground arith },
    omega (arith, v.minute_bound, v.hour_bound),
  )
  | inr last ↦ rw last (next_month-valid m v)
]

next_hour-valid : (m : Moment) → IsMoment m → IsMoment (next_hour m) × (time m < time (next_hour m))
unfolding next_hour
next_hour-valid m v = elim (Bool-cases (m.hour == 23)) [
  | inl last ↦ rw last (next_day-valid m v)
  | inr more ↦ rw more (
    record {
      minute_bound = omega arith;
      hour_bound = ground (arith, v.hour_bound);
      dom_bound = v.dom_bound;
    },
    omega (arith, v.minute_bound),
  )
]

next_minute-valid :
    (m : Moment) → IsMoment m → IsMoment (next_minute m) × (time m < time (next_minute m))
unfolding next_minute
next_minute-valid m v = elim (Bool-cases (m.minute == 59)) [
  | inl last ↦ rw last (next_hour-valid m v)
  | inr more ↦ rw more (
    record {
      minute_bound = ground (arith, v.minute_bound);
      hour_bound = v.hour_bound;
      dom_bound = v.dom_bound;
    },
    omega arith,
  )
]

gains : {e : CronExpr} {m n : Moment} → Passes e m n → IsMoment n × (time m < time n) → Gains e m n
gains p (v, l) = record { passes = p; valid = v; later = l }

-- Either the moment matches, or the loop goes on past moments that do not.
skip-cases :
    (e : CronExpr) (m : Moment)
    → IsMoment m
    → ((skip e m ≡ none) × (matches e m ≡ true))
      ⊎ ((n : Moment) × (skip e m ≡ some n) × Gains e m n)
unfolding skip
skip-cases e m v = elim (Bool-cases (has (suc m.month) e.month)) [
  | inr a ↦ inr (
    next_month m,
    rw a refl,
    gains
        (Passes-next_month e (days_in_month m.year m.month - m.dom) m v.minute_bound v.hour_bound
          (omega (arith, v.dom_bound)) (λ d h i n. rw a refl))
        (next_month-valid m v),
  )
  | inl a ↦ elim (Bool-cases (has m.dom e.dom && has (dow_of m) e.dow)) [
    | inr b ↦ inr (
      next_day m,
      ground arith,
      gains
          (Passes-next_day e (23 - m.hour) m v.minute_bound (omega (arith, v.hour_bound))
            (λ h i. ground arith))
          (next_day-valid m v),
    )
    | inl b ↦ elim (Bool-cases (has m.hour e.hour)) [
      | inr c ↦ inr (
        next_hour m,
        ground arith,
        gains
            (Passes-next_hour e (59 - m.minute) m (omega (arith, v.minute_bound))
              (λ i. ground arith))
            (next_hour-valid m v),
      )
      | inl c ↦ elim (Bool-cases (has m.minute e.minute)) [
        | inr d ↦ inr (
          next_minute m,
          ground arith,
          gains (past m (ground arith) (here (next_minute m))) (next_minute-valid m v),
        )
        | inl d ↦ inl (ground arith, ground arith)
      ]
    ]
  ]
]

-- What the search finds is the first moment that matches, before the horizon; where it finds none
-- and had the fuel, no moment before the horizon matches.
unfoldable pub Searched : CronExpr → ℕ → Moment → Option Moment → Type 0
Searched e horizon m (some n) =
    Passes e m n × (matches e n ≡ true) × (time m ≤ time n) × (time n < horizon)
Searched e horizon m none = (n : Moment) × Passes e m n × (horizon ≤ time n)

Searched-past :
    (e : CronExpr) (horizon : ℕ) (l m : Moment) (r : Option Moment)
    → Gains e l m
    → Searched e horizon m r
    → Searched e horizon l r
unfolding Searched
Searched-past e horizon l m (some n) g (p, t, a, b) =
    (Passes-trans e g.passes p, t, omega (arith, a, g.later), b)
Searched-past e horizon l m none g (n, p, b) = (n, Passes-trans e g.passes p, b)

pub search-Searched :
    (e : CronExpr) (horizon f : ℕ) (m : Moment)
    → IsMoment m
    → horizon ≤ time m + f
    → Searched e horizon m (search e horizon f m)
unfolding search Searched
search-Searched e horizon zero m v h = (m, here m, omega arith)
search-Searched e horizon (suc f) m v h = elim (Bool-cases (ltb (time m) horizon)) [
  | inr over ↦ rw over (m, here m, ground arith)
  | inl on ↦ elim (skip-cases e m v) [
    | inl (q, t) ↦ rw on (rw (q, search) (here m, t, omega arith, ground arith))
    | inr (n, q, g) ↦ rw on (
        rw (q, search)
          (Searched-past e horizon m n (search e horizon f n) g
            (search-Searched e horizon f n g.valid (omega (arith, g.later, h)))))
  ]
]

-- The next run after a moment is the first minute behind it that matches the expression; there is
-- none only where no minute of the next 1464 days matches.
pub next_after-Searched :
    (e : CronExpr) (from : Moment)
    → IsMoment from
    → (time from < time (next_minute from))
      × Searched e
          (time (next_minute from) + horizon_minutes)
          (next_minute from)
          (next_after e from)
unfolding next_after
next_after-Searched e from v =
    let (valid, later) = next_minute-valid from v in
    (
      later,
      search-Searched e (time (next_minute from) + horizon_minutes) horizon_minutes
          (next_minute from) valid (omega arith),
    )
