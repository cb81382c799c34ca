-- ===== src/Jobs/RedactJobs/Reaped.antt =====
-- The recovery of orphaned jobs, and the retry of a failed one.
use vibe_shield.Prelude.{
  Option, none, some, ◌-◌, ◌*◌, ◌<◌, ◌↔◌, ◌⊎◌, codes, and_right, ℕ, ◌+◌, ◌≡◌, refl, ap, true, false,
  List, [], ◌∷◌, Text, length, select, update, any, if◌then◌else◌, arith, Bool-cases, inl, inr,
  find?-update, and_left, ap₂, select-any-false, update_none,
}
use mathlib.Core.Option
use vibe_shield.Jobs.ScanJobs.{Status, pending, running, completed, failed}
use vibe_shield.Jobs.RedactJobs.{
  RedactJob, is_before, is_job, is_running, find_by_id, is_stale, as_failed, reap_stale_running,
}

no_stale :
    (seconds now : ℕ) (jobs : List RedactJob)
    → any (is_stale seconds now) (update (is_stale seconds now) (as_failed now) jobs) ≡ false
no_stale seconds now [] = refl
no_stale seconds now (j ∷ jobs) = elim (Bool-cases (is_stale seconds now j)) [
  | inl hit ↦ rw hit (no_stale seconds now jobs)
  | inr miss ↦ rw miss (rw (miss, no_stale seconds now jobs) refl)
]

running_left :
    (seconds now : ℕ) (jobs : List RedactJob)
    → length (select (is_stale seconds now) jobs)
        + length
            (select (λ j. is_running j.status) (update (is_stale seconds now) (as_failed now) jobs))
      ≡ length (select (λ j. is_running j.status) jobs)
running_left seconds now [] = omega arith
running_left seconds now (j ∷ jobs) =
    let rest = running_left seconds now jobs in
    elim (Bool-cases (is_stale seconds now j)) [
      | inl hit ↦
          let runs : is_running j.status ≡ true = and_left _ _ hit in
          rw hit (rw runs (omega (arith, rest)))
      | inr miss ↦ elim (Bool-cases (is_running j.status)) [
        | inl runs ↦ rw miss (rw runs (omega (arith, rest)))
        | inr rests ↦ rw miss (rw rests rest)
      ]
    ]

-- A job that was running, and whose start is not known or is longer ago than the given seconds.
abbrev pub IsOrphaned : ℕ → ℕ → RedactJob → Type 0
IsOrphaned seconds now j =
    (j.status ≡ running)
    × ((j.started_at ≡ none) ⊎ ((t : ℕ) × (j.started_at ≡ some t) × (t + seconds * 1000 < now)))

-- A job and what a recovery makes of it: an orphan is failed, with the reason, and any other is kept.
abbrev pub IsRecovered : ℕ → ℕ → RedactJob → RedactJob → Type 0
IsRecovered seconds now j j' =
    (IsOrphaned seconds now j
      × (j' ≡ record j {
        status = failed;
        finished_at = some now;
        error_message = some (codes "gateway restarted while job was running");
      }))
    ⊎ (¬ IsOrphaned seconds now j × (j' ≡ j))

abbrev pub AreRecovered : ℕ → ℕ → List RedactJob → List RedactJob → Type 0
AreRecovered seconds now [] [] = Unit
AreRecovered seconds now (j ∷ jobs) (j' ∷ jobs') =
    IsRecovered seconds now j j' × AreRecovered seconds now jobs jobs'
AreRecovered seconds now [] (j' ∷ jobs') = ⊥
AreRecovered seconds now (j ∷ jobs) [] = ⊥

is_running_iff : (s : Status) → (is_running s ≡ true) ↔ (s ≡ running)
is_running_iff running = (λ h. refl, λ h. refl)
is_running_iff pending = (λ h. absurd cc, λ h. absurd cc)
is_running_iff completed = (λ h. absurd cc, λ h. absurd cc)
is_running_iff failed = (λ h. absurd cc, λ h. absurd cc)

is_before_iff :
    (seconds now : ℕ) (started_at : Option ℕ)
    → (is_before (now - seconds * 1000) started_at ≡ true)
      ↔ ((started_at ≡ none) ⊎ ((t : ℕ) × (started_at ≡ some t) × (t + seconds * 1000 < now)))
is_before_iff seconds now none = (λ h. inl refl, λ h. refl)
is_before_iff seconds now (some t) = (
  λ h. inr (t, refl, ground (arith, h)),
  λ h. elim h [
    | inl e ↦ absurd cc
    | inr (u, e, b) ↦ (let same : t ≡ u = ground arith in ground (arith, same))
  ],
)

is_stale_iff :
    (seconds now : ℕ) (j : RedactJob) → (is_stale seconds now j ≡ true) ↔ IsOrphaned seconds now j
is_stale_iff seconds now j =
    let (runs, stands) = is_running_iff j.status in
    let (early, late) = is_before_iff seconds now j.started_at in
    (λ h. (runs (and_left _ _ h), early (and_right _ _ h)), λ (r, b). rw (stands r) (late b))

update-AreRecovered :
    (seconds now : ℕ) (jobs : List RedactJob)
    → AreRecovered seconds now jobs (update (is_stale seconds now) (as_failed now) jobs)
update-AreRecovered seconds now [] = tt
update-AreRecovered seconds now (j ∷ jobs) = elim (Bool-cases (is_stale seconds now j)) [
  | inl hit ↦
      rw hit (inl ((is_stale_iff seconds now j).0 hit, refl), update-AreRecovered seconds now jobs)
  | inr miss ↦ rw miss (
    inr (λ o. (let hit = (is_stale_iff seconds now j).1 o in cc (hit, miss)), refl),
    update-AreRecovered seconds now jobs,
  )
]

-- A recovery fails, with the reason and the time, exactly the jobs that were running and whose start
-- is not known or is longer ago than the given seconds, and keeps every other job as it is. The
-- number that it reports is the number of jobs that no longer run, and a second recovery at the same
-- moment finds none and changes nothing.
pub reap_stale_running_lem :
    (seconds now : ℕ) (jobs : List RedactJob)
    → let (n, jobs') = reap_stale_running seconds now jobs in
      AreRecovered seconds now jobs jobs'
      × (n + length (select (λ j. is_running j.status) jobs')
          ≡ length (select (λ j. is_running j.status) jobs))
      × (reap_stale_running seconds now jobs' ≡ (0, jobs'))
unfolding reap_stale_running
reap_stale_running_lem seconds now jobs =
    let none_left = no_stale seconds now jobs in
    (
      update-AreRecovered seconds now jobs,
      running_left seconds now jobs,
      ap₂ (λ (n : ℕ) (js : List RedactJob). (n, js))
          (ap length (
            select-any-false (is_stale seconds now)
              (update (is_stale seconds now) (as_failed now) jobs) none_left))
          (update_none (is_stale seconds now) (is_stale seconds now) (as_failed now)
            (update (is_stale seconds now) (as_failed now) jobs) none_left),
    )

-- A job that is found by its id is after a recovery what it was, unless it was stale: then it is
-- failed, with the reason.
pub find_by_id-reap_stale_running :
    (seconds now : ℕ) (id : Text) (jobs : List RedactJob)
    → find_by_id id (reap_stale_running seconds now jobs).1
      ≡ Option.map (λ j. if is_stale seconds now j then as_failed now j else j) (find_by_id id jobs)
unfolding reap_stale_running find_by_id
find_by_id-reap_stale_running seconds now id jobs =
    find?-update (is_job id) (is_stale seconds now) (as_failed now) jobs (λ j. refl)
