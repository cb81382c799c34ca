-- ===== src/Jobs/Scheduler.antt =====
-- apps/gateway/src/scan/scheduler.ts, `ScheduledScanRunner`. `resolve`, `join` and `extname` of
-- node:path, lower case, the file system and the UTC fields of a date are arguments; so is what the
-- scan of one file does, with its job and its alert, to what it changes: the id of the job, or none
-- where it throws, and the time at which the run of a row is recorded. The timer that calls `run_once` and logging are left out.
pub mod Due
use vibe_shield.Prelude.{
  ℕ, suc, ◌≤◌, ◌≡◌, Bool, true, false, ◌||◌, inl, inr, not, List, [], ◌∷◌, ◌++◌, Option, none, some,
  Text, codes, same_text, leb, ltb, ◌*◌, length, take, includes, if◌then◌else◌, Result, ok, err,
  Bool-cases, arith, length-append,
}
use vibe_shield.Jobs.Cron.{CronParseError, Moment, time, next_run}
use vibe_shield.Jobs.ScheduledScans.{ScheduledScan, list_due, mark_run}

-- What stands at a path; a directory may be unreadable.
mutual
  pub data Node : Type 0 where
    file other unreadable : Node
    directory : Entries → Node

  pub data Entries : Type 0 where
    no_entries : Entries
    entry : Text → Node → Entries → Entries

abbrev pub allowed_exts : List Text
allowed_exts =
    codes ".txt"
    ∷ codes ".md"
    ∷ codes ".log"
    ∷ codes ".csv"
    ∷ codes ".json"
    ∷ codes ".pdf"
    ∷ codes ".xlsx"
    ∷ codes ".zip"
    ∷ codes ".eml"
    ∷ codes ".mbox"
    ∷ []

abbrev pub max_files_per_run : ℕ
max_files_per_run = 200

abbrev pub max_depth : ℕ
max_depth = 5

-- Whether a text begins with another.
abbrev pub starts_with : Text → Text → Bool
starts_with s t = same_text (take (length t) s) t

module _ (join : Text → Text → Text) (extname lower : Text → Text) where
  abbrev pub is_eligible : Text → Bool
  is_eligible name = includes (lower (extname name)) allowed_exts

  unfoldable mutual
    -- The loop over the entries of a directory.
    pub walk : Text → ℕ → Entries → List Text → List Text
    walk dir depth no_entries out = out
    walk dir depth (entry name node rest) out =
        let on = walk dir depth rest (visit (join dir name) name depth node out) in
        if leb max_files_per_run (length out) then out else on

    pub visit : Text → Text → ℕ → Node → List Text → List Text
    visit p name depth file out = if is_eligible name then out ++ p ∷ [] else out
    visit p name depth other out = out
    visit p name depth unreadable out = out
    visit p name depth (directory entries) out =
        let within = walk p (suc depth) entries out in
        if ltb max_depth (suc depth) then out else within

  unfoldable pub enumerate : Text → Option Node → List Text
  enumerate root none = []
  enumerate root (some file) = root ∷ []
  enumerate root (some other) = []
  enumerate root (some unreadable) = []
  enumerate root (some (directory entries)) = walk root 0 entries []

  mutual
    unfolding walk visit

    walk-length :
        (dir : Text) (depth : ℕ) (entries : Entries) (out : List Text)
        → length out ≤ max_files_per_run
        → length (walk dir depth entries out) ≤ max_files_per_run
    walk-length dir depth no_entries out h = h
    walk-length dir depth (entry name node rest) out h =
        elim (Bool-cases (leb max_files_per_run (length out))) [
          | inl full ↦ rw full h
          | inr space ↦ rw space (
              walk-length dir depth rest (visit (join dir name) name depth node out)
                (visit-length (join dir name) name depth node out (ground arith)))
        ]

    visit-length :
        (p name : Text) (depth : ℕ) (node : Node) (out : List Text)
        → suc (length out) ≤ max_files_per_run
        → length (visit p name depth node out) ≤ max_files_per_run
    visit-length p name depth file out h = elim (Bool-cases (is_eligible name)) [
      | inl q ↦ rw q (omega (arith, h, length-append out (p ∷ [])))
      | inr q ↦ rw q (omega (arith, h))
    ]
    visit-length p name depth other out h = omega (arith, h)
    visit-length p name depth unreadable out h = omega (arith, h)
    visit-length p name depth (directory entries) out h =
        elim (Bool-cases (ltb max_depth (suc depth))) [
          | inl deep ↦ rw deep (omega (arith, h))
          | inr near ↦ rw near (walk-length p (suc depth) entries out (omega (arith, h)))
        ]

  -- A run has at most 200 files, whatever the tree of directories holds.
  pub enumerate-length :
      (root : Text) (node : Option Node) → length (enumerate root node) ≤ max_files_per_run
  unfolding enumerate
  enumerate-length root none = omega arith
  enumerate-length root (some file) = omega arith
  enumerate-length root (some other) = omega arith
  enumerate-length root (some unreadable) = omega arith
  enumerate-length root (some (directory entries)) = walk-length root 0 entries [] (omega arith)

  -- The target under the root, or none where it is outside.
  unfoldable pub resolve_safe_path : (List Text → Text) → Text → Text → Option Text
  resolve_safe_path resolve scan_root ref =
      let root = resolve (scan_root ∷ []) in
      let target = resolve (scan_root ∷ ref ∷ []) in
      let root_with_sep = if ends_with_sep root then root else root ++ b'/' ∷ [] in
      if same_text target root || starts_with target root_with_sep then some target else none
    where
      ends_with_sep : Text → Bool
      ends_with_sep [] = false
      ends_with_sep (c ∷ []) = same_text (c ∷ []) (b'/' ∷ [])
      ends_with_sep (c ∷ d ∷ s) = ends_with_sep (d ∷ s)

  abbrev pub ok_or_none : Result CronParseError (Option Moment) → Option ℕ
  ok_or_none (ok (some m)) = some (time m * 60000)
  ok_or_none (ok none) = none
  ok_or_none (err e) = none

  abbrev pub compute_next : (Text → Option ℕ) → Text → Moment → Option ℕ
  compute_next number cron_expression from = ok_or_none (next_run number cron_expression from)

  -- The loop over the files: the id of the last job that finished.
  unfoldable pub scan_files :
      {J : Type 0}
      → (ScheduledScan → Text → J → Option Text × J)
      → ScheduledScan
      → List Text
      → Option Text
      → J
      → Option Text × J
  scan_files scan row [] last j = (last, j)
  scan_files scan row (f ∷ files) last j =
      let (id, j') = scan row f j in scan_files scan row files (or_last id) j'
    where
      or_last : Option Text → Option Text
      or_last none = last
      or_last (some id) = some id

  module _ {J : Type 0} (scan : ScheduledScan → Text → J → Option Text × J)
      (resolve : List Text → Text) (scan_root : Text) (stat : Text → Option Node)
      (number : Text → Option ℕ) (date : ℕ → Moment) (clock : ScheduledScan → ℕ) where
    -- What is scanned for a row.
    abbrev pub files_of : ScheduledScan → List Text
    files_of row =
        if same_text row.source_kind (codes "filesystem")
        then elim (resolve_safe_path resolve scan_root row.source_ref) [
          | none ↦ []
          | some target ↦ enumerate target (stat target)
        ]
        else []

    unfoldable pub run : ScheduledScan → ℕ → List ScheduledScan × J → List ScheduledScan × J
    run row run_at (rows, j) =
        let (last, j') = scan_files scan row (take max_files_per_run (files_of row)) none j in
        (
          mark_run row.id last (compute_next number row.cron_expression (date run_at)) run_at
              (clock row) rows,
          j',
        )

    unfoldable pub run_all :
        List ScheduledScan → ℕ → List ScheduledScan × J → List ScheduledScan × J
    run_all [] now w = w
    run_all (row ∷ due) now w = run_all due now (run row now w)

    -- The number of rows that were due, and what is left.
    unfoldable pub run_once :
        (List ScheduledScan → List ScheduledScan)
        → ℕ
        → List ScheduledScan × J
        → ℕ × (List ScheduledScan × J)
    run_once soonest_first now (rows, j) =
        let due = list_due soonest_first now rows in (length due, run_all due now (rows, j))
