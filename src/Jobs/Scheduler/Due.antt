-- ===== src/Jobs/Scheduler/Due.antt =====
-- What a tick of the scheduler leaves due.
use vibe_shield.Prelude.{ℕ, ◌<◌, ◌≡◌, ◌⊎◌, true, false, List, Option, none, some, Text, any}
use vibe_shield.Jobs.ScheduledScans.{ScheduledScan, has_id, is_due}

-- A time that is not yet, or none.
abbrev IsLater : ℕ → Option ℕ → Type 0
IsLater now none = Unit
IsLater now (some t) = now < t

module _ (join : Text → Text → Text) (extname lower : Text → Text) where
  -- A row that is not due, or whose turn is still to come.
  abbrev IsSettled : ℕ → List ScheduledScan → ScheduledScan → Type 0
  IsSettled now due r = (is_due now r ≡ false) ⊎ (any (has_id r.id) due ≡ true)
