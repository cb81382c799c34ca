-- ===== src/Examples/Jobs.antt =====
-- Jobs at concrete inputs.
use vibe_shield.Prelude.{◌≡◌, ◌+◌, [], ◌∷◌, none, some, codes, length, select}
use vibe_shield.Jobs.ScanJobs.{
  CreateScanJob, file, AddScanFile, AddScanFinding, high, Store, creating, adding_file,
  adding_finding, calls, running,
}
use vibe_shield.Jobs.ScanJobs.Counters.{IsConsistent}
use vibe_shield.Jobs.ScanJobs.Consistent.{calls-IsConsistent}
use vibe_shield.Jobs.RedactJobs.{RedactJob, is_running, reap_stale_running}
use vibe_shield.Jobs.RedactJobs.Reaped.{AreRecovered, reap_stale_running_lem}

abbrev empty : Store
empty = record { jobs = []; files = []; findings = [] }

abbrev job : CreateScanJob
job = record {
  user_id = codes "ann";
  source_kind = file;
  source_name = codes "w2.pdf";
  source_mime = codes "application/pdf";
  source_size_bytes = 10;
}

abbrev page : AddScanFile
page = record {
  job_id = codes "j1";
  path = codes "w2.pdf";
  mime = codes "application/pdf";
  size_bytes = 10;
  sha256 = codes "00";
  skipped_reason = none;
}

abbrev ssn : AddScanFinding
ssn = record {
  job_id = codes "j1";
  file_id = codes "f1";
  entity_type = codes "US_SSN";
  severity = high;
  location = codes "page:1";
  snippet_redacted = codes "<US_SSN>";
  sample_hash = codes "01";
}

calls-IsConsistent_example : IsConsistent (
    calls
      (creating (codes "j1") 1 job
        ∷ adding_file (codes "f1") 2 page
        ∷ adding_finding (codes "x1") 3 ssn
        ∷ [])
      empty)
calls-IsConsistent_example =
    calls-IsConsistent
      (creating (codes "j1") 1 job
        ∷ adding_file (codes "f1") 2 page
        ∷ adding_finding (codes "x1") 3 ssn
        ∷ [])
      empty (record { counted = tt; files_owned = tt; findings_owned = tt })

abbrev stuck : RedactJob
stuck = record {
  id = codes "r1";
  input = record {
    user_id = codes "ann";
    filename = codes "w2.pdf";
    mime = codes "application/pdf";
    source_size_bytes = 10;
    batch_id = none;
  };
  pages_count = some 3;
  status = running;
  error_message = none;
  started_at = some 5;
  finished_at = none;
  created_at = 1;
  expires_at = 1000;
}

reap_stale_running_lem_example :
    AreRecovered 600 700000 (stuck ∷ []) (reap_stale_running 600 700000 (stuck ∷ [])).1
    × ((reap_stale_running 600 700000 (stuck ∷ [])).0
          + length
              (select (λ j. is_running j.status) (reap_stale_running 600 700000 (stuck ∷ [])).1)
        ≡ 1)
    × (reap_stale_running 600 700000 (reap_stale_running 600 700000 (stuck ∷ [])).1
        ≡ (0, (reap_stale_running 600 700000 (stuck ∷ [])).1))
reap_stale_running_lem_example = reap_stale_running_lem 600 700000 (stuck ∷ [])
