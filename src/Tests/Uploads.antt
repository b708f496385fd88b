-- ===== src/Tests/Uploads.antt =====
-- Concrete runs of the registration and the deletion of calls.
use call_audit_supervisor.Common.{ℕ, ◌≡◌, ◌≢◌, ◌⊎◌, none, some, List, [], ◌∷◌, find?}
use call_audit_supervisor.Ratelimit.Backoff.{value}
use call_audit_supervisor.Orchestration.World.{Call}
use call_audit_supervisor.Orchestration.Calls.{
  created, no_content, not_found, Agent, UploadedKey, Selection, register_calls, Deletes,
  delete_call, is_call_of,
}
use call_audit_supervisor.Orchestration.Calls.Quota.{Registered, register_calls_lem}
use call_audit_supervisor.Orchestration.Calls.Erasure.{ObjectsGone, RowsGone, delete_call_lem}
use call_audit_supervisor.Tests.Floats.{whole}
use call_audit_supervisor.Tests.Samples.{world}
use call_audit_supervisor.Tests.Reports.{judged_world}

abbrev folders : List Agent
folders = record { id = 7; portfolio_id = 1 } ∷ []

abbrev keys : List UploadedKey
keys =
    record { key = "1/7/a.mp3"; call_id = 20; job_id = 20 }
    ∷ record { key = "1/7/b.mp3"; call_id = 21; job_id = 21 }
    ∷ []

abbrev selection : Selection
selection = record { option = some "FULL"; checklist_id = none; kb_doc_ids = [] }

register_calls_lem_example :
    let (s, w') = register_calls (List ℕ) 5 3 1 7 selection folders keys world in
    ((s ≡ created) × Registered (List ℕ) 5 3 1 7 selection folders keys world w')
    ⊎ ((s ≢ created) × (w' ≡ world))
register_calls_lem_example = register_calls_lem (List ℕ) 5 3 1 7 selection folders keys world

-- An object store that takes every deletion.
abbrev deletes : Deletes whole
deletes = record {
  delete_recording = λ key. value tt;
  delete_transcript = λ call. value tt;
  delete_report = λ call. value tt;
}

delete_call_lem_example :
    let r = delete_call whole deletes 1 7 2 judged_world in
    ((c : Call) × (find? (is_call_of whole 1 7 2) judged_world.db.calls ≡ some c)
      × (((r.0 ≡ value no_content) × ObjectsGone whole c r.1 × RowsGone whole 2 r.1.db)
          ⊎ ((r.0 ≢ value no_content) × (r.1.db ≡ judged_world.db))))
    ⊎ (r ≡ (value not_found, judged_world))
delete_call_lem_example = delete_call_lem whole deletes 1 7 2 judged_world
