-- ===== src/Lease/Tests.antt =====
-- The lease theorems at concrete runs, on both backends.
use finchat.Base.{
  ◌≡◌, refl, String, true, false, Option, none, some, List, [], ◌∷◌, ◌++◌, arith, str_eq,
  if◌then◌else◌,
}
use finchat.Base.Dict.{lookup}
use finchat.Lease.Backend.{Entry, contains, same_entry}
use finchat.Lease.Memory.{empty_memory, memory_pending}
use finchat.Lease.Firestore.{Document, Database, written, firestore_lease}
use finchat.Lease.Runs.{
  Event, acquire, release, register, drain, run, granted_on, drained_on, registered_on,
}
use finchat.Lease.Service.{Settings, backend, session_exclusive, session_accounted}
use finchat.Lease.Progress.{session_progress}
use finchat.Lease.Refines.{Table, granted, drained, nothing, calls, tell_all, session_refines}
use finchat.Lease.Acquire.{Round, Route, Ends, acquire_loop, acquire_loop-Ends}

-- A database as a function from keys to documents.
abbrev table_database : Database
table_database = record {
  Db = String → Option Document;
  snapshot = λ key db. db key;
  commit = λ key w db k. if str_eq key k then written w (db key) else db k;
  snapshot-commit = λ key w db k. refl;
}

abbrev shared_settings : Settings
shared_settings = record { forced_memory = false; project = true; firestore_failed = false }

abbrev local_settings : Settings
local_settings = record { forced_memory = true; project = true; firestore_failed = false }

abbrev held_document : String → Option Document
held_document k =
    if str_eq "s" k
    then some (record { holder = some "h1"; lease_until = some 120; pending = none })
    else none

abbrev turned_away_entry : Entry
turned_away_entry = record { conversation_id = "c2"; ts = "2026-09-19T10:00:00" }

abbrev late_entry : Entry
late_entry = record { conversation_id = "c3"; ts = "2026-09-19T10:00:01" }

abbrev script : List Event
script =
    acquire "s" "h2" 120 3 3
    ∷ register "s" turned_away_entry
    ∷ release "s" "h2"
    ∷ drain "s"
    ∷ acquire "t" "h3" 120 4 4
    ∷ register "s" late_entry
    ∷ []

session_exclusive_example :
    let b = backend table_database shared_settings in
    (b.lease_of "s" (run b script held_document) ≡ some ("h1", 120))
    × (granted_on b "s" script held_document ≡ 0)
unfolding firestore_lease
session_exclusive_example =
    session_exclusive table_database shared_settings "s" "h1" 120 script held_document refl
      (omega arith, (tt, (refl, (tt, (omega arith, (tt, tt))))))

session_accounted_example :
    let b = backend table_database local_settings in
    drained_on b "s" script empty_memory ++ b.pending_of "s" (run b script empty_memory)
    ≡ turned_away_entry ∷ late_entry ∷ []
unfolding memory_pending lookup registered_on contains same_entry
session_accounted_example =
    session_accounted table_database local_settings "s" script empty_memory (refl, (refl, tt))

abbrev rounds : List Round
rounds =
    record { shared = some false; now = 1; later = 1; after = 2 }
    ∷ record { shared = none; now = 3; later = 3; after = 9 }
    ∷ []

acquire_loop-Ends_example :
    Ends "s" "h" 120 8 rounds Route.shared empty_memory
      (acquire_loop "s" "h" 120 8 rounds Route.shared empty_memory)
acquire_loop-Ends_example = acquire_loop-Ends "s" "h" 120 8 rounds Route.shared empty_memory refl

session_progress_example :
    let b = backend table_database shared_settings in
    let s' = run b script held_document in
    ((b.try_acquire "s" "h9" 120 119 119 (b.release "s" "h1" s')).0 ≡ true)
    × ((b.try_acquire "s" "h9" 120 119 119 s').0 ≡ false)
unfolding firestore_lease
session_progress_example =
    session_progress table_database shared_settings "s" "h1" 120 script held_document "h9" 120 119
      119 refl (omega arith, (tt, (refl, (tt, (omega arith, (tt, tt))))))

abbrev no_turns : Table
no_turns = record { lease = λ k. none; waiting = λ k. [] }

session_refines_example :
    let b = backend table_database local_settings in
    tell_all b script empty_memory
    ≡ granted true
      ∷ nothing
      ∷ nothing
      ∷ drained (turned_away_entry ∷ [])
      ∷ granted true
      ∷ nothing
      ∷ []
unfolding memory_pending lookup contains same_entry calls finchat.Lease.Memory.memory_lease
    finchat.Lease.Refines.AllFresh
session_refines_example =
    session_refines table_database local_settings script empty_memory no_turns
      (record { lease = λ k. refl; waiting = λ k. refl }) (refl, (refl, tt))
