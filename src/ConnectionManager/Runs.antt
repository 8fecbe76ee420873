-- ===== src/ConnectionManager/Runs.antt =====
-- internal/service/connection_manager.go: any calls of a manager, one after another.
use chat2sql.Prelude.{ℕ, Option, List, [], ◌∷◌, Bytes, Outcome, ok, err, value_or}
use chat2sql.ConnectionManager.Changes.{
  update_connection, delete_connection, perform_health_check, cleanup_idle_pools,
}
use chat2sql.ConnectionManager.Pools.{Answers, get_connection_pool, start, stop}
use chat2sql.ConnectionManager.State.{ConnectionManager, DatabaseConnection}

-- The calls, each with what it is answered.
pub data Call : Type 0 where
  getting : ℕ → ℕ → Answers → Call
  updating :
      (Bytes → Option Bytes) → (DatabaseConnection → Option Bytes) → DatabaseConnection → Call
  deleting : Option Bytes → ℕ → Call
  checking : ℕ → (ℕ → Outcome Bytes ℕ) → Call
  cleaning : ℕ → Call
  starting stopping : Call

-- A call that panics changes nothing.
unfoldable pub step : Call → ConnectionManager → ConnectionManager
step (getting now id w) cm = (get_connection_pool cm now id w).1
step (updating encrypt save connection) cm = (update_connection encrypt save cm connection).1
step (deleting failed id) cm = (delete_connection failed cm id).1
step (checking now answers) cm = perform_health_check now answers cm
step (cleaning now) cm = cleanup_idle_pools now cm
step starting cm = elim (start cm) [ ok started ↦ started | err e ↦ cm ]
step stopping cm = value_or cm (stop cm)

abbrev pub run : List Call → ConnectionManager → ConnectionManager
run [] cm = cm
run (c ∷ calls) cm = run calls (step c cm)
