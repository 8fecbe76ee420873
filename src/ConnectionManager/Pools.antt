-- ===== src/ConnectionManager/Pools.antt =====
-- internal/service/connection_manager.go: `GetConnectionPool`, `createConnectionPool`, `Start` and `Stop`.
use chat2sql.Prelude.{
  ℕ, suc, Bool, true, false, not, Option, none, some, [], ◌∷◌, ◌++◌, map, Bytes, codes, Dict,
  number_key, lookup, insert, if◌then◌else◌, leb, ◌==◌, same_bytes, Outcome, ok, err,
}
use chat2sql.ConnectionManager.State.{
  ConnectionManager, ManagedPool, DatabaseConnection, PoolError, already_running, not_found,
  bad_status, limit_reached, bad_password, bad_ping, build_connection_string,
}

-- What the repository, the cipher and the driver answer while a pool is made.
pub record Answers : Type 0 where
  pub get_by_id : Outcome Bytes DatabaseConnection
  pub decrypt : Bytes → Option Bytes
  -- the handle for a connection text
  pub open_pool : Bytes → Outcome PoolError ℕ
  pub ping : Bool

unfoldable pub count_user : ℕ → Dict ℕ ManagedPool → ℕ
count_user user_id [] = 0
count_user user_id ((id, p) ∷ pools) =
    let rest = count_user user_id pools in
    if p.connection.user_id == user_id then suc rest else rest

unfoldable pub check_user_pool_limit : ConnectionManager → ℕ → Outcome PoolError (Unit {0})
unfolding count_user
check_user_pool_limit cm user_id =
    if leb cm.max_pools_per_user (count_user user_id cm.connection_pools)
    then err (limit_reached cm.max_pools_per_user)
    else ok tt

abbrev pub new_pool : ℕ → ℕ → DatabaseConnection → ManagedPool
new_pool handle now connection = record {
  pool = handle;
  connection = connection;
  last_used = now;
  created_at = now;
  health_status = record {
    is_healthy = true;
    last_check = now;
    error_message = [];
    check_count = 0;
  };
}

abbrev pub store_pool : ConnectionManager → ℕ → ManagedPool → ConnectionManager
store_pool cm id p = record cm { connection_pools = insert id p cm.connection_pools }

-- A pool that does not answer is closed again.
unfoldable pub open_connection_pool :
    ConnectionManager
    → ℕ
    → ℕ
    → Answers
    → DatabaseConnection
    → Outcome PoolError ℕ × ConnectionManager
unfolding build_connection_string insert
open_connection_pool cm now id w connection = elim (w.decrypt connection.password_encrypted) [
  | none ↦ (err bad_password, cm)
  | some password ↦ elim (w.open_pool (build_connection_string cm connection password)) [
    | err e ↦ (err e, cm)
    | ok handle ↦
        if w.ping
        then (ok handle, store_pool cm id (new_pool handle now connection))
        else (err bad_ping, record cm { closed = handle ∷ cm.closed })
  ]
]

unfoldable pub create_connection_pool :
    ConnectionManager → ℕ → ℕ → Answers → Outcome PoolError ℕ × ConnectionManager
unfolding check_user_pool_limit open_connection_pool same_bytes
create_connection_pool cm now id w = elim w.get_by_id [
  | err e ↦ (err (not_found e), cm)
  | ok connection ↦
      if not (same_bytes connection.status (codes "active"))
      then (err (bad_status connection.status), cm)
      else elim (check_user_pool_limit cm connection.user_id) [
        | err e ↦ (err e, cm)
        | ok done ↦ open_connection_pool cm now id w connection
      ]
]

unfoldable pub get_connection_pool :
    ConnectionManager → ℕ → ℕ → Answers → Outcome PoolError ℕ × ConnectionManager
unfolding create_connection_pool lookup insert
get_connection_pool cm now id w = elim (lookup id cm.connection_pools) [
  | some p ↦ (ok p.pool, store_pool cm id (record p { last_used = now }))
  | none ↦ create_connection_pool cm now id w
]

unfoldable pub start : ConnectionManager → Outcome PoolError ConnectionManager
start cm = if cm.is_running then err already_running else ok (record cm { is_running = true })

abbrev handle_of : ℕ × ManagedPool → ℕ
handle_of (id, p) = p.pool

-- The pools are closed and stay in the map. To close the channel a second time is a panic, which is none.
unfoldable pub stop : ConnectionManager → Option ConnectionManager
stop cm =
    if not cm.is_running
    then some cm
    else if cm.stopped
    then none
    else some (record cm {
      is_running = false;
      stopped = true;
      closed = map handle_of cm.connection_pools ++ cm.closed;
    })
