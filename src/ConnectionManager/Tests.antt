-- ===== src/ConnectionManager/Tests.antt =====
-- internal/service/connection_manager.go: runs of the model.
use chat2sql.Prelude.{
  ℕ, ◌≡◌, refl, true, none, some, List, [], ◌∷◌, codes, ok, err, pos, number_key, lookup, insert,
  keep, same_bytes, decimal,
}
use chat2sql.ConnectionManager.Changes.{update_connection, count_healthy, get_pool_stats}
use chat2sql.ConnectionManager.Limit.{Inv}
use chat2sql.ConnectionManager.Pools.{
  Answers, count_user, check_user_pool_limit, open_connection_pool, create_connection_pool,
  get_connection_pool, start, stop,
}
use chat2sql.ConnectionManager.Runs.{
  Call, getting, updating, deleting, checking, cleaning, starting, stopping, step, run,
}
use chat2sql.ConnectionManager.State.{
  ConnectionManagerConfig, DatabaseConnection, key_too_short, limit_reached, check_key, configured,
  new_connection_manager, build_connection_string,
}
use chat2sql.ConnectionManager.Steps.{run-limited}

-- One pool for each user.
abbrev config : ConnectionManagerConfig
config = record {
  encryption_key = codes "0123456789abcdef";
  max_pools_per_user = pos 1;
  pool_idle_timeout = pos 100;
  connection_timeout = pos 0;
  health_check_interval = pos 0;
}

abbrev database : ℕ → DatabaseConnection
database id = record {
  id = id;
  user_id = 7;
  host = codes "h";
  port = 5432;
  username = codes "u";
  password_encrypted = codes "x";
  database_name = codes "d";
  status = codes "active";
}

abbrev answers : ℕ → Answers
answers id = record {
  get_by_id = ok (database id);
  decrypt = λ s. some s;
  open_pool = λ s. ok 70;
  ping = true;
}

abbrev calls : List Call
calls =
    starting
    ∷ getting 1 1 (answers 1)
    ∷ getting 2 2 (answers 2)
    ∷ checking 3 (λ pool. ok 1)
    ∷ updating (λ s. some s) (λ c. none) (database 1)
    ∷ getting 4 2 (answers 2)
    ∷ cleaning 500
    ∷ deleting none 2
    ∷ stopping
    ∷ []

config-made : new_connection_manager config ≡ ok (configured config)
unfolding new_connection_manager check_key
config-made = refl

run-limited_example : Inv (run calls (configured config))
run-limited_example = run-limited config (configured config) calls config-made

-- The second pool of a user is refused; a pool that was updated is gone from the map and not closed; a
-- manager that was stopped, started and stopped again panics.
program : Unit {0}
unfolding get_connection_pool create_connection_pool check_user_pool_limit count_user
    open_connection_pool build_connection_string lookup insert keep same_bytes decimal
    update_connection start stop step check_key new_connection_manager get_pool_stats count_healthy
program =
    let one = (get_connection_pool (configured config) 1 1 (answers 1)).1 in
    let second : (get_connection_pool one 2 2 (answers 2)).0 ≡ err (limit_reached 1) = refl in
    let again : (get_connection_pool one 2 1 (answers 1)).0 ≡ ok 70 = refl in
    let gone = (update_connection (λ s. some s) (λ c. none) one (database 1)).1 in
    let unmapped : lookup 1 gone.connection_pools ≡ none = refl in
    let leaked : gone.closed ≡ [] = refl in
    let stopped : stop (run (starting ∷ stopping ∷ starting ∷ []) one) ≡ none = refl in
    let short : new_connection_manager (record config { encryption_key = codes "k" })
        ≡ err key_too_short =
      refl in
    let healthy : (get_pool_stats one).healthy_pools ≡ 1 = refl in tt
