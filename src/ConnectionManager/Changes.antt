-- ===== src/ConnectionManager/Changes.antt =====
-- internal/service/connection_manager.go: the changes of a connection, the health check and the cleanup.
use chat2sql.Prelude.{
  ℕ, suc, ◌-◌, Bool, true, false, not, Option, none, some, List, [], ◌∷◌, ◌++◌, Bytes, utf8, Dict,
  number_key, lookup, keep, delete, if◌then◌else◌, ltb, ◌==◌, is_empty, length, Outcome, ok, err,
  decimal,
}
use chat2sql.ConnectionManager.State.{
  ConnectionManager, ManagedPool, DatabaseConnection, PoolError, bad_password, bad_ping,
  cannot_save,
}

-- The password is encrypted, the connection tested with the plain one, and the encrypted one is saved.
unfoldable pub create_connection :
    (Bytes → Option Bytes)
    → Bool
    → (DatabaseConnection → Outcome Bytes DatabaseConnection)
    → DatabaseConnection
    → Outcome PoolError DatabaseConnection
create_connection encrypt answers save connection = elim (encrypt connection.password_encrypted) [
  | none ↦ err bad_password
  | some encrypted ↦
      if not answers
      then err bad_ping
      else elim (save (record connection { password_encrypted = encrypted })) [
        | err e ↦ err (cannot_save e)
        | ok saved ↦ ok saved
      ]
]

-- The pool leaves the map and is not closed.
unfoldable pub update_connection :
    (Bytes → Option Bytes)
    → (DatabaseConnection → Option Bytes)
    → ConnectionManager
    → DatabaseConnection
    → Option PoolError × ConnectionManager
unfolding keep
update_connection encrypt save cm connection =
    let finish : DatabaseConnection → Option PoolError × ConnectionManager = λ c. elim (save c) [
      | some e ↦ (some (cannot_save e), cm)
      | none ↦ (none, record cm { connection_pools = delete connection.id cm.connection_pools })
    ] in
    if is_empty connection.password_encrypted
    then finish connection
    else elim (encrypt connection.password_encrypted) [
      | none ↦ (some bad_password, cm)
      | some encrypted ↦ finish (record connection { password_encrypted = encrypted })
    ]

unfoldable pub delete_connection :
    Option Bytes → ConnectionManager → ℕ → Option PoolError × ConnectionManager
unfolding lookup keep
delete_connection failed cm id =
    let dropped : ConnectionManager = elim (lookup id cm.connection_pools) [
      | none ↦ cm
      | some p ↦ record cm {
        connection_pools = delete id cm.connection_pools;
        closed = p.pool ∷ cm.closed;
      }
    ] in
    (elim failed [ none ↦ none | some e ↦ some (cannot_save e) ], dropped)

-- The answer to `SELECT 1`: a number, or an error.
unfoldable pub check_pool_health : ℕ → Outcome Bytes ℕ → ManagedPool → ManagedPool
check_pool_health now answer p =
    let message : Option Bytes = elim answer [
      | err e ↦ some e
      | ok n ↦ if n == 1 then none else some (utf8 "健康检查返回异常结果: " ++ decimal n)
    ] in
    record p {
      health_status = record {
        is_healthy = elim message [ none ↦ true | some e ↦ false ];
        last_check = now;
        error_message = elim message [ none ↦ [] | some e ↦ e ];
        check_count = suc p.health_status.check_count;
      };
    }

unfoldable pub check_pools : ℕ → (ℕ → Outcome Bytes ℕ) → Dict ℕ ManagedPool → Dict ℕ ManagedPool
unfolding check_pool_health
check_pools now answers [] = []
check_pools now answers ((id, p) ∷ pools) =
    (id, check_pool_health now (answers p.pool) p) ∷ check_pools now answers pools

unfoldable pub perform_health_check :
    ℕ → (ℕ → Outcome Bytes ℕ) → ConnectionManager → ConnectionManager
unfolding check_pools
perform_health_check now answers cm = record cm {
  connection_pools = check_pools now answers cm.connection_pools;
}

abbrev pub is_idle : ℕ → ConnectionManager → ManagedPool → Bool
is_idle now cm p = ltb cm.pool_idle_timeout (now - p.last_used)

abbrev pub idle_handles : ℕ → ConnectionManager → Dict ℕ ManagedPool → List ℕ
idle_handles now cm [] = []
idle_handles now cm ((id, p) ∷ pools) =
    let rest = idle_handles now cm pools in if is_idle now cm p then p.pool ∷ rest else rest

unfoldable pub cleanup_idle_pools : ℕ → ConnectionManager → ConnectionManager
unfolding keep
cleanup_idle_pools now cm = record cm {
  connection_pools = keep (λ id p. not (is_idle now cm p)) cm.connection_pools;
  closed = idle_handles now cm cm.connection_pools ++ cm.closed;
}

pub record PoolStats : Type 0 where
  pub total_pools : ℕ
  pub healthy_pools : ℕ
  pub unhealthy_pools : ℕ

unfoldable pub count_healthy : Dict ℕ ManagedPool → ℕ
count_healthy [] = 0
count_healthy ((id, p) ∷ pools) =
    let rest = count_healthy pools in if p.health_status.is_healthy then suc rest else rest

unfoldable pub get_pool_stats : ConnectionManager → PoolStats
unfolding count_healthy
get_pool_stats cm = record {
  total_pools = length cm.connection_pools;
  healthy_pools = count_healthy cm.connection_pools;
  unhealthy_pools = length cm.connection_pools - count_healthy cm.connection_pools;
}
