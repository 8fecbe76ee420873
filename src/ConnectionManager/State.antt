-- ===== src/ConnectionManager/State.antt =====
-- internal/service/connection_manager.go: the manager, its pools and its configuration.
use chat2sql.Prelude.{
  ℕ, ◌*◌, ◌/◌, Bool, false, List, [], ◌++◌, Bytes, codes, Dict, ℤ, pos, negsuc, if◌then◌else◌, ltb,
  length, decimal, Outcome, ok, err, is_empty,
}

pub data PoolError : Type 0 where
  already_running no_key key_too_short key_too_long : PoolError
  not_found bad_config cannot_open cannot_save : Bytes → PoolError
  bad_status : Bytes → PoolError
  limit_reached : ℕ → PoolError
  bad_password bad_ping : PoolError

pub record DatabaseConnection : Type 0 where
  pub id : ℕ
  pub user_id : ℕ
  pub host : Bytes
  pub port : ℕ
  pub username : Bytes
  pub password_encrypted : Bytes
  pub database_name : Bytes
  pub status : Bytes

pub record ConnectionHealthStatus : Type 0 where
  pub is_healthy : Bool
  pub last_check : ℕ
  pub error_message : Bytes
  pub check_count : ℕ

-- A pool of the driver is a handle.
pub record ManagedPool : Type 0 where
  pub pool : ℕ
  pub connection : DatabaseConnection
  pub last_used : ℕ
  pub created_at : ℕ
  pub health_status : ConnectionHealthStatus

-- `closed` are the handles that the manager has closed, and `stopped` says that its channel is.
pub record ConnectionManager : Type 0 where
  pub connection_pools : Dict ℕ ManagedPool
  pub closed : List ℕ
  pub max_pools_per_user : ℕ
  pub pool_idle_timeout : ℕ
  pub connection_timeout : ℕ
  pub health_check_interval : ℕ
  pub is_running : Bool
  pub stopped : Bool

pub record ConnectionManagerConfig : Type 0 where
  pub encryption_key : Bytes
  pub max_pools_per_user : ℤ
  pub pool_idle_timeout : ℤ
  pub connection_timeout : ℤ
  pub health_check_interval : ℤ

-- `NewAESEncryption`, as far as it can fail
unfoldable pub check_key : Bytes → Outcome PoolError (Unit {0})
check_key key =
    if is_empty key
    then err no_key
    else if ltb (length key) 16
    then err key_too_short
    else if ltb 48 (length key)
    then err key_too_long
    else ok tt

abbrev positive_or : ℕ → ℤ → ℕ
positive_or d (pos n) = if ltb 0 n then n else d
positive_or d (negsuc n) = d

abbrev pub minute : ℕ
minute = 60 * 1_000_000_000

-- The manager of a configuration, each setting with its default.
abbrev pub configured : ConnectionManagerConfig → ConnectionManager
configured config = record {
  connection_pools = [];
  closed = [];
  max_pools_per_user = positive_or 10 config.max_pools_per_user;
  pool_idle_timeout = positive_or (30 * minute) config.pool_idle_timeout;
  connection_timeout = positive_or (minute / 6) config.connection_timeout;
  health_check_interval = positive_or (5 * minute) config.health_check_interval;
  is_running = false;
  stopped = false;
}

unfoldable pub new_connection_manager :
    ConnectionManagerConfig → Outcome PoolError ConnectionManager
unfolding check_key
new_connection_manager config = elim (check_key config.encryption_key) [
  | err e ↦ err e
  | ok done ↦ ok (configured config)
]

-- The text holds the values as they are.
unfoldable pub build_connection_string : ConnectionManager → DatabaseConnection → Bytes → Bytes
build_connection_string cm conn password =
    codes "host="
    ++ conn.host
    ++ codes " port="
    ++ decimal conn.port
    ++ codes " user="
    ++ conn.username
    ++ codes " password="
    ++ password
    ++ codes " dbname="
    ++ conn.database_name
    ++ codes " sslmode=prefer connect_timeout="
    ++ decimal (cm.connection_timeout / 1_000_000_000)
