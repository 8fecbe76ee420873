-- ===== src/ContextManager/State.antt =====
-- internal/ai/context_manager.go: the three caches of the manager and its configuration.
use chat2sql.Prelude.{ℕ, ◌*◌, Bool, true, Option, none, some, List, [], Bytes, codes, Dict}

pub record ContextConfig : Type 0 where
  pub max_history_size : ℕ
  pub cache_ttl : ℕ
  pub cleanup_interval : ℕ
  pub max_connections_cache : ℕ
  pub enable_prewarming : Bool

unfoldable pub default_context_config : ContextConfig
default_context_config = record {
  max_history_size = 50;
  cache_ttl = 86_400 * 1_000_000_000;
  cleanup_interval = 3_600 * 1_000_000_000;
  max_connections_cache = 100;
  enable_prewarming = true;
}

pub record Column : Type 0 where
  pub name : Bytes
  pub data_type : Bytes
  pub is_nullable : Bool
  pub default_value : Bytes
  pub comment : Bytes
  pub max_length : ℕ
  pub precision : ℕ
  pub scale : ℕ

pub record ForeignKey : Type 0 where
  pub column_name : Bytes
  pub referenced_table : Bytes
  pub referenced_column : Bytes

pub record Table : Type 0 where
  pub name : Bytes
  pub columns : Dict Bytes Column
  pub primary_keys : List Bytes
  pub foreign_keys : List ForeignKey
  pub indexes : List Bytes
  pub comment : Bytes

pub record Relationship : Type 0 where
  pub from_table : Bytes
  pub to_table : Bytes
  pub relation_type : Bytes
  pub join_column : Bytes

pub record IndexInfo : Type 0 where
  pub name : Bytes
  pub table_name : Bytes
  pub columns : List Bytes
  pub is_unique : Bool
  pub index_type : Bytes

pub record SchemaInfo : Type 0 where
  pub database_name : Bytes
  pub tables : Dict Bytes Table
  pub relationships : List Relationship
  pub indexes : List IndexInfo
  pub last_updated : ℕ
  pub version : Bytes

pub record QueryHistory : Type 0 where
  pub query : Bytes
  pub sql : Bytes
  pub success : Bool
  pub timestamp : ℕ

pub record UserQueryHistory : Type 0 where
  pub queries : List QueryHistory
  pub last_access : ℕ
  pub total_queries : ℕ

pub record UserContext : Type 0 where
  pub preferred_lang : Bytes
  pub query_patterns : List Bytes
  pub frequent_tables : List Bytes
  pub custom_settings : Dict Bytes Bytes
  pub last_active : ℕ

-- The keys are identifiers of connections, and of users.
pub record ContextManager : Type 0 where
  pub schema_cache : Dict ℕ SchemaInfo
  pub history_buffer : Dict ℕ UserQueryHistory
  pub user_context_cache : Dict ℕ UserContext
  pub config : ContextConfig

unfoldable pub new_context_manager : Option ContextConfig → ContextManager
unfolding default_context_config
new_context_manager config = record {
  schema_cache = [];
  history_buffer = [];
  user_context_cache = [];
  config = elim config [ none ↦ default_context_config | some c ↦ c ];
}

-- The context of a user that none is known of.
unfoldable pub new_user_context : ℕ → UserContext
new_user_context now = record {
  preferred_lang = codes "zh-CN";
  query_patterns = [];
  frequent_tables = [];
  custom_settings = [];
  last_active = now;
}
