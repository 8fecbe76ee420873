-- ===== src/ContextManager/Printing.antt =====
-- internal/ai/context_manager.go: `formatSchemaForPrompt`, on maps in the order of their iteration.
use chat2sql.Prelude.{Bool, not, List, [], ◌∷◌, ◌++◌, Bytes, utf8, if◌then◌else◌, is_empty, Dict}
use chat2sql.ContextManager.State.{SchemaInfo, Table, Column, ForeignKey}
use chat2sql.ContextManager.Upkeep.{join_blank}

abbrev only_if : Bool → Bytes → Bytes
only_if b s = if b then s else []

unfoldable pub format_columns : Dict Bytes Column → Bytes
unfolding utf8
format_columns [] = []
format_columns ((name, col) ∷ columns) =
    utf8 "  - "
    ++ name
    ++ utf8 ": "
    ++ col.data_type
    ++ only_if (not col.is_nullable) (utf8 " NOT NULL")
    ++ only_if (not (is_empty col.comment)) (utf8 " // " ++ col.comment)
    ++ utf8 "\n"
    ++ format_columns columns

unfoldable pub format_foreign_keys : List ForeignKey → Bytes
unfolding utf8
format_foreign_keys [] = []
format_foreign_keys (fk ∷ keys) =
    utf8 "    "
    ++ fk.column_name
    ++ utf8 " -> "
    ++ fk.referenced_table
    ++ utf8 "."
    ++ fk.referenced_column
    ++ utf8 "\n"
    ++ format_foreign_keys keys

unfoldable pub format_tables : Dict Bytes Table → Bytes
unfolding format_columns format_foreign_keys join_blank utf8
format_tables [] = []
format_tables ((name, table) ∷ tables) =
    utf8 "📋 表: "
    ++ name
    ++ only_if (not (is_empty table.comment)) (utf8 " (" ++ table.comment ++ utf8 ")")
    ++ utf8 "\n"
    ++ format_columns table.columns
    ++ only_if (not (is_empty table.primary_keys))
        (utf8 "  🔑 主键: [" ++ join_blank table.primary_keys ++ utf8 "]\n")
    ++ only_if (not (is_empty table.foreign_keys))
        (utf8 "  🔗 外键:\n" ++ format_foreign_keys table.foreign_keys)
    ++ utf8 "\n"
    ++ format_tables tables

unfoldable pub format_schema_for_prompt : SchemaInfo → Bytes
unfolding format_tables utf8
format_schema_for_prompt schema =
    utf8 "数据库: " ++ schema.database_name ++ utf8 "\n表结构信息:\n\n" ++ format_tables schema.tables
