-- ===== src/Errors/SqlState/SyntaxCodes.antt =====
-- include/ozo/error.h: the enumerators of `sqlstate::code` from `invalid_cursor_state` to
-- `disk_full`, in the order of the source.
use ozo.Prelude.{List, [], ◌∷◌}
use ozo.Errors.SqlState.Entry.{Enumerator, enumerator}

abbrev pub syntax_codes : List Enumerator
syntax_codes =
    enumerator "invalid_cursor_state" 3545856 "24000"
    ∷ enumerator "invalid_transaction_state" 3592512 "25000"
    ∷ enumerator "active_sql_transaction" 3592513 "25001"
    ∷ enumerator "branch_transaction_already_active" 3592514 "25002"
    ∷ enumerator "held_cursor_requires_same_isolation_level" 3592520 "25008"
    ∷ enumerator "inappropriate_access_mode_for_branch_transaction" 3592515 "25003"
    ∷ enumerator "inappropriate_isolation_level_for_branch_transaction" 3592516 "25004"
    ∷ enumerator "no_active_sql_transaction_for_branch_transaction" 3592517 "25005"
    ∷ enumerator "read_only_sql_transaction" 3592518 "25006"
    ∷ enumerator "schema_and_data_statement_mixing_not_supported" 3592519 "25007"
    ∷ enumerator "no_active_sql_transaction" 3624913 "25P01"
    ∷ enumerator "in_failed_sql_transaction" 3624914 "25P02"
    ∷ enumerator "invalid_sql_statement_name" 3639168 "26000"
    ∷ enumerator "triggered_data_change_violation" 3685824 "27000"
    ∷ enumerator "invalid_authorization_specification" 3732480 "28000"
    ∷ enumerator "invalid_password" 3764881 "28P01"
    ∷ enumerator "dependent_privilege_descriptors_still_exist" 3872448 "2B000"
    ∷ enumerator "dependent_objects_still_exist" 3904849 "2BP01"
    ∷ enumerator "invalid_transaction_termination" 3965760 "2D000"
    ∷ enumerator "sql_routine_exception" 4059072 "2F000"
    ∷ enumerator "function_executed_no_return_statement" 4059077 "2F005"
    ∷ enumerator "modifying_sql_data_not_permitted" 4059074 "2F002"
    ∷ enumerator "prohibited_sql_statement_attempted" 4059075 "2F003"
    ∷ enumerator "reading_sql_data_not_permitted" 4059076 "2F004"
    ∷ enumerator "invalid_cursor_name" 5225472 "34000"
    ∷ enumerator "external_routine_exception" 5412096 "38000"
    ∷ enumerator "containing_sql_not_permitted" 5412097 "38001"
    ∷ enumerator "modifying_sql_data_not_permitted_external" 5412098 "38002"
    ∷ enumerator "prohibited_sql_statement_attempted_external" 5412099 "38003"
    ∷ enumerator "reading_sql_data_not_permitted_external" 5412100 "38004"
    ∷ enumerator "external_routine_invocation_exception" 5458752 "39000"
    ∷ enumerator "invalid_sqlstate_returned" 5458753 "39001"
    ∷ enumerator "null_value_not_allowed_external" 5458756 "39004"
    ∷ enumerator "trigger_protocol_violated" 5491153 "39P01"
    ∷ enumerator "srf_protocol_violated" 5491154 "39P02"
    ∷ enumerator "savepoint_exception" 5552064 "3B000"
    ∷ enumerator "invalid_savepoint_specification" 5552065 "3B001"
    ∷ enumerator "invalid_catalog_name" 5645376 "3D000"
    ∷ enumerator "invalid_schema_name" 5738688 "3F000"
    ∷ enumerator "transaction_rollback" 6718464 "40000"
    ∷ enumerator "transaction_integrity_constraint_violation" 6718466 "40002"
    ∷ enumerator "serialization_failure" 6718465 "40001"
    ∷ enumerator "statement_completion_unknown" 6718467 "40003"
    ∷ enumerator "deadlock_detected" 6750865 "40P01"
    ∷ enumerator "syntax_error_or_access_rule_violation" 6811776 "42000"
    ∷ enumerator "syntax_error" 6819553 "42601"
    ∷ enumerator "insufficient_privilege" 6818257 "42501"
    ∷ enumerator "cannot_coerce" 6822294 "42846"
    ∷ enumerator "grouping_error" 6822147 "42803"
    ∷ enumerator "windowing_error" 6844248 "42P20"
    ∷ enumerator "invalid_recursion" 6844221 "42P19"
    ∷ enumerator "invalid_foreign_key" 6822252 "42830"
    ∷ enumerator "invalid_name" 6819554 "42602"
    ∷ enumerator "name_too_long" 6819626 "42622"
    ∷ enumerator "reserved_name" 6823557 "42939"
    ∷ enumerator "datatype_mismatch" 6822148 "42804"
    ∷ enumerator "indeterminate_datatype" 6844220 "42P18"
    ∷ enumerator "collation_mismatch" 6844249 "42P21"
    ∷ enumerator "indeterminate_collation" 6844250 "42P22"
    ∷ enumerator "wrong_object_type" 6822153 "42809"
    ∷ enumerator "undefined_column" 6820851 "42703"
    ∷ enumerator "undefined_function" 6822435 "42883"
    ∷ enumerator "undefined_table" 6844177 "42P01"
    ∷ enumerator "undefined_parameter" 6844178 "42P02"
    ∷ enumerator "undefined_object" 6820852 "42704"
    ∷ enumerator "duplicate_column" 6820849 "42701"
    ∷ enumerator "duplicate_cursor" 6844179 "42P03"
    ∷ enumerator "duplicate_database" 6844180 "42P04"
    ∷ enumerator "duplicate_function" 6820923 "42723"
    ∷ enumerator "duplicate_prepared_statement" 6844181 "42P05"
    ∷ enumerator "duplicate_schema" 6844182 "42P06"
    ∷ enumerator "duplicate_table" 6844183 "42P07"
    ∷ enumerator "duplicate_alias" 6820886 "42712"
    ∷ enumerator "duplicate_object" 6820884 "42710"
    ∷ enumerator "ambiguous_column" 6820850 "42702"
    ∷ enumerator "ambiguous_function" 6820925 "42725"
    ∷ enumerator "ambiguous_parameter" 6844184 "42P08"
    ∷ enumerator "ambiguous_alias" 6844185 "42P09"
    ∷ enumerator "invalid_column_reference" 6844212 "42P10"
    ∷ enumerator "invalid_column_definition" 6819589 "42611"
    ∷ enumerator "invalid_cursor_definition" 6844213 "42P11"
    ∷ enumerator "invalid_database_definition" 6844214 "42P12"
    ∷ enumerator "invalid_function_definition" 6844215 "42P13"
    ∷ enumerator "invalid_prepared_statement_definition" 6844216 "42P14"
    ∷ enumerator "invalid_schema_definition" 6844217 "42P15"
    ∷ enumerator "invalid_table_definition" 6844218 "42P16"
    ∷ enumerator "invalid_object_definition" 6844219 "42P17"
    ∷ enumerator "with_check_option_violation" 6905088 "44000"
    ∷ enumerator "insufficient_resources" 8538048 "53000"
    ∷ enumerator "disk_full" 8539344 "53100"
    ∷ []
