-- ===== src/Errors/SqlState/ServerCodes.antt =====
-- include/ozo/error.h: the enumerators of `sqlstate::code` from `out_of_memory` to
-- `index_corrupted`, in the order of the source.
use ozo.Prelude.{List, [], ◌∷◌}
use ozo.Errors.SqlState.Entry.{Enumerator, enumerator}

abbrev pub server_codes : List Enumerator
server_codes =
    enumerator "out_of_memory" 8540640 "53200"
    ∷ enumerator "too_many_connections" 8541936 "53300"
    ∷ enumerator "configuration_limit_exceeded" 8543232 "53400"
    ∷ enumerator "program_limit_exceeded" 8584704 "54000"
    ∷ enumerator "statement_too_complex" 8584705 "54001"
    ∷ enumerator "too_many_columns" 8584741 "54011"
    ∷ enumerator "too_many_arguments" 8584779 "54023"
    ∷ enumerator "object_not_in_prerequisite_state" 8631360 "55000"
    ∷ enumerator "object_in_use" 8631366 "55006"
    ∷ enumerator "cant_change_runtime_param" 8663762 "55P02"
    ∷ enumerator "lock_not_available" 8663763 "55P03"
    ∷ enumerator "operator_intervention" 8724672 "57000"
    ∷ enumerator "query_canceled" 8724712 "57014"
    ∷ enumerator "admin_shutdown" 8757073 "57P01"
    ∷ enumerator "crash_shutdown" 8757074 "57P02"
    ∷ enumerator "cannot_connect_now" 8757075 "57P03"
    ∷ enumerator "database_dropped" 8757076 "57P04"
    ∷ enumerator "system_error" 8771328 "58000"
    ∷ enumerator "io_error" 8771436 "58030"
    ∷ enumerator "undefined_file" 8803729 "58P01"
    ∷ enumerator "duplicate_file" 8803730 "58P02"
    ∷ enumerator "config_file_error" 25194240 "F0000"
    ∷ enumerator "lock_file_exists" 25194241 "F0001"
    ∷ enumerator "fdw_error" 29999808 "HV000"
    ∷ enumerator "fdw_column_name_not_found" 29999813 "HV005"
    ∷ enumerator "fdw_dynamic_parameter_value_needed" 29999810 "HV002"
    ∷ enumerator "fdw_function_sequence_error" 29999844 "HV010"
    ∷ enumerator "fdw_inconsistent_descriptor_information" 29999881 "HV021"
    ∷ enumerator "fdw_invalid_attribute_value" 29999884 "HV024"
    ∷ enumerator "fdw_invalid_column_name" 29999815 "HV007"
    ∷ enumerator "fdw_invalid_column_number" 29999816 "HV008"
    ∷ enumerator "fdw_invalid_data_type" 29999812 "HV004"
    ∷ enumerator "fdw_invalid_data_type_descriptors" 29999814 "HV006"
    ∷ enumerator "fdw_invalid_descriptor_field_identifier" 30000133 "HV091"
    ∷ enumerator "fdw_invalid_handle" 29999819 "HV00B"
    ∷ enumerator "fdw_invalid_option_index" 29999820 "HV00C"
    ∷ enumerator "fdw_invalid_option_name" 29999821 "HV00D"
    ∷ enumerator "fdw_invalid_string_length_or_buffer_length" 30000132 "HV090"
    ∷ enumerator "fdw_invalid_string_format" 29999818 "HV00A"
    ∷ enumerator "fdw_invalid_use_of_null_pointer" 29999817 "HV009"
    ∷ enumerator "fdw_too_many_handles" 29999848 "HV014"
    ∷ enumerator "fdw_out_of_memory" 29999809 "HV001"
    ∷ enumerator "fdw_no_schemas" 29999833 "HV00P"
    ∷ enumerator "fdw_option_name_not_found" 29999827 "HV00J"
    ∷ enumerator "fdw_reply_handle" 29999828 "HV00K"
    ∷ enumerator "fdw_schema_not_found" 29999834 "HV00Q"
    ∷ enumerator "fdw_table_not_found" 29999835 "HV00R"
    ∷ enumerator "fdw_unable_to_create_execution" 29999829 "HV00L"
    ∷ enumerator "fdw_unable_to_create_reply" 29999830 "HV00M"
    ∷ enumerator "fdw_unable_to_establish_connection" 29999831 "HV00N"
    ∷ enumerator "plpgsql_error" 41990400 "P0000"
    ∷ enumerator "raise_exception" 41990401 "P0001"
    ∷ enumerator "no_data_found" 41990402 "P0002"
    ∷ enumerator "too_many_rows" 41990403 "P0003"
    ∷ enumerator "internal_error" 56966976 "XX000"
    ∷ enumerator "data_corrupted" 56966977 "XX001"
    ∷ enumerator "index_corrupted" 56966978 "XX002"
    ∷ []
