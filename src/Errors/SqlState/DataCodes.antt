-- ===== src/Errors/SqlState/DataCodes.antt =====
-- include/ozo/error.h: the enumerators of `sqlstate::code` from `successful_completion` to
-- `exclusion_violation`, in the order of the source.
use ozo.Prelude.{List, [], ◌∷◌}
use ozo.Errors.SqlState.Entry.{Enumerator, enumerator}

abbrev pub data_codes : List Enumerator
data_codes =
    enumerator "successful_completion" 0 "00000"
    ∷ enumerator "warning" 46656 "01000"
    ∷ enumerator "dynamic_result_sets_returned" 46668 "0100C"
    ∷ enumerator "implicit_zero_bit_padding" 46664 "01008"
    ∷ enumerator "null_value_eliminated_in_set_function" 46659 "01003"
    ∷ enumerator "privilege_not_granted" 46663 "01007"
    ∷ enumerator "privilege_not_revoked" 46662 "01006"
    ∷ enumerator "string_data_right_truncation_warning" 46660 "01004"
    ∷ enumerator "deprecated_feature" 79057 "01P01"
    ∷ enumerator "no_data" 93312 "02000"
    ∷ enumerator "no_additional_dynamic_result_sets_returned" 93313 "02001"
    ∷ enumerator "sql_statement_not_yet_complete" 139968 "03000"
    ∷ enumerator "connection_exception" 373248 "08000"
    ∷ enumerator "connection_does_not_exist" 373251 "08003"
    ∷ enumerator "connection_failure" 373254 "08006"
    ∷ enumerator "sqlclient_unable_to_establish_sqlconnection" 373249 "08001"
    ∷ enumerator "sqlserver_rejected_establishment_of_sqlconnection" 373252 "08004"
    ∷ enumerator "transaction_resolution_unknown" 373255 "08007"
    ∷ enumerator "protocol_violation" 405649 "08P01"
    ∷ enumerator "triggered_action_exception" 419904 "09000"
    ∷ enumerator "feature_not_supported" 466560 "0A000"
    ∷ enumerator "invalid_transaction_initiation" 513216 "0B000"
    ∷ enumerator "locator_exception" 699840 "0F000"
    ∷ enumerator "invalid_locator_specification" 699841 "0F001"
    ∷ enumerator "invalid_grantor" 979776 "0L000"
    ∷ enumerator "invalid_grant_operation" 1012177 "0LP01"
    ∷ enumerator "invalid_role_specification" 1166400 "0P000"
    ∷ enumerator "diagnostics_exception" 1632960 "0Z000"
    ∷ enumerator "stacked_diagnostics_accessed_without_active_handler" 1632962 "0Z002"
    ∷ enumerator "case_not_found" 3359232 "20000"
    ∷ enumerator "cardinality_violation" 3405888 "21000"
    ∷ enumerator "data_exception" 3452544 "22000"
    ∷ enumerator "array_subscript_error" 3452630 "2202E"
    ∷ enumerator "character_not_in_repertoire" 3452617 "22021"
    ∷ enumerator "datetime_field_overflow" 3452552 "22008"
    ∷ enumerator "division_by_zero" 3452582 "22012"
    ∷ enumerator "error_in_assignment" 3452549 "22005"
    ∷ enumerator "escape_character_conflict" 3452555 "2200B"
    ∷ enumerator "indicator_overflow" 3452618 "22022"
    ∷ enumerator "interval_field_overflow" 3452585 "22015"
    ∷ enumerator "invalid_argument_for_logarithm" 3452594 "2201E"
    ∷ enumerator "invalid_argument_for_ntile_function" 3452584 "22014"
    ∷ enumerator "invalid_argument_for_nth_value_function" 3452586 "22016"
    ∷ enumerator "invalid_argument_for_power_function" 3452595 "2201F"
    ∷ enumerator "invalid_argument_for_width_bucket_function" 3452596 "2201G"
    ∷ enumerator "invalid_character_value_for_cast" 3452588 "22018"
    ∷ enumerator "invalid_datetime_format" 3452551 "22007"
    ∷ enumerator "invalid_escape_character" 3452589 "22019"
    ∷ enumerator "invalid_escape_octet" 3452557 "2200D"
    ∷ enumerator "invalid_escape_sequence" 3452621 "22025"
    ∷ enumerator "nonstandard_use_of_escape_character" 3484950 "22P06"
    ∷ enumerator "invalid_indicator_parameter_value" 3452580 "22010"
    ∷ enumerator "invalid_parameter_value" 3452619 "22023"
    ∷ enumerator "invalid_regular_expression" 3452591 "2201B"
    ∷ enumerator "invalid_row_count_in_limit_clause" 3452612 "2201W"
    ∷ enumerator "invalid_row_count_in_result_offset_clause" 3452613 "2201X"
    ∷ enumerator "invalid_time_zone_displacement_value" 3452553 "22009"
    ∷ enumerator "invalid_use_of_escape_character" 3452556 "2200C"
    ∷ enumerator "most_specific_type_mismatch" 3452560 "2200G"
    ∷ enumerator "null_value_not_allowed" 3452548 "22004"
    ∷ enumerator "null_value_no_indicator_parameter" 3452546 "22002"
    ∷ enumerator "numeric_value_out_of_range" 3452547 "22003"
    ∷ enumerator "string_data_length_mismatch" 3452622 "22026"
    ∷ enumerator "string_data_right_truncation" 3452545 "22001"
    ∷ enumerator "substring_error" 3452581 "22011"
    ∷ enumerator "trim_error" 3452623 "22027"
    ∷ enumerator "unterminated_c_string" 3452620 "22024"
    ∷ enumerator "zero_length_character_string" 3452559 "2200F"
    ∷ enumerator "floating_point_exception" 3484945 "22P01"
    ∷ enumerator "invalid_text_representation" 3484946 "22P02"
    ∷ enumerator "invalid_binary_representation" 3484947 "22P03"
    ∷ enumerator "bad_copy_file_format" 3484948 "22P04"
    ∷ enumerator "untranslatable_character" 3484949 "22P05"
    ∷ enumerator "not_an_xml_document" 3452565 "2200L"
    ∷ enumerator "invalid_xml_document" 3452566 "2200M"
    ∷ enumerator "invalid_xml_content" 3452567 "2200N"
    ∷ enumerator "invalid_xml_comment" 3452572 "2200S"
    ∷ enumerator "invalid_xml_processing_instruction" 3452573 "2200T"
    ∷ enumerator "integrity_constraint_violation" 3499200 "23000"
    ∷ enumerator "restrict_violation" 3499201 "23001"
    ∷ enumerator "not_null_violation" 3505682 "23502"
    ∷ enumerator "foreign_key_violation" 3505683 "23503"
    ∷ enumerator "unique_violation" 3505685 "23505"
    ∷ enumerator "check_violation" 3505720 "23514"
    ∷ enumerator "exclusion_violation" 3531601 "23P01"
    ∷ []
