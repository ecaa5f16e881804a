-- ===== src/Revision.antt =====
-- shared/protocol_revision.rs: the revisions that gate parts of the protocol.
use st_clickhouse_lib.Common.{ℕ, min, [], ◌∷◌, Result, ok, err, ltb, if◌then◌else◌}
use st_clickhouse_lib.Error.{Message, message, num}

abbrev pub with_server_timezone : ℕ
with_server_timezone = 54058

abbrev pub with_tables_status : ℕ
with_tables_status = 54226

abbrev pub with_server_display_name : ℕ
with_server_display_name = 54372

abbrev pub with_version_patch : ℕ
with_version_patch = 54401

abbrev pub with_client_write_info : ℕ
with_client_write_info = 54420

abbrev pub with_parameters : ℕ
with_parameters = 54459

abbrev pub with_server_query_time_in_progress : ℕ
with_server_query_time_in_progress = 54460

abbrev pub with_password_complexity_rules : ℕ
with_password_complexity_rules = 54461

abbrev pub with_interserver_secret_v2 : ℕ
with_interserver_secret_v2 = 54462

abbrev pub with_total_bytes_in_progress : ℕ
with_total_bytes_in_progress = 54463

abbrev pub with_table_read_only_check : ℕ
with_table_read_only_check = 54467

abbrev pub with_rows_before_aggregation : ℕ
with_rows_before_aggregation = 54469

abbrev pub with_chunked_packets : ℕ
with_chunked_packets = 54470

abbrev pub with_versioned_parallel_replicas : ℕ
with_versioned_parallel_replicas = 54471

abbrev pub with_server_settings : ℕ
with_server_settings = 54474

abbrev pub with_query_plan_serialization : ℕ
with_query_plan_serialization = 54477

abbrev pub with_versioned_cluster_function : ℕ
with_versioned_cluster_function = 54479

abbrev pub with_nullable_sparse_serialization : ℕ
with_nullable_sparse_serialization = 54483

abbrev pub parallel_replicas_version : ℕ
parallel_replicas_version = 7

abbrev pub min_supported : ℕ
min_supported = with_parameters

abbrev pub max_supported : ℕ
max_supported = with_nullable_sparse_serialization

unfoldable pub effective_revision : ℕ → ℕ → ℕ
effective_revision client_revision server_revision = min client_revision server_revision

unfoldable pub validate_supported_revision : ℕ → Result (Unit {0}) Message
validate_supported_revision revision =
    if ltb revision min_supported
    then err (
        message "protocol revision {} is below the supported minimum {}"
          (num revision ∷ num min_supported ∷ []))
    else if ltb max_supported revision
    then err (
        message "protocol revision {} is not enabled; max supported is {}"
          (num revision ∷ num max_supported ∷ []))
    else ok tt
