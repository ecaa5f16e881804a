-- ===== src/Handshake/Hello.antt =====
-- The server's hello in src/sync/protocol/handshake.rs, by the negotiated revision.
use st_clickhouse_lib.Common.{
  ℕ, zero, suc, List, [], ◌∷◌, not, Option, none, some, err, map_err, length, leb, ◌==◌,
  if◌then◌else◌,
}
use st_clickhouse_lib.Common.Bytes.{from_le_bytes}
use st_clickhouse_lib.Error.{Error, protocol, authentication, message, num, bytes}
use st_clickhouse_lib.Limits.Caps.{checked_count}
use st_clickhouse_lib.Revision.{
  effective_revision, with_versioned_parallel_replicas, with_server_timezone,
  with_server_display_name, with_version_patch, with_chunked_packets,
  with_password_complexity_rules, with_interserver_secret_v2, with_server_settings,
  with_query_plan_serialization, with_versioned_cluster_function, parallel_replicas_version,
}
use st_clickhouse_lib.Wire.Read.{Reader, read_exact, read_varint, read_string}
use st_clickhouse_lib.Wire.Reading.{pure, lift, ◌>>=◌, collect}
use st_clickhouse_lib.Response.Exceptions.{Level, join, first_or_zero}

abbrev pub raise : {A : Type 0} → Error → Reader A
raise e = lift (err e)

abbrev pub max_password_complexity_rules : ℕ
max_password_complexity_rules = 65_536

abbrev pub cluster_processing_version : ℕ
cluster_processing_version = 6

-- The fields that the hello sets. The two flags for chunks are false until they are negotiated. The
-- nonce is the bit pattern of an `i64`.
pub record ServerInfo : Type 0 where
  pub name : List ℕ
  pub major : ℕ
  pub minor : ℕ
  pub patch : ℕ
  pub revision : ℕ
  pub negotiated_revision : ℕ
  pub timezone : Option (List ℕ)
  pub display_name : Option (List ℕ)
  pub server_parallel_replicas_protocol_version : ℕ
  pub proto_send_chunked_srv : List ℕ
  pub proto_recv_chunked_srv : List ℕ
  pub password_complexity_rules : List (List ℕ × List ℕ)
  pub interserver_secret_nonce : Option ℕ
  pub server_query_plan_serialization_version : Option ℕ
  pub worker_cluster_function_protocol_version : ℕ

-- One exception of `read_exception_chain`, whose texts have to be UTF-8 here.
unfoldable pub read_level : Reader Level
unfolding read_exact read_string
read_level = do
  code ← read_exact 4
  name ← read_string
  text ← read_string
  stack ← read_string
  pure (record { code = from_le_bytes code; name = name; text = text })

unfoldable pub read_levels : ℕ → Reader (List Level)
unfolding read_level read_exact
read_levels zero =
    raise (protocol (message "exception nesting too deep: more than {} levels" (num 1000 ∷ [])))
read_levels (suc left) = do
  level ← read_level
  flag ← read_exact 1
  if first_or_zero flag == 0
      then pure (level ∷ [])
      else (read_levels left >>= λ levels. pure (level ∷ levels))

unfoldable pub read_exception_chain : ℕ → Reader (List ℕ)
unfolding read_levels join
read_exception_chain depth = do levels ← read_levels depth; pure (join levels)

-- `if negotiated_revision >= gate { read()? } else { default }`
unfoldable pub since : {A : Type 0} → ℕ → ℕ → Reader A → A → Reader A
since gate negotiated body default = if leb gate negotiated then body else pure default

unfoldable pub read_pair : Reader (List ℕ × List ℕ)
unfolding read_string
read_pair = do first ← read_string; second ← read_string; pure (first, second)

unfoldable pub read_some : {A : Type 0} → Reader A → Reader (Option A)
read_some body = do a ← body; pure (some a)

unfoldable pub read_rules : Reader (List (List ℕ × List ℕ))
unfolding read_varint collect read_pair
read_rules = do
  value ← read_varint
  count ← lift (
      map_err protocol
        (checked_count value "password complexity rule" max_password_complexity_rules))
  collect count read_pair

unfoldable pub read_nonce : Reader ℕ
unfolding read_exact
read_nonce = do bs ← read_exact 8; pure (from_le_bytes bs)

-- The loop over the settings, up to an empty name. A round takes a byte at least.
unfoldable pub settings_loop : ℕ → Reader (Unit {0})
unfolding read_string read_varint
settings_loop zero = raise (protocol (message "out of rounds" []))
settings_loop (suc fuel) = do
  name ← read_string
  if length name == 0
      then pure tt
      else (read_varint >>= λ flags. read_string >>= λ value. settings_loop fuel)

unfoldable pub skip_settings_strings_with_flags : Reader (Unit {0})
unfolding settings_loop
skip_settings_strings_with_flags src = settings_loop (suc (length src)) src

-- The fields behind the name, the version and the revision, for the negotiated revision `n`.
unfoldable pub read_fields : List ℕ → ℕ → ℕ → ℕ → ℕ → Reader ServerInfo
unfolding since read_varint read_some read_string read_pair read_rules read_nonce
    skip_settings_strings_with_flags
read_fields name major minor server_revision n = do
  replicas ← since with_versioned_parallel_replicas n read_varint parallel_replicas_version
  timezone ← since with_server_timezone n (read_some read_string) none
  display_name ← since with_server_display_name n (read_some read_string) none
  patch ← since with_version_patch n read_varint 0
  chunked ← since with_chunked_packets n read_pair ([], [])
  rules ← since with_password_complexity_rules n read_rules []
  nonce ← since with_interserver_secret_v2 n (read_some read_nonce) none
  settings ← since with_server_settings n skip_settings_strings_with_flags tt
  query_plan ← since with_query_plan_serialization n (read_some read_varint) none
  cluster ← since with_versioned_cluster_function n read_varint cluster_processing_version
  pure (record {
    name = name;
    major = major;
    minor = minor;
    patch = patch;
    revision = server_revision;
    negotiated_revision = n;
    timezone = timezone;
    display_name = display_name;
    server_parallel_replicas_protocol_version = replicas;
    proto_send_chunked_srv = chunked.0;
    proto_recv_chunked_srv = chunked.1;
    password_complexity_rules = rules;
    interserver_secret_nonce = nonce;
    server_query_plan_serialization_version = query_plan;
    worker_cluster_function_protocol_version = cluster;
  })

unfoldable pub read_hello_body : ℕ → Reader ServerInfo
unfolding read_string read_varint read_fields effective_revision
read_hello_body client_revision = do
  name ← read_string
  major ← read_varint
  minor ← read_varint
  server_revision ← read_varint
  read_fields name major minor server_revision (effective_revision client_revision server_revision)

-- An exception in place of the hello is a refused login.
unfoldable pub read_server_hello : ℕ → Reader ServerInfo
unfolding read_varint read_exception_chain read_hello_body
read_server_hello client_revision = do
  packet_type ← read_varint
  if packet_type == 2
      then (read_exception_chain 1000 >>= λ text.
          raise (authentication (message "{}" (bytes text ∷ []))))
      else if not (packet_type == 0)
      then raise (protocol (message "expected hello (0), got {}" (num packet_type ∷ [])))
      else read_hello_body client_revision
