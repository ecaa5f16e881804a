-- ===== src/Tests/Handshake.antt =====
-- The handshake with a server at the newest revision.
use st_clickhouse_lib.Common.{◌≡◌, refl, [], ◌∷◌, ◌++◌, none, some, ok, arith}
use st_clickhouse_lib.TypeParser.Text.{codes}
use st_clickhouse_lib.Revision.{effective_revision}
use st_clickhouse_lib.Wire.Utf8.{is_utf8}
use st_clickhouse_lib.Handshake.{ClientConfig, client_hello, handshake}
use st_clickhouse_lib.Handshake.Hello.{ServerInfo}
use st_clickhouse_lib.Handshake.RoundTrip.{Setting, HelloFits, hello_bytes}
use st_clickhouse_lib.Handshake.Login.{handshake-hello_bytes}

abbrev config : ClientConfig
config = record {
  client_name = codes "rust";
  client_version_major = 1;
  client_version_minor = 0;
  client_revision = 54483;
  database = codes "default";
  user = codes "default";
  password = [];
  ssh_signer = none;
}

abbrev info : ServerInfo
info = record {
  name = codes "srv";
  major = 26;
  minor = 4;
  patch = 2;
  revision = 54500;
  negotiated_revision = 54483;
  timezone = some (codes "UTC");
  display_name = some (codes "host");
  server_parallel_replicas_protocol_version = 7;
  proto_send_chunked_srv = codes "chunked";
  proto_recv_chunked_srv = codes "notchunked_optional";
  password_complexity_rules = (codes ".{8}", codes "long") ∷ [];
  interserver_secret_nonce = some 300;
  server_query_plan_serialization_version = some 1;
  worker_cluster_function_protocol_version = 4;
}

abbrev setting : Setting
setting = record { name = codes "max_threads"; flags = 1; value = codes "8" }

info_fits : HelloFits 54483 info
unfolding is_utf8 effective_revision
info_fits = record {
  name_fits = (omega arith, refl);
  major_fits = omega arith;
  minor_fits = omega arith;
  revision_fits = omega arith;
  negotiated = refl;
  replicas_fits = omega arith;
  timezone_fits = (refl, (omega arith, refl));
  display_name_fits = (refl, (omega arith, refl));
  patch_fits = omega arith;
  chunked_fits = ((omega arith, refl), (omega arith, refl));
  rules_fits = (omega arith, (((omega arith, refl), (omega arith, refl)), tt));
  nonce_fits = (refl, omega arith);
  query_plan_fits = (refl, omega arith);
  cluster_fits = omega arith;
}

handshake-hello_bytes_example :
    handshake config (hello_bytes info (setting ∷ []) ++ (1 ∷ []))
    ≡ ok ((info, client_hello config ++ []), 1 ∷ [])
unfolding is_utf8
handshake-hello_bytes_example =
    handshake-hello_bytes config info (setting ∷ []) (1 ∷ []) refl (omega arith) (omega arith)
      info_fits ((omega arith, (omega arith, refl), omega arith, (omega arith, refl)), tt)
