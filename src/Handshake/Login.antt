-- ===== src/Handshake/Login.antt =====
-- The whole handshake of src/sync/protocol/handshake.rs with a password.
use st_clickhouse_lib.Common.{ℕ, ◌≤◌, ◌≡◌, List, [], ◌++◌, none, ok, All, arith}
use st_clickhouse_lib.Revision.{min_supported, max_supported, validate_supported_revision}
use st_clickhouse_lib.Wire.Reading.{
  Decodes, Decodes-pure, Decodes-lift, Decodes-bind, Decodes-mapped,
}
use st_clickhouse_lib.Handshake.Hello.{ServerInfo, read_server_hello}
use st_clickhouse_lib.Handshake.RoundTrip.{
  Setting, SettingFits, HelloFits, hello_bytes, read_server_hello-hello_bytes,
}
use st_clickhouse_lib.Handshake.{ClientConfig, check_config, client_hello, ssh_packets, handshake}

module _ (config : ClientConfig) (by_password : config.ssh_signer ≡ none) where
  check_config-ok :
      min_supported ≤ config.client_revision
      → config.client_revision ≤ max_supported
      → check_config config ≡ ok tt
  unfolding check_config validate_supported_revision
  check_config-ok old new = ground (arith, by_password)

  Decodes-no_ssh : Decodes (ssh_packets config) [] []
  unfolding ssh_packets
  Decodes-no_ssh = rw by_password (Decodes-pure [])

Decodes-read_server_hello :
    (client_revision : ℕ) (info : ServerInfo) (settings : List Setting)
    → HelloFits client_revision info
    → All SettingFits settings
    → Decodes (read_server_hello client_revision) info (hello_bytes info settings)
unfolding Decodes
Decodes-read_server_hello client_revision info settings fits known rest =
    read_server_hello-hello_bytes client_revision info settings rest fits known

-- A client with a password and a supported revision, and a server whose information fits the smaller
-- of the two revisions, with any settings that are named: the handshake succeeds, sends the client's
-- hello and nothing more, and reads from the server's hello what the server wrote, field by field. It
-- stops right behind the hello, whatever follows.
pub handshake-hello_bytes :
    (config : ClientConfig) (info : ServerInfo) (settings : List Setting) (rest : List ℕ)
    → config.ssh_signer ≡ none
    → min_supported ≤ config.client_revision
    → config.client_revision ≤ max_supported
    → HelloFits config.client_revision info
    → All SettingFits settings
    → handshake config (hello_bytes info settings ++ rest)
      ≡ ok ((info, client_hello config ++ []), rest)
unfolding Decodes handshake
handshake-hello_bytes config info settings rest by_password old new fits known =
    Decodes-bind _ _ tt _ [] _ (Decodes-lift _ tt (check_config-ok config by_password old new))
      (Decodes-bind _ _ [] _ [] _ (Decodes-no_ssh config by_password) (
        Decodes-mapped _ _ info (info, client_hello config ++ []) (hello_bytes info settings)
          (Decodes-read_server_hello config.client_revision info settings fits known)
          (Decodes-pure (info, client_hello config ++ []))))
      rest
