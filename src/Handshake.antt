-- ===== src/Handshake.antt =====
-- The handshake of src/sync/protocol/handshake.rs, with shared/ssh_auth.rs. What the server sends is
-- the list of bytes that the stream still delivers, and what the client sends is a list of bytes.
pub mod Hello
pub mod Fields
pub mod RoundTrip
pub mod Login
use st_clickhouse_lib.Common.{
  ℕ, zero, suc, List, [], ◌∷◌, ◌++◌, Bool, true, false, not, ◌&&◌, Option, none, some, Result, ok,
  err, map_err, length, ltb, ◌==◌, if◌then◌else◌,
}
use st_clickhouse_lib.Error.{Error, Message, protocol, authentication, message, num, bytes}
use st_clickhouse_lib.TypeParser.Text.{codes}
use st_clickhouse_lib.Revision.{validate_supported_revision}
use st_clickhouse_lib.Wire.Read.{Reader, read_varint, read_string_bytes}
use st_clickhouse_lib.Wire.Write.{write_varint, write_string}
use st_clickhouse_lib.Wire.Reading.{pure, lift, ◌>>=◌}
use st_clickhouse_lib.Response.Exceptions.{decimal_text}
use st_clickhouse_lib.Handshake.Hello.{ServerInfo, read_exception_chain, read_server_hello, raise}

-- The signer is the user's: it answers a payload with a signature or a text.
-- What the handshake reads of the configuration.
pub record ClientConfig : Type 0 where
  pub client_name : List ℕ
  pub client_version_major : ℕ
  pub client_version_minor : ℕ
  pub client_revision : ℕ
  pub database : List ℕ
  pub user : List ℕ
  pub password : List ℕ
  pub ssh_signer : Option (List ℕ → Result (List ℕ) (List ℕ))

unfoldable pub ssh_auth_user : List ℕ → List ℕ
ssh_auth_user user = codes " SSH KEY AUTHENTICATION " ++ user

-- `to_string` of a `u64`, which has twenty digits at most.
unfoldable pub ssh_signature_message : ℕ → List ℕ → List ℕ → List ℕ → List ℕ
unfolding decimal_text
ssh_signature_message revision database user challenge =
    decimal_text 20 revision ++ (database ++ (user ++ challenge))

abbrev pub is_some : {A : Type 0} → Option A → Bool
is_some none = false
is_some (some a) = true

unfoldable pub client_hello : ClientConfig → List ℕ
unfolding write_varint write_string ssh_auth_user
client_hello config =
    write_varint 0
    ++ (write_string config.client_name
        ++ (write_varint config.client_version_major
            ++ (write_varint config.client_version_minor
                ++ (write_varint config.client_revision
                    ++ (write_string config.database
                        ++ (if is_some config.ssh_signer
                            then write_string (ssh_auth_user config.user) ++ write_string []
                            else write_string config.user ++ write_string config.password))))))

-- The challenge of the server, or the exception that it sends in place of one.
unfoldable pub read_challenge : Reader (List ℕ)
unfolding read_varint read_string_bytes read_exception_chain
read_challenge = do
  packet_type ← read_varint
  if packet_type == 18
      then read_string_bytes
      else if packet_type == 2
      then (read_exception_chain 1000 >>= λ text.
          raise (authentication (message "{}" (bytes text ∷ []))))
      else raise (
          protocol
            (message "expected SSHChallenge or Exception packet, got {}" (num packet_type ∷ [])))

-- What the client sends behind its hello: the request, and the signed challenge.
unfoldable pub perform_ssh_auth :
    ClientConfig → (List ℕ → Result (List ℕ) (List ℕ)) → Reader (List ℕ)
unfolding write_varint write_string read_challenge ssh_signature_message
perform_ssh_auth config signer = do
  challenge ← read_challenge
  signature ← lift (
      map_err (λ text. authentication (message "{}" (bytes text ∷ [])))
        (signer
          (ssh_signature_message config.client_revision config.database config.user challenge)))
  pure (write_varint 11 ++ (write_varint 12 ++ write_string signature))

unfoldable pub ssh_packets : ClientConfig → Reader (List ℕ)
unfolding perform_ssh_auth
ssh_packets config = elim config.ssh_signer [
  | none ↦ pure []
  | some signer ↦ perform_ssh_auth config signer
]

-- The tests on the configuration, before anything is sent.
unfoldable pub check_config : ClientConfig → Result (Unit {0}) Error
unfolding validate_supported_revision
check_config config = elim (validate_supported_revision config.client_revision) [
  | err e ↦ err (protocol e)
  | ok checked ↦
      if is_some config.ssh_signer && ltb config.client_revision 54466
      then err (
          protocol
            (message "SSH-key authentication requires protocol revision >= {}" (num 54466 ∷ [])))
      else ok tt
]

-- The server's information with the bytes that the client has sent.
unfoldable pub handshake : ClientConfig → Reader (ServerInfo × List ℕ)
unfolding check_config client_hello ssh_packets read_server_hello
handshake config = do
  checked ← lift (check_config config)
  ssh ← ssh_packets config
  info ← read_server_hello config.client_revision
  pure (info, client_hello config ++ ssh)
