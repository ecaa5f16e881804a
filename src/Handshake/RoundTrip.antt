-- ===== src/Handshake/RoundTrip.antt =====
-- A server's hello, written for a negotiated revision, is read back by src/sync/protocol/handshake.rs.
use st_clickhouse_lib.Common.{
  ℕ, zero, suc, ◌^◌, ◌≤◌, ◌<◌, ◌≡◌, refl, List, [], ◌∷◌, ◌++◌, Bool, true, false, ok, length,
  length-append, leb, if◌then◌else◌, All, arith, ne→==,
}
use st_clickhouse_lib.Common.Bytes.{to_le_bytes}
use st_clickhouse_lib.Revision.{
  effective_revision, with_versioned_parallel_replicas, with_server_timezone,
  with_server_display_name, with_version_patch, with_chunked_packets,
  with_password_complexity_rules, with_interserver_secret_v2, with_server_settings,
  with_query_plan_serialization, with_versioned_cluster_function, parallel_replicas_version,
}
use st_clickhouse_lib.Wire.Utf8.{is_utf8}
use st_clickhouse_lib.Wire.Read.{read_varint, read_string}
use st_clickhouse_lib.Wire.Write.{write_varint, write_string}
use st_clickhouse_lib.Wire.Reading.{
  pure, Decodes, Decodes-pure, Decodes-bind, Decodes-mapped, Decodes-read_varint,
  Decodes-read_string,
}
use st_clickhouse_lib.Handshake.Hello.{
  ServerInfo, since, read_pair, read_rules, read_nonce, settings_loop,
  skip_settings_strings_with_flags, read_fields, read_hello_body, read_server_hello,
  cluster_processing_version,
}
use st_clickhouse_lib.Handshake.Fields.{
  IsText, IsPair, OptionFits, option_bytes, DefaultFits, gated, Decodes-option, Decodes-default,
  pair_bytes, Decodes-read_pair, RulesFit, rules_bytes, Decodes-read_rules, Decodes-read_nonce,
}

abbrev pub IsWord : ℕ → Type 0
IsWord v = v < 2 ^ 64

-- A setting that the server announces.
pub record Setting : Type 0 where
  pub name : List ℕ
  pub flags : ℕ
  pub value : List ℕ

abbrev pub SettingFits : Setting → Type 0
SettingFits setting =
    (0 < length setting.name) × IsText setting.name × IsWord setting.flags × IsText setting.value

unfoldable pub settings_bytes : List Setting → List ℕ
settings_bytes [] = write_string []
settings_bytes (setting ∷ settings) =
    write_string setting.name
    ++ (write_varint setting.flags ++ (write_string setting.value ++ settings_bytes settings))

empty_utf8 : is_utf8 [] ≡ true
unfolding is_utf8
empty_utf8 = refl

Decodes-settings_loop :
    (fuel : ℕ) (settings : List Setting)
    → All SettingFits settings
    → length settings < fuel
    → Decodes (settings_loop fuel) tt (settings_bytes settings)
unfolding settings_loop settings_bytes
Decodes-settings_loop zero settings fits h = absurd (omega arith)
Decodes-settings_loop (suc fuel) [] fits h =
    Decodes-mapped read_string _ [] tt (write_string [])
      (Decodes-read_string [] (omega arith) empty_utf8) (Decodes-pure tt)
Decodes-settings_loop (suc fuel) (setting ∷ settings) ((some_name, name, flags, value), fits) h =
    Decodes-bind read_string _ setting.name tt (write_string setting.name) _
      (Decodes-read_string setting.name name.0 name.1)
      (rw (ne→== (length setting.name) 0 (λ e. omega arith)) (
        Decodes-bind read_varint _ setting.flags tt (write_varint setting.flags) _
          (Decodes-read_varint setting.flags flags)
          (Decodes-bind read_string _ setting.value tt (write_string setting.value) _
            (Decodes-read_string setting.value value.0 value.1)
            (Decodes-settings_loop fuel settings fits (omega arith)))))

length-write_string : (s : List ℕ) → length s ≤ length (write_string s)
unfolding write_string
length-write_string s = omega (arith, length-append (write_varint (length s)) s)

Decodes-text : (s : List ℕ) → IsText s → Decodes read_string s (write_string s)
Decodes-text s (short, utf8) = Decodes-read_string s short utf8

long_enough :
    (settings : List Setting)
    → All SettingFits settings
    → length settings ≤ length (settings_bytes settings)
unfolding settings_bytes
long_enough [] h = omega arith
long_enough (setting ∷ settings) ((some_name, name, flags, value), fits) = omega (
  arith,
  some_name,
  length-write_string setting.name,
  long_enough settings fits,
  length-append (write_string setting.name)
      (write_varint setting.flags ++ (write_string setting.value ++ settings_bytes settings)),
  length-append (write_varint setting.flags)
      (write_string setting.value ++ settings_bytes settings),
  length-append (write_string setting.value) (settings_bytes settings),
)

Decodes-skip_settings :
    (settings : List Setting)
    → All SettingFits settings
    → Decodes skip_settings_strings_with_flags tt (settings_bytes settings)
unfolding Decodes skip_settings_strings_with_flags
Decodes-skip_settings settings fits rest =
    Decodes-settings_loop (suc (length (settings_bytes settings ++ rest))) settings fits
      (omega (arith, long_enough settings fits, length-append (settings_bytes settings) rest)) rest

-- What a server knows of itself that fits its revision: the fields that the negotiated revision has
-- are in range, and those that it does not have are absent or have the client's default.
pub record HelloFits (client_revision : ℕ) (info : ServerInfo) : Type 0 where
  pub name_fits : IsText info.name
  pub major_fits : IsWord info.major
  pub minor_fits : IsWord info.minor
  pub revision_fits : IsWord info.revision
  pub negotiated : effective_revision client_revision info.revision ≡ info.negotiated_revision
  pub replicas_fits :
      DefaultFits
        (leb with_versioned_parallel_replicas info.negotiated_revision)
        IsWord
        parallel_replicas_version
        info.server_parallel_replicas_protocol_version
  pub timezone_fits : OptionFits with_server_timezone info.negotiated_revision IsText info.timezone
  pub display_name_fits :
      OptionFits with_server_display_name info.negotiated_revision IsText info.display_name
  pub patch_fits : DefaultFits (leb with_version_patch info.negotiated_revision) IsWord 0 info.patch
  pub chunked_fits :
      DefaultFits
        (leb with_chunked_packets info.negotiated_revision)
        IsPair
        ([], [])
        (info.proto_send_chunked_srv, info.proto_recv_chunked_srv)
  pub rules_fits :
      DefaultFits
        (leb with_password_complexity_rules info.negotiated_revision)
        RulesFit
        []
        info.password_complexity_rules
  pub nonce_fits :
      OptionFits with_interserver_secret_v2 info.negotiated_revision IsWord
        info.interserver_secret_nonce
  pub query_plan_fits :
      OptionFits with_query_plan_serialization info.negotiated_revision IsWord
        info.server_query_plan_serialization_version
  pub cluster_fits :
      DefaultFits
        (leb with_versioned_cluster_function info.negotiated_revision)
        IsWord
        cluster_processing_version
        info.worker_cluster_function_protocol_version

-- The server's side of the layout, with its settings.
unfoldable pub field_bytes : ServerInfo → List Setting → List ℕ
field_bytes info settings =
    let n = info.negotiated_revision in
    gated (leb with_versioned_parallel_replicas n)
      (write_varint info.server_parallel_replicas_protocol_version)
    ++ (option_bytes write_string info.timezone
        ++ (option_bytes write_string info.display_name
            ++ (gated (leb with_version_patch n) (write_varint info.patch)
                ++ (gated (leb with_chunked_packets n)
                      (pair_bytes (info.proto_send_chunked_srv, info.proto_recv_chunked_srv))
                    ++ (gated (leb with_password_complexity_rules n)
                          (rules_bytes info.password_complexity_rules)
                        ++ (option_bytes (to_le_bytes 8) info.interserver_secret_nonce
                            ++ (gated (leb with_server_settings n) (settings_bytes settings)
                                ++ (option_bytes write_varint
                                      info.server_query_plan_serialization_version
                                    ++ gated (leb with_versioned_cluster_function n) (
                                        write_varint
                                          info.worker_cluster_function_protocol_version)))))))))

unfoldable pub hello_bytes : ServerInfo → List Setting → List ℕ
hello_bytes info settings =
    write_varint 0
    ++ (write_string info.name
        ++ (write_varint info.major
            ++ (write_varint info.minor
                ++ (write_varint info.revision ++ field_bytes info settings))))

settings_case :
    (on : Bool) (settings : List Setting)
    → All SettingFits settings
    → Decodes
        (if on then skip_settings_strings_with_flags else pure tt)
        tt
        (gated on (settings_bytes settings))
settings_case true settings fits = Decodes-skip_settings settings fits
settings_case false settings fits = Decodes-pure tt

module _ (client_revision : ℕ) (info : ServerInfo) (settings : List Setting)
    (fits : HelloFits client_revision info) (known : All SettingFits settings) where
  Decodes-read_fields :
      Decodes
        (read_fields info.name info.major info.minor info.revision info.negotiated_revision)
        info
        (field_bytes info settings)
  unfolding read_fields field_bytes since
  Decodes-read_fields =
      let n = info.negotiated_revision in
      Decodes-bind _ _ _ info _ _
        (Decodes-default with_versioned_parallel_replicas n read_varint write_varint IsWord
          Decodes-read_varint parallel_replicas_version _ fits.replicas_fits)
        (Decodes-bind _ _ _ info _ _
          (Decodes-option with_server_timezone n read_string write_string IsText Decodes-text _
            fits.timezone_fits)
          (Decodes-bind _ _ _ info _ _
            (Decodes-option with_server_display_name n read_string write_string IsText Decodes-text
              _ fits.display_name_fits)
            (Decodes-bind _ _ _ info _ _
              (Decodes-default with_version_patch n read_varint write_varint IsWord
                Decodes-read_varint 0 _ fits.patch_fits)
              (Decodes-bind _ _ _ info _ _
                (Decodes-default with_chunked_packets n read_pair pair_bytes IsPair
                  Decodes-read_pair ([], []) _ fits.chunked_fits)
                (Decodes-bind _ _ _ info _ _
                  (Decodes-default with_password_complexity_rules n read_rules rules_bytes RulesFit
                    Decodes-read_rules [] _ fits.rules_fits)
                  (Decodes-bind _ _ _ info _ _
                    (Decodes-option with_interserver_secret_v2 n read_nonce (to_le_bytes 8) IsWord
                      Decodes-read_nonce _ fits.nonce_fits)
                    (Decodes-bind _ _ tt info _ _
                      (settings_case (leb with_server_settings n) settings known)
                      (Decodes-bind _ _ _ info _ _
                        (Decodes-option with_query_plan_serialization n read_varint write_varint
                          IsWord Decodes-read_varint _ fits.query_plan_fits)
                        (Decodes-mapped _ _ _ info _
                          (Decodes-default with_versioned_cluster_function n read_varint
                            write_varint IsWord Decodes-read_varint cluster_processing_version _
                            fits.cluster_fits)
                          (Decodes-pure info))))))))))

  Decodes-read_hello_body : Decodes (read_hello_body client_revision) info (
      write_string info.name
      ++ (write_varint info.major
          ++ (write_varint info.minor
              ++ (write_varint info.revision ++ field_bytes info settings))))
  unfolding read_hello_body
  Decodes-read_hello_body =
      Decodes-bind read_string _ info.name info (write_string info.name) _
        (Decodes-text info.name fits.name_fits)
        (Decodes-bind read_varint _ info.major info (write_varint info.major) _
          (Decodes-read_varint info.major fits.major_fits)
          (Decodes-bind read_varint _ info.minor info (write_varint info.minor) _
            (Decodes-read_varint info.minor fits.minor_fits)
            (Decodes-bind read_varint _ info.revision info (write_varint info.revision) _
              (Decodes-read_varint info.revision fits.revision_fits)
              (rw fits.negotiated Decodes-read_fields))))

-- For every revision of the client, and every server whose information fits the smaller of the two
-- revisions, with any settings that are named: the client reads from the server's hello what the
-- server wrote, field by field, and stops right behind it, whatever follows.
pub read_server_hello-hello_bytes :
    (client_revision : ℕ) (info : ServerInfo) (settings : List Setting) (rest : List ℕ)
    → HelloFits client_revision info
    → All SettingFits settings
    → read_server_hello client_revision (hello_bytes info settings ++ rest) ≡ ok (info, rest)
unfolding Decodes read_server_hello hello_bytes
read_server_hello-hello_bytes client_revision info settings rest fits known =
    Decodes-bind read_varint _ 0 info (write_varint 0) _ (Decodes-read_varint 0 (omega arith))
      (Decodes-read_hello_body client_revision info settings fits known) rest
