-- ===== src/Smtp/Server.antt =====
-- internal/smtp/backend.go: the set-up of the SMTP server from the environment, as
-- cmd/server/main.go does it. The environment, the reading of a key pair and `time.ParseDuration`
-- are parameters. A duration is a number of nanoseconds.
use webrana_infinimail_backe.Smtp.Certificates.{SecureServer, get_certificate_with_fallback}
use webrana_infinimail_backe.Text.{Bytes, codes, bytes_eq, is_empty}
use webrana_infinimail_backe.Text.Decimal.{all_digits, decimal_value}
use webrana_infinimail_backe.Effect.{ok, err, Result, Action}
use webrana_infinimail_backe.Prelude.{
  zero, suc, [], true, false, none, some, ◌∷◌, ℕ, Bool, Option, if◌then◌else◌, not, ltb, ◌==◌, List,
  ◌&&◌, String, ◌||◌,
}

-- an `int64`, an `int` or a duration of Go
pub data ℤ : Type 0 where
  pos : ℕ → ℤ
  negsuc : ℕ → ℤ

-- `strconv.ParseInt(s, 10, 64)`, after the sign
unfoldable pub parse_digits : Bytes → Option ℕ
unfolding all_digits decimal_value
parse_digits s = if not (is_empty s) && all_digits s then some (decimal_value s 0) else none

unfoldable pub signed : Bool → Option ℕ → Option ℤ
signed negative none = none
signed false (some n) = if ltb n 9223372036854775808 then some (pos n) else none
signed true (some zero) = some (pos 0)
signed true (some (suc n)) = if ltb n 9223372036854775808 then some (negsuc n) else none

-- `strconv.ParseInt(s, 10, 64)` and, where an int has 64 bits, `strconv.Atoi`
unfoldable pub parse_int : Bytes → Option ℤ
unfolding parse_digits signed
parse_int [] = none
parse_int (c ∷ s) =
    if c == b'-'
    then signed true (parse_digits s)
    else if c == b'+'
    then signed false (parse_digits s)
    else signed false (parse_digits (c ∷ s))

unfoldable pub one_of : Bytes → List String → Bool
unfolding codes bytes_eq
one_of s [] = false
one_of s (t ∷ ts) = bytes_eq s (codes t) || one_of s ts

-- `strconv.ParseBool`
unfoldable pub parse_bool : Bytes → Option Bool
unfolding one_of
parse_bool s =
    if one_of s ("1" ∷ "t" ∷ "T" ∷ "TRUE" ∷ "true" ∷ "True" ∷ [])
    then some true
    else if one_of s ("0" ∷ "f" ∷ "F" ∷ "FALSE" ∷ "false" ∷ "False" ∷ [])
    then some false
    else none

-- `tls.Config` as this program sets it: one certificate, or `GetCertificate`
pub data TlsConfig (C : Type 0) : Type 0 where
  one_certificate : C → TlsConfig C
  by_server_name : TlsConfig C

pub record ServerConfig (C : Type 0) : Type 0 where
  pub addr : Bytes
  pub domain : Bytes
  pub max_message_size : ℤ
  pub max_recipients : ℤ
  pub read_timeout : ℤ
  pub write_timeout : ℤ
  pub allow_insecure : Bool
  pub tls_config : Option (TlsConfig C)
  pub get_certificate : Option (Bytes → Result (Option C))
  pub default_cert_file : Bytes
  pub default_key_file : Bytes

-- `smtp.Server` of go-smtp with the fields that are set, and the wrapper
pub record SmtpServer (C : Type 0) : Type 0 where
  pub addr : Bytes
  pub domain : Bytes
  pub max_message_bytes : ℕ
  pub max_recipients : ℕ
  pub read_timeout : ℕ
  pub write_timeout : ℕ
  pub allow_insecure_auth : Bool
  pub max_line_length : ℕ
  pub tls_config : TlsConfig C
  pub secure : SecureServer C

-- `if cfg.Limit > 0`
unfoldable pub positive_or : ℤ → ℕ → ℕ
positive_or (pos zero) default_limit = default_limit
positive_or (pos (suc n)) default_limit = suc n
positive_or (negsuc n) default_limit = default_limit

-- `if value, err := parse(os.Getenv(key)); err == nil`
unfoldable pub parsed_or_zero : Option ℤ → ℤ
parsed_or_zero none = pos 0
parsed_or_zero (some i) = i

unfoldable pub bool_or : Option Bool → Bool → Bool
bool_or none b = b
bool_or (some c) b = c

-- what the set-up reads: the environment and the file system
pub record Environment (W C : Type 0) : Type 0 where
  pub getenv : Bytes → Bytes
  -- `time.ParseDuration`
  pub parse_duration : Bytes → Option ℤ
  -- `tls.LoadX509KeyPair`
  pub load_x509_key_pair : Bytes → Bytes → Action W C

module _ {W C : Type 0} (env : Environment W C) where
  unfoldable pub get_env_or_default : Bytes → Bytes → Bytes
  get_env_or_default key default_value =
      if is_empty (env.getenv key) then default_value else env.getenv key

  unfoldable pub get_env_bool : Bytes → Bool → Bool
  unfolding parse_bool bool_or
  get_env_bool key default_value =
      if is_empty (env.getenv key)
      then default_value
      else bool_or (parse_bool (env.getenv key)) default_value

  -- a setting that is read if it is not empty
  abbrev pub setting : (Bytes → Option ℤ) → Bytes → ℤ
  setting parse text = if is_empty text then pos 0 else parsed_or_zero (parse text)

  -- the pair of files, if both are named and can be read
  abbrev pub loaded : Result C × W → Option C × W
  loaded (ok cert, w) = (some cert, w)
  loaded (err e, w) = (none, w)

  unfoldable pub named_pair : Bytes → Bytes → W → Option C × W
  named_pair cert_file key_file w =
      if is_empty cert_file || is_empty key_file
      then (none, w)
      else loaded (env.load_x509_key_pair cert_file key_file w)

  abbrev pub with_legacy : Option C → Option (TlsConfig C)
  with_legacy none = none
  with_legacy (some cert) = some (one_certificate cert)

  -- `LoadServerConfigFromEnv`
  unfoldable pub load_server_config_from_env : W → ServerConfig C × W
  unfolding codes get_env_or_default get_env_bool parse_int parsed_or_zero named_pair
  load_server_config_from_env w =
      let cert_file = env.getenv (codes "SMTP_TLS_CERT") in
      let key_file = env.getenv (codes "SMTP_TLS_KEY") in
      let (pair, w') = named_pair cert_file key_file w in
      (
        record {
          addr = get_env_or_default (codes "SMTP_ADDR") (codes ":2525");
          domain = get_env_or_default (codes "SMTP_DOMAIN") (codes "localhost");
          max_message_size = setting parse_int (env.getenv (codes "SMTP_MAX_MESSAGE_SIZE"));
          max_recipients = setting parse_int (env.getenv (codes "SMTP_MAX_RECIPIENTS"));
          read_timeout = setting env.parse_duration (env.getenv (codes "SMTP_READ_TIMEOUT"));
          write_timeout = setting env.parse_duration (env.getenv (codes "SMTP_WRITE_TIMEOUT"));
          allow_insecure = get_env_bool (codes "SMTP_ALLOW_INSECURE") false;
          tls_config = with_legacy pair;
          get_certificate = none;
          default_cert_file = cert_file;
          default_key_file = key_file;
        },
        w',
      )

  -- `if cfg.TLSConfig != nil`, else `createTLSConfig`
  abbrev pub tls_or_created : Option (TlsConfig C) → TlsConfig C
  tls_or_created none = by_server_name
  tls_or_created (some t) = t

  -- `NewSecureServer`
  unfoldable pub new_secure_server : ServerConfig C → W → SmtpServer C × W
  unfolding positive_or named_pair
  new_secure_server cfg w =
      let (pair, w') = named_pair cfg.default_cert_file cfg.default_key_file w in
      (
        record {
          addr = cfg.addr;
          domain = cfg.domain;
          max_message_bytes = positive_or cfg.max_message_size 26214400;
          max_recipients = positive_or cfg.max_recipients 100;
          read_timeout = positive_or cfg.read_timeout 60000000000;
          write_timeout = positive_or cfg.write_timeout 60000000000;
          allow_insecure_auth = cfg.allow_insecure;
          max_line_length = 2000;
          tls_config = tls_or_created cfg.tls_config;
          secure = record { get_certificate = cfg.get_certificate; default_cert = pair };
        },
        w',
      )

  -- the set-up in `main`: the port, and the certificate store's function if there is a store
  unfoldable pub configured :
      Bytes → Option (Bytes → Result (Option C)) → ServerConfig C × W → SmtpServer C × W
  unfolding new_secure_server
  configured addr source (cfg, w) =
      new_secure_server (record cfg { addr = addr; get_certificate = source }) w

  unfoldable pub start_smtp_server :
      Bytes → Option (Bytes → Result (Option C)) → W → SmtpServer C × W
  unfolding load_server_config_from_env configured
  start_smtp_server addr source w = configured addr source (load_server_config_from_env w)

-- the certificate that crypto/tls shows for a server name: the only one of the configuration, or
-- what `GetCertificate` gives
abbrev pub shown_by : {C : Type 0} → TlsConfig C → SecureServer C → Bytes → Option C
shown_by (one_certificate cert) s name = some cert
shown_by by_server_name s name = get_certificate_with_fallback s name

unfoldable pub shown : {C : Type 0} → SmtpServer C → Bytes → Option C
unfolding get_certificate_with_fallback
shown server name = shown_by server.tls_config server.secure name
