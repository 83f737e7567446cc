-- ===== src/Kafka/Connection.antt =====
-- kafka/connection_helper.go: the configuration of the Kafka client. The file system, the PEM and X.509
-- functions and sarama's defaults and validation are a parameter. An error is `none`, and so is the
-- panic that `saramaClientConfig` makes of it.
pub mod Certificates
pub mod Settings
mod Tests
use kafka_minion.Options.{Options}
use kafka_minion.Prelude.{
  Bool, true, false, Bytes, bytes_eq, Option, none, some, List, [], ◌∷◌, ◌++◌, ◌==◌, ◌&&◌, not,
  if◌then◌else◌,
}

-- Of `sarama.Config` the fields that are set here.
pub data KafkaVersion : Type 0 where
  default_version v0_11_0_2 : KafkaVersion

pub record Sasl : Type 0 where
  pub enable : Bool
  pub handshake : Bool
  pub user : Bytes
  pub password : Bytes

-- `tls.Config`; the pool is the list of what was appended to it.
pub record Tls (Cert : Type 0) : Type 0 where
  pub root_cas : List Bytes
  pub insecure_skip_verify : Bool
  pub certificates : List Cert

pub record ClientConfig (Cert : Type 0) : Type 0 where
  pub client_id : Bytes
  pub version : KafkaVersion
  pub sasl : Sasl
  pub tls_enable : Bool
  pub tls : Option (Tls Cert)

pub record Platform (Pem Cert : Type 0) : Type 0 where
  -- `os.Open` succeeds
  pub opens : Bytes → Bool
  pub read_file : Bytes → Option Bytes
  pub pem_decode : Bytes → Option Pem
  pub pem_type : Pem → Bytes
  pub is_encrypted : Pem → Bool
  pub decrypt : Pem → Bytes → Option Bytes
  -- `pem.EncodeToMemory` of a block with this type and these bytes
  pub encode : Bytes → Bytes → Bytes
  pub key_pair : Bytes → Bytes → Option Cert
  pub new_config : ClientConfig Cert
  pub is_valid : ClientConfig Cert → Bool

infixl 5 ◌>>=◌
abbrev pub ◌>>=◌ : {A B : Type 0} → Option A → (A → Option B) → Option B
none >>= f = none
some a >>= f = f a

-- The boolean of `canReadCertAndKey`, from what can be read.
unfoldable pub can_read_cert_and_key : Bool → Bool → Option Bool
can_read_cert_and_key cert_readable key_readable =
    if not cert_readable && not key_readable
    then some false
    else if not cert_readable
    then none
    else if not key_readable
    then none
    else some true

module _ {Pem Cert : Type 0} (os : Platform Pem Cert) where
  -- The file is closed again.
  abbrev pub can_read_file : Bytes → Bool
  can_read_file path = os.opens path

  unfoldable pub decrypted : Bytes → Bytes → Pem → Option Bytes
  decrypted key_bytes passphrase pem =
      if os.is_encrypted pem
      then (os.decrypt pem passphrase >>= λ bytes. some (os.encode (os.pem_type pem) bytes))
      else some key_bytes

  unfoldable pub get_private_key : Bytes → Bytes → Option Bytes
  unfolding decrypted
  get_private_key key_bytes passphrase = os.pem_decode key_bytes >>= decrypted key_bytes passphrase

  unfoldable pub get_cert : Options → Option (List Cert)
  get_cert opts =
      if opts.tls_cert_file_path == [] && opts.tls_key_file_path == []
      then none
      else (os.read_file opts.tls_cert_file_path >>= λ cert.
          os.read_file opts.tls_key_file_path >>= λ key_file.
          get_private_key key_file opts.tls_passphrase >>= λ key.
          os.key_pair cert key >>= λ pair. some (pair ∷ []))

  unfoldable pub with_sasl : Options → Sasl → Sasl
  with_sasl opts sasl =
      if opts.sasl_enabled
      then record {
        enable = true;
        handshake = opts.use_sasl_handshake;
        user = if opts.sasl_username == [] then sasl.user else opts.sasl_username;
        password = if opts.sasl_password == [] then sasl.password else opts.sasl_password;
      }
      else sasl

  -- What stands in `RootCAs`.
  unfoldable pub load_ca : Options → Option (List Bytes)
  load_ca opts =
      if opts.tls_ca_file_path == []
      then some []
      else (os.read_file opts.tls_ca_file_path >>= λ ca. some (ca ∷ []))

  unfoldable pub load_certificates : Options → Bool → Option (List Cert)
  load_certificates opts readable = if readable then get_cert opts else some []

  -- The body of `if opts.TLSEnabled`, for the two fields that it sets.
  unfoldable pub load_tls : Options → ClientConfig Cert → Option (ClientConfig Cert)
  unfolding load_ca load_certificates
  load_tls opts config =
      can_read_cert_and_key (can_read_file opts.tls_cert_file_path)
        (can_read_file opts.tls_key_file_path)
      >>= λ readable. load_ca opts >>= λ cas. load_certificates opts readable >>= λ certs.
          some (record config {
            tls_enable = true;
            tls = some (record {
              root_cas = cas;
              insecure_skip_verify = opts.tls_insecure_skip_tls_verify;
              certificates = certs;
            });
          })

  unfoldable pub with_tls : Options → ClientConfig Cert → Option (ClientConfig Cert)
  with_tls opts config = if not opts.tls_enabled then some config else load_tls opts config

  abbrev pub client_name : Bytes
  client_name =
      b'k' ∷ b'a' ∷ b'f' ∷ b'k' ∷ b'a' ∷ b'-' ∷ b'l' ∷ b'a' ∷ b'g' ∷ b'-' ∷ b'c' ∷ b'o' ∷ b'l'
      ∷ b'l' ∷ b'e' ∷ b'c' ∷ b't' ∷ b'o' ∷ b'r' ∷ b'-' ∷ b'1' ∷ []

  unfoldable pub sarama_client_config : Options → Option (ClientConfig Cert)
  unfolding with_sasl with_tls
  sarama_client_config opts =
      let config = record os.new_config {
        client_id = client_name;
        version = v0_11_0_2;
        sasl = with_sasl opts os.new_config.sasl;
      } in
      with_tls opts config >>= λ c. if os.is_valid c then some c else none
