-- ===== src/Kafka/Connection/Tests.antt =====
-- A platform with one readable CA file and an unencrypted key pair.
use kafka_minion.Kafka.Connection.{
  default_version, Tls, ClientConfig, Platform, sarama_client_config,
}
use kafka_minion.Kafka.Connection.Settings.{IsTls, HasSasl, tls_config}
use kafka_minion.Options.{Options}
use kafka_minion.Prelude.{◌≡◌, refl, true, false, Bytes, bytes_eq, none, some, [], ◌∷◌}
use kafka_minion.Prelude.Int.{pos}

abbrev cert_path : Bytes
cert_path = b'c' ∷ []

abbrev key_path : Bytes
key_path = b'k' ∷ []

-- A PEM block is given by its bytes, a certificate by the two texts that it is made of.
abbrev platform : Platform Bytes (Bytes × Bytes)
platform = record {
  opens = λ path. true;
  read_file = λ path. some path;
  pem_decode = λ text. some text;
  pem_type = λ pem. [];
  is_encrypted = λ pem. false;
  decrypt = λ pem passphrase. none;
  encode = λ kind bytes. bytes;
  key_pair = λ cert key. some (cert, key);
  new_config = record {
    client_id = [];
    version = default_version;
    sasl = record { enable = false; handshake = true; user = []; password = [] };
    tls_enable = false;
    tls = none;
  };
  is_valid = λ config. true;
}

abbrev opts : Options
opts = record {
  telemetry_host = [];
  telemetry_port = pos 8080;
  log_level = [];
  version = [];
  ignore_system_topics = true;
  kafka_brokers = [];
  consumer_offsets_topic_name = [];
  sasl_enabled = true;
  use_sasl_handshake = true;
  sasl_username = b'u' ∷ [];
  sasl_password = b'p' ∷ [];
  tls_enabled = true;
  tls_ca_file_path = b'a' ∷ [];
  tls_key_file_path = key_path;
  tls_cert_file_path = cert_path;
  tls_insecure_skip_tls_verify = false;
  tls_passphrase = [];
  metrics_prefix = [];
}

made : (c : ClientConfig (Bytes × Bytes)) × (sarama_client_config platform opts ≡ some c)
unfolding sarama_client_config kafka_minion.Kafka.Connection.load_tls
    kafka_minion.Kafka.Connection.can_read_cert_and_key kafka_minion.Kafka.Connection.get_cert
    kafka_minion.Kafka.Connection.get_private_key
made = (_, refl)

tls_config_example :
    (platform.is_valid made.0 ≡ true)
    × (made.0.tls_enable ≡ true)
    × ((tls : Tls (Bytes × Bytes)) × (made.0.tls ≡ some tls) × IsTls platform opts tls)
    × HasSasl platform opts made.0.sasl
tls_config_example = tls_config platform opts refl made.1
