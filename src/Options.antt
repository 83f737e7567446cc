-- ===== src/Options.antt =====
-- options/options.go: the configuration. The environment and the defaults are read by the package
-- envconfig, so a value of this record is a parameter of what uses it.
use kafka_minion.Prelude.{Bool, Bytes, List}
use kafka_minion.Prelude.Int.{ℤ}

pub record Options : Type 0 where
  pub telemetry_host : Bytes
  pub telemetry_port : ℤ
  pub log_level : Bytes
  pub version : Bytes
  pub ignore_system_topics : Bool
  pub kafka_brokers : List Bytes
  pub consumer_offsets_topic_name : Bytes
  pub sasl_enabled : Bool
  pub use_sasl_handshake : Bool
  pub sasl_username : Bytes
  pub sasl_password : Bytes
  pub tls_enabled : Bool
  pub tls_ca_file_path : Bytes
  pub tls_key_file_path : Bytes
  pub tls_cert_file_path : Bytes
  pub tls_insecure_skip_tls_verify : Bool
  pub tls_passphrase : Bytes
  pub metrics_prefix : Bytes
