-- ===== src/Http.antt =====
-- main.go: the two handlers that answer the checks of an orchestrator.
mod Tests
use kafka_minion.Kafka.Cluster.{Client, is_healthy}
use kafka_minion.Prelude.{ℕ, Bool, Bytes, List, [], ◌∷◌, ◌++◌, if◌then◌else◌}
use kafka_minion.Prelude.Text.{bytes_of}
use kafka_minion.Storage.{MemoryStorage}
use kafka_minion.Storage.Readers.{is_consumed}

-- What the client gets: `w.Write` without a status sends 200.
pub record Response : Type 0 where
  pub status : ℕ
  pub body : Bytes

abbrev write : Bytes → Response
write text = record { status = 200; body = text }

-- `http.Error(w, text, http.StatusServiceUnavailable)`, which ends the text with a newline.
abbrev unavailable : Bytes → Response
unavailable text = record { status = 503; body = text ++ 10 ∷ [] }

unfoldable pub health_check : {Broker : Type 0} → Client Broker → Response
health_check client =
    if is_healthy client
    then write (bytes_of "Healthy")
    else unavailable (bytes_of "Healthcheck failed")

unfoldable pub ready_check : MemoryStorage → Response
ready_check storage =
    if is_consumed storage
    then write (bytes_of "Ready")
    else unavailable (bytes_of "Offsets topic has not been consumed yet")
