-- ===== src/Http/Tests.antt =====
-- The ready check before anything has been read.
use kafka_minion.Http.{ready_check}
use kafka_minion.Prelude.{◌≡◌, refl}
use kafka_minion.Storage.{new_memory_storage}

new_is_not_ready : (ready_check new_memory_storage).status ≡ 503
unfolding ready_check new_memory_storage kafka_minion.Storage.Readers.is_consumed
new_is_not_ready = refl
