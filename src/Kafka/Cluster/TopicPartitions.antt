-- ===== src/Kafka/Cluster/TopicPartitions.antt =====
-- `topicPartitions` of kafka/cluster.go.
use kafka_minion.GoMap.{GoMap, get, put}
use kafka_minion.GoMap.Laws.{get-put}
use kafka_minion.Kafka.Cluster.{Client}
use kafka_minion.Prelude.{
  ℕ, zero, suc, ◌≡◌, refl, sym, ◌∙◌, Bytes, bytes_eq, Option, none, some, List, [], ◌∷◌, ◌++◌,
  length, append_assoc, append-nil, ◌||◌, ◌==◌, ==_iff, Bool, true, false, if◌then◌else◌,
  Bool-cases, inl, inr,
}
use kafka_minion.Prelude.Int.{ℤ, pos}

-- `make([]int32, n)`
abbrev pub zeros : ℕ → List ℤ
zeros zero = []
zeros (suc n) = pos 0 ∷ zeros n

-- `m[topic] = append(m[topic], id)`, id by id.
unfoldable pub append_partitions : List ℤ → List ℤ → List ℤ
append_partitions acc [] = acc
append_partitions acc (id ∷ ids) = append_partitions (acc ++ id ∷ []) ids

unfoldable pub list_partitions : List ℤ → List ℤ
list_partitions ids = append_partitions (zeros (length ids)) ids

-- After an error the slice is nil, and the loop goes on.
abbrev or_nil : Option (List ℤ) → List ℤ
or_nil none = []
or_nil (some ids) = ids

module _ {Broker : Type 0} (client : Client Broker) where
  unfoldable pub partitions_by_topic : List Bytes → GoMap Bytes (List ℤ) → GoMap Bytes (List ℤ)
  unfolding list_partitions append_partitions
  partitions_by_topic [] acc = acc
  partitions_by_topic (topic ∷ topics) acc =
      partitions_by_topic topics
        (put topic (list_partitions (or_nil (client.partitions topic))) acc)

  with_topics : Option (List Bytes) → Option (GoMap Bytes (List ℤ))
  unfolding partitions_by_topic
  with_topics none = none
  with_topics (some topics) = some (partitions_by_topic topics [])

  -- A failure of `RefreshMetadata` is only logged; one of `Topics` is returned as an error.
  unfoldable pub topic_partitions : Option (GoMap Bytes (List ℤ))
  unfolding with_topics
  topic_partitions = with_topics client.topics

append_partitions-append : (acc ids : List ℤ) → append_partitions acc ids ≡ acc ++ ids
unfolding append_partitions
append_partitions-append acc [] = sym (append-nil acc)
append_partitions-append acc (id ∷ ids) =
    append_partitions-append (acc ++ id ∷ []) ids ∙ append_assoc acc (id ∷ []) ids

abbrev pub member : Bytes → List Bytes → Bool
member t [] = false
member t (u ∷ us) = u == t || member t us

module _ {Broker : Type 0} (client : Client Broker) where
  -- The partition list of a topic: its partitions behind as many zeros.
  abbrev pub listed : Bytes → List ℤ
  listed t = zeros (length (or_nil (client.partitions t))) ++ or_nil (client.partitions t)

  get-partitions_by_topic :
      (t : Bytes) (topics : List Bytes) (acc : GoMap Bytes (List ℤ))
      → get t (partitions_by_topic client topics acc)
        ≡ (if member t topics then some (listed t) else get t acc)
  unfolding partitions_by_topic list_partitions
  get-partitions_by_topic t [] acc = refl
  get-partitions_by_topic t (u ∷ topics) acc =
      get-partitions_by_topic t topics (put u (list_partitions (or_nil (client.partitions u))) acc)
      ∙ elim (Bool-cases (u == t)) [
        | inl same ↦
            rw (get-put, same)
              (rw
                (
                  (==_iff u t).0 same,
                  append_partitions-append (zeros (length (or_nil (client.partitions t))))
                      (or_nil (client.partitions t)),
                )
                (either (member t topics) (some (listed t))))
        | inr other ↦ rw (get-put, other) refl
      ]
    where
      either : (b : Bool) (o : Option (List ℤ)) → (if b then o else o) ≡ o
      either true o = refl
      either false o = refl

  -- The partitions that `topicPartitions` lists for each topic of the cluster are its partitions, behind
  -- as many zeros as it has partitions; a topic whose partitions cannot be fetched has none, and no
  -- other topic is listed.
  pub topic_partitions-zeros :
      (topics : List Bytes)
      → client.topics ≡ some topics
      → (m : GoMap Bytes (List ℤ)) × (topic_partitions client ≡ some m)
        × ((t : Bytes) → get t m ≡ (if member t topics then some (listed t) else none))
  unfolding topic_partitions
  topic_partitions-zeros topics e = (
    partitions_by_topic client topics [],
    rw e,
    λ t. get-partitions_by_topic t topics [] ∙ unfold get in refl,
  )
