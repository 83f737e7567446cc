-- ===== src/Kafka/Cluster/Config/Known.antt =====
-- The refreshes of the configurations one after the other, as mainLoop makes them: what the storage
-- knows of topics that are gone.
use kafka_minion.GoMap.{get, has}
use kafka_minion.GoMap.Laws.{has-get}
use kafka_minion.Kafka.Cluster.{TopicMetadata, ConfigResponse, Client, get_any_broker}
use kafka_minion.Kafka.Cluster.Config.{
  Topics, delete_topic_if_needed, topics_by_name, names_of, described, with_metadata, with_broker,
  Refreshed, refresh_and_send_topic_config,
}
use kafka_minion.Kafka.Cluster.Config.Shown.{
  IsAsked, told_by, told, config_at, was_deleted, deletions-Leaves, next_known, config_shown,
}
use kafka_minion.Kafka.Cluster.Deletions.{is_gone}
use kafka_minion.Kafka.Request.{TopicConfiguration, StorageRequest}
use kafka_minion.Prelude.{
  ℕ, ◌≡◌, ◌≢◌, refl, sym, ap, ◌∙◌, subst, Bool, true, false, ◌&&◌, Bytes, bytes_eq, int_eq, Option,
  none, some, some-eq, List, [], ◌∷◌, ◌==◌, ==_iff, All, ◌⊎◌, Bool-cases, inl, inr, if◌then◌else◌,
  arith,
}
use kafka_minion.Prelude.Int.{pos}
use kafka_minion.Storage.{MemoryStorage, new_memory_storage}
use kafka_minion.Storage.Worker.{cluster_worker}

-- The topic is among those of the last metadata.
abbrev pub IsKnown : Bytes → Option Topics → Type 0
IsKnown t none = ⊥
IsKnown t (some topics) = has t topics ≡ true

-- A topic with a configuration is known.
abbrev pub OnlyKnown : Option Topics → MemoryStorage → Type 0
OnlyKnown known s = (t : Bytes) → config_at t s ≢ none → IsKnown t known

-- Each resource that is answered was asked for.
abbrev pub AsAsked : {Broker : Type 0} → Client Broker → Type 0
AsAsked {Broker} client =
    (broker : Broker) (ts : List TopicMetadata) (resources : List ConfigResponse)
    → client.get_metadata broker ≡ some ts
    → client.describe_configs broker (names_of ts) ≡ some resources
    → All (IsAsked (topics_by_name ts [])) resources

-- Any number of refreshes that do not panic, each handled by the storage; the cluster may change
-- between them.
pub data Refreshes (Broker : Type 0) : Option Topics → MemoryStorage → Type 1 where
  begun : Refreshes Broker none new_memory_storage
  refreshed :
      {known known' : Option Topics} {s s' : MemoryStorage} (client : Client Broker) (random : ℕ)
      (sent : List StorageRequest)
      → Refreshes Broker known s
      → AsAsked client
      → refresh_and_send_topic_config client random known ≡ (some sent, known')
      → cluster_worker sent s ≡ some s'
      → Refreshes Broker known' s'

IsAsked-has : (topics : Topics) (r : ConfigResponse) → IsAsked topics r → has r.name topics ≡ true
IsAsked-has topics r (m, found) = has-get r.name topics ∙ (rw found refl)

module _ (topics : Topics) (t : Bytes) where
  told_by-has :
      (r : ConfigResponse) (values : List Bytes) (o : Option TopicConfiguration)
      → IsAsked topics r
      → (o ≢ none → has t topics ≡ true)
      → told_by topics t r values o ≢ none
      → has t topics ≡ true
  told_by-has r [] o asked before there = before there
  told_by-has r (value ∷ _) o asked before there =
      elim (Bool-cases (r.error_code == pos 0 && r.name == t)) [
        | inl both ↦
            let same : (r.name == t) ≡ true = second (r.error_code == pos 0) (r.name == t) both in
            ap (λ n. has n topics) (sym ((==_iff r.name t).0 same)) ∙ IsAsked-has topics r asked
        | inr other ↦ before (rw other at there)
      ]
    where
      second : (a b : Bool) → (a && b) ≡ true → b ≡ true
      second a b e = ground arith

  told-has :
      (rs : List ConfigResponse) (o : Option TopicConfiguration)
      → All (IsAsked topics) rs
      → (o ≢ none → has t topics ≡ true)
      → told topics t rs o ≢ none
      → has t topics ≡ true
  told-has [] o asked before there = before there
  told-has (r ∷ rs) o asked before there =
      told-has rs (told_by topics t r r.config_values o) asked.1
        (told_by-has r r.config_values o asked.0 before) there

  -- What a refresh keeps is still there.
  kept-has :
      (known : Option Topics) (o : Option TopicConfiguration)
      → (o ≢ none → IsKnown t known)
      → (if was_deleted topics t known then none else o) ≢ none
      → has t topics ≡ true
  kept-has none o before there = absurd (before there)
  kept-has (some old) o before there = elim (Bool-cases (has t topics)) [
    | inl still ↦ still
    | inr gone ↦ absurd (lost gone (Bool-cases (is_gone t topics old)))
  ]
    where
      lost :
          has t topics ≡ false
          → ((is_gone t topics old ≡ true) ⊎ (is_gone t topics old ≡ false))
          → ⊥
      lost gone (inl yes_gone) = (rw yes_gone at there) refl
      lost gone (inr kept) =
          let known : has t old ≡ true = before (rw kept at there) in
          ground (arith, known, gone, kept)

-- A refresh that sent nothing.
idle-OnlyKnown :
    (known known' : Option Topics) (s s' : MemoryStorage) {sent : List StorageRequest}
    → OnlyKnown known s
    → ◌≡◌ {A = Refreshed} (some [], known) (some sent, known')
    → cluster_worker sent s ≡ some s'
    → OnlyKnown known' s'
unfolding cluster_worker
idle-OnlyKnown known known' s s' {sent} only e run =
    let nothing : [] ≡ sent = some-eq (ap (λ (r : Refreshed). r.0) e) in
    let same : s ≡ s' = some-eq (ap (λ rs. cluster_worker rs s) nothing ∙ run) in
    subst (λ k. OnlyKnown k s') (ap (λ (r : Refreshed). r.1) e) (subst (OnlyKnown known) same only)

module _ {Broker : Type 0} (client : Client Broker) (asked : AsAsked client) (random : ℕ)
    (known known' : Option Topics) (s s' : MemoryStorage) (sent : List StorageRequest)
    (only : OnlyKnown known s) (run : cluster_worker sent s ≡ some s') where
  deleted-OnlyKnown :
      (topics : Topics)
      → ◌≡◌ {A = Refreshed}
          (some (delete_topic_if_needed topics known).0, (delete_topic_if_needed topics known).1)
          (some sent, known')
      → OnlyKnown known' s'
  deleted-OnlyKnown topics e =
      let next : some topics ≡ known' =
        sym (next_known topics known) ∙ ap (λ (r : Refreshed). r.1) e in
      subst (λ k. OnlyKnown k s') next
        (λ t there.
          let (rs, made, s1, run1, shown) = deletions-Leaves topics t known s in
          let same : s1 ≡ s' = some-eq (
            sym run1
            ∙ ap (λ l. cluster_worker l s) (some-eq (sym made ∙ ap (λ (r : Refreshed). r.0) e))
            ∙ run) in
          kept-has topics t known (config_at t s) (only t)
            (λ none_left. there (ap (config_at t) (sym same) ∙ shown ∙ none_left)))

  answered-OnlyKnown :
      (broker : Broker) (ts : List TopicMetadata) (resources : List ConfigResponse)
      → get_any_broker client random ≡ some broker
      → client.get_metadata broker ≡ some ts
      → client.describe_configs broker (names_of ts) ≡ some resources
      → refresh_and_send_topic_config client random known ≡ (some sent, known')
      → OnlyKnown known' s'
  answered-OnlyKnown broker ts resources b m d e =
      let topics = topics_by_name ts [] in
      let all = asked broker ts resources m d in
      let next : some topics ≡ known' =
        (let (_, _, made, _, _) =
            config_shown client random known s [] broker ts resources b m d all in
          ap (λ (r : Refreshed). r.1) (sym made ∙ e)) in
      subst (λ k. OnlyKnown k s') next
        (λ t there.
          let (rs, s1, made, run1, shown) =
            config_shown client random known s t broker ts resources b m d all in
          let same : s1 ≡ s' = some-eq (
            sym run1
            ∙ ap (λ l. cluster_worker l s) (some-eq (ap (λ (r : Refreshed). r.0) (sym made ∙ e)))
            ∙ run) in
          told-has topics t resources _ all (kept-has topics t known (config_at t s) (only t))
            (λ none_left. there (ap (config_at t) (sym same) ∙ shown ∙ none_left)))

  refresh-OnlyKnown :
      refresh_and_send_topic_config client random known ≡ (some sent, known') → OnlyKnown known' s'
  unfolding refresh_and_send_topic_config with_broker with_metadata described
  refresh-OnlyKnown e = by_broker (get_any_broker client random) refl e
    where
      by_resources :
          (broker : Broker) (ts : List TopicMetadata) (o : Option (List ConfigResponse))
          → get_any_broker client random ≡ some broker
          → client.get_metadata broker ≡ some ts
          → client.describe_configs broker (names_of ts) ≡ o
          → ◌≡◌ {A = Refreshed}
              (
                described client
                    (topics_by_name ts [])
                    (delete_topic_if_needed (topics_by_name ts []) known).0
                    o,
                (delete_topic_if_needed (topics_by_name ts []) known).1,
              )
              (some sent, known')
          → OnlyKnown known' s'
      by_resources broker ts none b m d e' = deleted-OnlyKnown (topics_by_name ts []) e'
      by_resources broker ts (some resources) b m d e' =
          answered-OnlyKnown broker ts resources b m d e

      by_metadata :
          (broker : Broker) (o : Option (List TopicMetadata))
          → get_any_broker client random ≡ some broker
          → client.get_metadata broker ≡ o
          → with_metadata client broker o known ≡ (some sent, known')
          → OnlyKnown known' s'
      by_metadata broker none b m e' = idle-OnlyKnown known known' s s' only e' run
      by_metadata broker (some ts) b m e' =
          by_resources broker ts (client.describe_configs broker (names_of ts)) b m refl e'

      by_broker :
          (o : Option Broker)
          → get_any_broker client random ≡ o
          → with_broker client o known ≡ (some sent, known')
          → OnlyKnown known' s'
      by_broker none b e' = idle-OnlyKnown known known' s s' only e' run
      by_broker (some broker) b e' = by_metadata broker (client.get_metadata broker) b refl e'

Refreshes-All-OnlyKnown :
    {Broker : Type 0} {known : Option Topics} {s : MemoryStorage}
    → Refreshes Broker known s
    → OnlyKnown known s
unfolding new_memory_storage get
Refreshes-All-OnlyKnown begun = λ t there. absurd (there refl)
Refreshes-All-OnlyKnown (refreshed client random sent before asked e run) =
    refresh-OnlyKnown client asked random _ _ _ _ sent (Refreshes-All-OnlyKnown before) run e

-- From an empty storage and no metadata, after any number of refreshes of the configurations that do
-- not panic, whichever of their requests fail, each sent whole to the storage before the next: every topic for
-- which the storage holds a configuration is among the topics of the last metadata. The brokers answer
-- only for topics that were asked for.
pub Refreshes-OnlyKnown :
    {Broker : Type 0} {known : Option Topics} {s : MemoryStorage}
    → Refreshes Broker known s
    → (t : Bytes) → config_at t s ≢ none
    → IsKnown t known
Refreshes-OnlyKnown refreshes t there = Refreshes-All-OnlyKnown refreshes t there
