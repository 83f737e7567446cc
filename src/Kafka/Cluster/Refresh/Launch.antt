-- ===== src/Kafka/Cluster/Refresh/Launch.antt =====
-- Every goroutine of a refresh can be started, with just the request of its broker.
use kafka_minion.GoMap.{GoMap, get}
use kafka_minion.GoMap.Laws.{IsUnique, get_here, AllEntries-tail}
use kafka_minion.Kafka.Cluster.{Client, Block}
use kafka_minion.Kafka.Cluster.Refresh.{Received, received, Network, launch}
use kafka_minion.Kafka.Cluster.Requests.{Requests}
use kafka_minion.Prelude.{
  ◌≡◌, refl, bytes_eq, int_eq, Option, none, some, List, [], ◌∷◌, ◌==◌, ==_iff, Bool-cases, inl,
  inr, subst,
}
use kafka_minion.Prelude.Int.{ℤ}
use kafka_minion.Kafka.Cluster.Refresh.Led.{Led, IsLed}

module _ {Broker : Type 0} (client : Client Broker) (network : Network Broker) (time : ℤ → ℤ)
    (leaders : GoMap ℤ Broker) where
  -- The steps of a broker's goroutine: there is none for a broker without a request.
  abbrev pub Steps : ℤ → Option (List Block) → Option (List Received) → Type 0
  Steps id none steps = steps ≡ none
  Steps id (some blocks) steps =
      (broker : Broker) × (get id leaders ≡ some broker)
      × (client.id broker ≡ id)
      × (steps ≡ some (received (time id) (network.available broker blocks)))

  -- The goroutines, as started for the entries of the requests.
  pub record IsLaunched (requests : Requests) (m : GoMap ℤ (List Received)) : Type 0 where
    pub launched : launch client network time leaders requests ≡ some m
    pub unique : IsUnique m
    pub one_each : (id : ℤ) → Steps id (get id requests) (get id m)

  pub launch-IsLaunched :
      (requests : Requests)
      → IsLed client leaders requests
      → (m : GoMap ℤ (List Received)) × IsLaunched requests m
  unfolding launch get
  launch-IsLaunched [] led = ([], record { launched = refl; unique = tt; one_each = λ id. refl })
  launch-IsLaunched ((k, blocks) ∷ requests) (u, each) =
      let (m, rest) =
        launch-IsLaunched requests
          (u.1, AllEntries-tail (λ id _. Led client leaders id) k blocks requests u.0 each) in
      let (broker, found, same) = each k blocks (get_here k blocks requests) in
      let steps = received (time k) (network.available broker blocks) in
      let fresh : get k m ≡ none = subst (λ o. Steps k o (get k m)) u.0 (rest.one_each k) in
      let first : Steps k (some blocks) (some steps) = (broker, found, same, refl) in
      (
        (k, steps) ∷ m,
        record {
          launched = rw (found, rest.launched);
          unique = (fresh, rest.unique);
          one_each = λ id. elim (Bool-cases (k == id)) [
            | inl here ↦
                rw here
                  (subst (λ j. Steps j (some blocks) (some steps)) ((==_iff k id).0 here) first)
            | inr other ↦ rw other (rest.one_each id)
          ];
        },
      )
