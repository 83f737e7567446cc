-- ===== src/Kafka/Cluster/Refresh/Led.antt =====
-- `generateOffsetRequests` makes one request for each broker, and notes the broker.
use kafka_minion.GoMap.{GoMap, get, put, has}
use kafka_minion.GoMap.Laws.{
  IsUnique, AllEntries, put-IsUnique, put-AllEntries, get-put, empty-AllEntries,
}
use kafka_minion.Kafka.Cluster.{Client, Block}
use kafka_minion.Kafka.Cluster.Requests.{
  Requests, Buckets, add_block, ensure, both, ask, ask_leader, ◌then◌, ask_partitions, ask_topics,
  generate_offset_requests,
}
use kafka_minion.Prelude.{
  ◌≡◌, refl, sym, Bytes, bytes_eq, int_eq, Option, none, some, some-eq, List, [], ◌∷◌, ◌++◌, ◌==◌,
  ==_iff, ==_refl, Bool-cases, Option-cases, inl, inr, subst,
}
use kafka_minion.Prelude.Int.{ℤ}

add_block-keys :
    (P : ℤ → Type 0) (id : ℤ) (b : Block) (r : Requests) {r' : Requests}
    → add_block id b r ≡ some r'
    → P id
    → IsUnique r × AllEntries (λ j _. P j) r
    → IsUnique r' × AllEntries (λ j _. P j) r'
unfolding add_block
add_block-keys P id b r {r'} e p (u, each) = elim (Option-cases (get id r)) [
  | inl missing ↦ cc (rw (missing, add_block) at e)
  | inr (blocks, found) ↦
      let made : put id (blocks ++ b ∷ []) r ≡ r' = some-eq (rw (found, add_block) at e) in
      subst (λ m. IsUnique m × AllEntries (λ j _. P j) m) made
        (
          put-IsUnique id (blocks ++ b ∷ []) r u,
          put-AllEntries (λ j _. P j) id (blocks ++ b ∷ []) r p each,
        )
]

module _ {Broker : Type 0} (client : Client Broker) where
  abbrev pub Led : GoMap ℤ Broker → ℤ → Type 0
  Led leaders id = (broker : Broker) × (get id leaders ≡ some broker) × (client.id broker ≡ id)

  -- One request for each broker, and a broker for each request.
  abbrev pub IsLed : GoMap ℤ Broker → Requests → Type 0
  IsLed leaders requests = IsUnique requests × AllEntries (λ id _. Led leaders id) requests

  abbrev pub AreLed : Buckets Broker → Type 0
  AreLed s = IsLed s.leaders s.high × IsLed s.leaders s.low

  put-Led :
      (broker : Broker) (leaders : GoMap ℤ Broker) (id : ℤ)
      → Led leaders id
      → Led (put (client.id broker) broker leaders) id
  put-Led broker leaders id (known, found, same) = elim (Bool-cases (client.id broker == id)) [
    | inl here ↦ (broker, rw (get-put, here), (==_iff (client.id broker) id).0 here)
    | inr other ↦ (known, rw (get-put, other) found, same)
  ]

  put-Led_self :
      (broker : Broker) (leaders : GoMap ℤ Broker)
      → Led (put (client.id broker) broker leaders) (client.id broker)
  put-Led_self broker leaders = (broker, rw (get-put, ==_refl (client.id broker)), refl)

  -- Both requests of the broker are there, and the broker is noted.
  ensured :
      (broker : Broker) (leaders : GoMap ℤ Broker) (r : Requests)
      → IsLed leaders r
      → IsLed (put (client.id broker) broker leaders) r
        × IsLed (put (client.id broker) broker leaders) (put (client.id broker) [] r)
  ensured broker leaders r (u, each) =
      let leaders' = put (client.id broker) broker leaders in
      let kept : AllEntries (λ id _. Led leaders' id) r =
        λ id blocks found. put-Led broker leaders id (each id blocks found) in
      (
        (u, kept),
        (
          put-IsUnique (client.id broker) [] r u,
          put-AllEntries (λ id _. Led leaders' id) (client.id broker) [] r
              (put-Led_self broker leaders) kept,
        ),
      )

  both-some :
      (leaders : GoMap ℤ Broker) (high low : Option Requests) {s : Buckets Broker}
      → both leaders high low ≡ some s
      → (h : Requests) × (l : Requests) × (high ≡ some h)
        × (low ≡ some l)
        × (s ≡ record { high = h; low = l; leaders = leaders })
  both-some leaders none low e = cc
  both-some leaders (some h) none e = cc
  both-some leaders (some h) (some l) e = (h, l, refl, refl, sym (some-eq e))

  ensure-IsLed :
      (broker : Broker) (s : Buckets Broker)
      → AreLed s
      → IsLed
          (put (client.id broker) broker (ensure (client.id broker) s).leaders)
          (ensure (client.id broker) s).high
        × IsLed
            (put (client.id broker) broker (ensure (client.id broker) s).leaders)
            (ensure (client.id broker) s).low
  unfolding ensure
  ensure-IsLed broker s (high, low) = elim (Bool-cases (has (client.id broker) s.high)) [
    | inl there ↦
        rw there ((ensured broker s.leaders s.high high).0, (ensured broker s.leaders s.low low).0)
    | inr missing ↦
        rw missing
          ((ensured broker s.leaders s.high high).1, (ensured broker s.leaders s.low low).1)
  ]

  ask-AreLed :
      (topic : Bytes) (p : ℤ) (broker : Broker) (s : Buckets Broker) {s' : Buckets Broker}
      → ask client topic p broker s ≡ some s'
      → AreLed s
      → AreLed s'
  unfolding ask
  ask-AreLed topic p broker s e are =
      let id = client.id broker in
      let leaders' = put id broker (ensure id s).leaders in
      let (high, low) = ensure-IsLed broker s are in
      let (h, l, to_h, to_l, made) = both-some leaders' _ _ e in
      let self = put-Led_self broker (ensure id s).leaders in
      subst AreLed (sym made) (
        add_block-keys (Led leaders') id _ (ensure id s).high to_h self high,
        add_block-keys (Led leaders') id _ (ensure id s).low to_l self low,
      )

  then-some :
      (o : Option (Buckets Broker)) (f : Buckets Broker → Option (Buckets Broker))
      {s' : Buckets Broker}
      → ◌then◌ client o f ≡ some s'
      → (s : Buckets Broker) × (o ≡ some s) × (f s ≡ some s')
  then-some none f e = cc
  then-some (some s) f e = (s, refl, e)

  ask_leader-AreLed :
      (topic : Bytes) (p : ℤ) (leader : Option Broker) (s : Buckets Broker) {s' : Buckets Broker}
      → ask_leader client topic p leader s ≡ some s'
      → AreLed s
      → AreLed s'
  ask_leader-AreLed topic p none s e are = subst AreLed (some-eq e) are
  ask_leader-AreLed topic p (some broker) s e are = ask-AreLed topic p broker s e are

  ask_partitions-AreLed :
      (topic : Bytes) (ps : List ℤ) (s : Buckets Broker) {s' : Buckets Broker}
      → ask_partitions client topic ps s ≡ some s'
      → AreLed s
      → AreLed s'
  unfolding ask_partitions
  ask_partitions-AreLed topic [] s e are = subst AreLed (some-eq e) are
  ask_partitions-AreLed topic (p ∷ ps) s e are =
      let (t, first, later) = then-some _ _ e in
      ask_partitions-AreLed topic ps t later
        (ask_leader-AreLed topic p (client.leader topic p) s first are)

  ask_topics-AreLed :
      (topics : GoMap Bytes (List ℤ)) (s : Buckets Broker) {s' : Buckets Broker}
      → ask_topics client topics s ≡ some s'
      → AreLed s
      → AreLed s'
  unfolding ask_topics
  ask_topics-AreLed [] s e are = subst AreLed (some-eq e) are
  ask_topics-AreLed ((topic, ps) ∷ topics) s e are =
      let (t, first, later) = then-some _ _ e in
      ask_topics-AreLed topics t later (ask_partitions-AreLed topic ps s first are)

  pub generate-AreLed :
      (topics : GoMap Bytes (List ℤ)) {s : Buckets Broker}
      → generate_offset_requests client topics ≡ some s
      → AreLed s
  unfolding generate_offset_requests
  generate-AreLed topics e =
      let nothing : AllEntries (λ id (_ : List Block). Led [] id) [] =
        empty-AllEntries (λ id _. Led [] id) in
      ask_topics-AreLed topics (record { high = []; low = []; leaders = [] }) e
        ((tt, nothing), (tt, nothing))
