-- ===== src/Kafka/Cluster/Asked.antt =====
-- What `generateOffsetRequests` asks of each broker.
use kafka_minion.GoMap.{GoMap, get, put, has}
use kafka_minion.GoMap.Laws.{get-put, has-get, has-put}
use kafka_minion.Kafka.Cluster.{Client, Block, OffsetTime, newest, oldest}
use kafka_minion.Kafka.Cluster.Requests.{
  Requests, Buckets, block, add_block, ensure, ask, ask_leader, ◌then◌, ask_partitions, ask_topics,
  generate_offset_requests,
}
use kafka_minion.Prelude.{
  ◌≡◌, refl, ap, sym, ◌∙◌, true, false, Bytes, bytes_eq, int_eq, Option, none, some, List, [], ◌∷◌,
  ◌++◌, ◌==◌, ==_iff, ==_refl, ◌||◌, ◌⊎◌, if◌then◌else◌, append_assoc, append-nil, Option-cases,
  Bool-cases, inl, inr,
}
use kafka_minion.Prelude.Int.{ℤ}

abbrev pub blocks_of : Option (List Block) → List Block
blocks_of none = []
blocks_of (some bs) = bs

-- The calls of `AddBlock` on the request of a broker so far.
abbrev pub asked : ℤ → Requests → List Block
asked b requests = blocks_of (get b requests)

add_block-asked :
    (id b : ℤ) (x : Block) (requests : Requests)
    → has id requests ≡ true
    → (r : Requests) × (add_block id x requests ≡ some r)
      × (asked b r ≡ asked b requests ++ (if id == b then x ∷ [] else []))
      × ((c : ℤ) → has c r ≡ has c requests)
unfolding add_block
add_block-asked id b x requests h = elim (Option-cases (get id requests)) [
  | inl missing ↦ absurd (none_there (get id requests) missing (sym (has-get id requests) ∙ h))
  | inr (blocks, found) ↦ (
    put id (blocks ++ x ∷ []) requests,
    rw (found, add_block),
    grown blocks found (Bool-cases (id == b)),
    λ c. has-put id c (blocks ++ x ∷ []) requests ∙ there c (Bool-cases (id == c)),
  )
]
  where
    none_there :
        (o : Option (List Block)) → o ≡ none → (elim o [ none ↦ false | some _ ↦ true ]) ≡ true → ⊥
    none_there none e t = cc
    none_there (some _) e t = cc

    grown :
        (blocks : List Block)
        → get id requests ≡ some blocks
        → ((id == b) ≡ true) ⊎ ((id == b) ≡ false)
        → asked b (put id (blocks ++ x ∷ []) requests)
          ≡ asked b requests ++ (if id == b then x ∷ [] else [])
    grown blocks found (inl same) =
        rw (get-put, same)
          (ap (λ o. blocks_of o ++ x ∷ [])
            (sym found ∙ ap (λ k. get k requests) ((==_iff id b).0 same)))
    grown blocks found (inr other) = rw (get-put, other) (sym (append-nil (asked b requests)))

    there :
        (c : ℤ)
        → ((id == c) ≡ true) ⊎ ((id == c) ≡ false)
        → (id == c || has c requests) ≡ has c requests
    there c (inl same) = rw same (sym h ∙ ap (λ k. has k requests) ((==_iff id c).0 same))
    there c (inr other) = rw other refl

put_empty-asked :
    (id b : ℤ) (requests : Requests)
    → has id requests ≡ false
    → asked b (put id [] requests) ≡ asked b requests
put_empty-asked id b requests h = elim (Bool-cases (id == b)) [
  | inl same ↦
      rw (get-put, same)
        (absent (get id requests) (sym (has-get id requests) ∙ h)
          ∙ ap (λ k. asked k requests) ((==_iff id b).0 same))
  | inr other ↦ rw (get-put, other) refl
]
  where
    absent :
        (o : Option (List Block))
        → (elim o [ none ↦ false | some _ ↦ true ]) ≡ false
        → [] ≡ blocks_of o
    absent none e = refl
    absent (some _) e = cc

module _ {Broker : Type 0} where
  -- A broker has both requests or none.
  abbrev Paired : Buckets Broker → Type 0
  Paired s = (id : ℤ) → has id s.high ≡ has id s.low

  ensure-asked :
      (id b : ℤ) (s : Buckets Broker)
      → Paired s
      → (asked b (ensure id s).high ≡ asked b s.high)
        × (asked b (ensure id s).low ≡ asked b s.low)
        × Paired (ensure id s)
        × (has id (ensure id s).high ≡ true)
  unfolding ensure
  ensure-asked id b s p = elim (Bool-cases (has id s.high)) [
    | inl there ↦ rw there (refl, refl, p, there)
    | inr missing ↦ rw missing (
      put_empty-asked id b s.high missing,
      put_empty-asked id b s.low (sym (p id) ∙ missing),
      λ c. has-put id c [] s.high ∙ ap (λ h. id == c || h) (p c) ∙ sym (has-put id c [] s.low),
      has-put id id [] s.high ∙ ap (λ t. t || has id s.high) (==_refl id),
    )
  ]

module _ {Broker : Type 0} (client : Client Broker) where
  -- The block of a partition, in the request of its leader.
  abbrev pub block_for : ℤ → OffsetTime → Bytes → ℤ → Option Broker → List Block
  block_for b time topic p none = []
  block_for b time topic p (some broker) =
      if client.id broker == b then block topic p time ∷ [] else []

  abbrev pub blocks_in : ℤ → OffsetTime → Bytes → List ℤ → List Block
  blocks_in b time topic [] = []
  blocks_in b time topic (p ∷ ps) =
      block_for b time topic p (client.leader topic p) ++ blocks_in b time topic ps

  abbrev pub blocks_for : ℤ → OffsetTime → GoMap Bytes (List ℤ) → List Block
  blocks_for b time [] = []
  blocks_for b time ((topic, ps) ∷ topics) = blocks_in b time topic ps ++ blocks_for b time topics

  -- What a stretch of the loops adds to the requests of broker b.
  record Added (b : ℤ) (s s' : Buckets Broker) (high low : List Block) : Type 0 where
    to_high : asked b s'.high ≡ asked b s.high ++ high
    to_low : asked b s'.low ≡ asked b s.low ++ low
    paired : Paired s'

  ask-Added :
      (b : ℤ) (topic : Bytes) (p : ℤ) (broker : Broker) (s : Buckets Broker)
      → Paired s
      → (s' : Buckets Broker) × (ask client topic p broker s ≡ some s')
        × Added b s s'
            (if client.id broker == b then block topic p newest ∷ [] else [])
            (if client.id broker == b then block topic p oldest ∷ [] else [])
  unfolding ask
  ask-Added b topic p broker s paired =
      let id = client.id broker in
      let (same_high, same_low, paired', there) = ensure-asked id b s paired in
      let (high, run_high, more_high, kept_high) =
        add_block-asked id b (block topic p newest) (ensure id s).high there in
      let (low, run_low, more_low, kept_low) =
        add_block-asked id b (block topic p oldest) (ensure id s).low (sym (paired' id) ∙ there) in
      (
        record { high = high; low = low; leaders = put id broker (ensure id s).leaders },
        rw (run_high, run_low),
        record {
          to_high =
              more_high
              ∙ ap (λ bs. bs ++ (if id == b then block topic p newest ∷ [] else [])) same_high;
          to_low =
              more_low
              ∙ ap (λ bs. bs ++ (if id == b then block topic p oldest ∷ [] else [])) same_low;
          paired = λ c. kept_high c ∙ paired' c ∙ sym (kept_low c);
        },
      )

  -- One stretch behind another.
  Added-append :
      {b : ℤ} {s t u : Buckets Broker} {h h' l l' : List Block}
      → Added b s t h l
      → Added b t u h' l'
      → Added b s u (h ++ h') (l ++ l')
  Added-append {b} {s} {h} {h'} {l} {l'} x y = record {
    to_high = y.to_high ∙ ap (λ bs. bs ++ h') x.to_high ∙ append_assoc (asked b s.high) h h';
    to_low = y.to_low ∙ ap (λ bs. bs ++ l') x.to_low ∙ append_assoc (asked b s.low) l l';
    paired = y.paired;
  }

  Added-nil : {b : ℤ} {s : Buckets Broker} → Paired s → Added b s s [] []
  Added-nil {b} {s} p = record {
    to_high = sym (append-nil (asked b s.high));
    to_low = sym (append-nil (asked b s.low));
    paired = p;
  }

  ask_leader-Added :
      (b : ℤ) (topic : Bytes) (p : ℤ) (leader : Option Broker) (s : Buckets Broker)
      → Paired s
      → (s' : Buckets Broker) × (ask_leader client topic p leader s ≡ some s')
        × Added b s s' (block_for b newest topic p leader) (block_for b oldest topic p leader)
  ask_leader-Added b topic p none s paired = (s, refl, Added-nil paired)
  ask_leader-Added b topic p (some broker) s paired = ask-Added b topic p broker s paired

  ask_partitions-Added :
      (b : ℤ) (topic : Bytes) (ps : List ℤ) (s : Buckets Broker)
      → Paired s
      → (s' : Buckets Broker) × (ask_partitions client topic ps s ≡ some s')
        × Added b s s' (blocks_in b newest topic ps) (blocks_in b oldest topic ps)
  unfolding ask_partitions
  ask_partitions-Added b topic [] s paired = (s, refl, Added-nil paired)
  ask_partitions-Added b topic (p ∷ ps) s paired =
      let (t, run, first) = ask_leader-Added b topic p (client.leader topic p) s paired in
      let (u, run', more) = ask_partitions-Added b topic ps t first.paired in
      (u, rw run run', Added-append first more)

  ask_topics-Added :
      (b : ℤ) (topics : GoMap Bytes (List ℤ)) (s : Buckets Broker)
      → Paired s
      → (s' : Buckets Broker) × (ask_topics client topics s ≡ some s')
        × Added b s s' (blocks_for b newest topics) (blocks_for b oldest topics)
  unfolding ask_topics
  ask_topics-Added b [] s paired = (s, refl, Added-nil paired)
  ask_topics-Added b ((topic, ps) ∷ topics) s paired =
      let (t, run, first) = ask_partitions-Added b topic ps s paired in
      let (u, run', more) = ask_topics-Added b topics t first.paired in
      (u, rw run run', Added-append first more)

  -- No nil pointer is met, and the requests of every broker ask for the newest and the oldest offset
  -- of just those listed partitions that the broker leads, in the order of the loops. A partition
  -- without a known leader is left out.
  pub generate-asked :
      (b : ℤ) (topics : GoMap Bytes (List ℤ))
      → (s : Buckets Broker) × (generate_offset_requests client topics ≡ some s)
        × (asked b s.high ≡ blocks_for b newest topics)
        × (asked b s.low ≡ blocks_for b oldest topics)
  unfolding generate_offset_requests get
  generate-asked b topics =
      let (s, run, added) =
        ask_topics-Added b topics (record { high = []; low = []; leaders = [] }) (λ c. refl) in
      (s, run, added.to_high, added.to_low)
