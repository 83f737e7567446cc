-- ===== src/Collector/Groups/Scan.antt =====
-- What the two maps hold after the scan of the offsets.
use kafka_minion.Collector.{VersionedConsumerGroup}
use kafka_minion.Collector.Groups.{Groups, keep_latest}
use kafka_minion.Collector.Version.{parse_consumer_group_name}
use kafka_minion.GoMap.{get, put}
use kafka_minion.GoMap.Laws.{IsUnique, AllEntries, get-put, put-IsUnique}
use native.Mathlib.Nat.{le_trans}
use kafka_minion.Prelude.{
  ◌≤◌, ◌≡◌, refl, sym, ap, ◌∙◌, false, Bytes, bytes_eq, Option, none, some, ◌==◌, ==_iff, ==_refl,
  ◌⊎◌, ltb, if◌then◌else◌, Bool-cases, inl, inr, subst, arith,
}

-- `by_name` files each parsed group under its name; `latest` has for each base name a group of
-- `by_name` whose version no other group of that base exceeds.
pub record Scanned (by_name latest : Groups) : Type 0 where
  pub parsed : AllEntries (λ k g. parse_consumer_group_name k ≡ some g) by_name
  pub unique : IsUnique latest
  pub known : AllEntries (λ b g. (b ≡ g.base_name) × (get g.name by_name ≡ some g)) latest
  pub covered :
      AllEntries
        (λ _ g.
          (w : VersionedConsumerGroup) × (get g.base_name latest ≡ some w)
          × (g.version ≤ w.version))
        by_name

pub name-parse :
    (k : Bytes) (g : VersionedConsumerGroup)
    → parse_consumer_group_name k ≡ some g
    → (g.name ≡ k) × (g.is_latest ≡ false)
unfolding parse_consumer_group_name
name-parse k g e = ground arith

-- Of a group and what is known of its base name, the one that is kept.
abbrev winner : VersionedConsumerGroup → Option VersionedConsumerGroup → VersionedConsumerGroup
winner g none = g
winner g (some known) = if ltb known.version g.version then g else known

winner_cases :
    (g : VersionedConsumerGroup) (o : Option VersionedConsumerGroup)
    → (winner g o ≡ g)
      ⊎ ((known : VersionedConsumerGroup) × (o ≡ some known) × (winner g o ≡ known))
winner_cases g none = inl refl
winner_cases g (some known) = elim (Bool-cases (ltb known.version g.version)) [
  | inl higher ↦ inl (rw higher)
  | inr lower ↦ inr (known, refl, rw lower)
]

le-winner :
    (g : VersionedConsumerGroup) (o : Option VersionedConsumerGroup)
    → g.version ≤ (winner g o).version
le-winner g none = omega arith
le-winner g (some known) = ground arith

known-le-winner :
    (g : VersionedConsumerGroup) (o : Option VersionedConsumerGroup)
    (known : VersionedConsumerGroup)
    → o ≡ some known
    → known.version ≤ (winner g o).version
known-le-winner g none known e = cc
known-le-winner g (some found) known e = ground arith

get-keep_latest :
    (g : VersionedConsumerGroup) (b : Bytes) (latest : Groups)
    → get b (keep_latest g latest)
      ≡ (if g.base_name == b then some (winner g (get g.base_name latest)) else get b latest)
unfolding keep_latest
get-keep_latest g b latest = ground (arith, get-put g.base_name b g latest, ==_iff g.base_name b)

keep_latest-IsUnique :
    (g : VersionedConsumerGroup) (latest : Groups)
    → IsUnique latest
    → IsUnique (keep_latest g latest)
unfolding keep_latest
keep_latest-IsUnique g latest u = by_known (get g.base_name latest)
  where
    by_known :
        (o : Option VersionedConsumerGroup)
        → IsUnique (elim o [
          | none ↦ put g.base_name g latest
          | some known ↦ if ltb known.version g.version then put g.base_name g latest else latest
        ])
    by_known none = put-IsUnique g.base_name g latest u
    by_known (some known) = elim (Bool-cases (ltb known.version g.version)) [
      | inl higher ↦ rw higher (put-IsUnique g.base_name g latest u)
      | inr lower ↦ rw lower u
    ]

module _ (k : Bytes) (group : VersionedConsumerGroup) (by_name latest : Groups)
    (p : parse_consumer_group_name k ≡ some group) (s : Scanned by_name latest) where
  -- The new entry agrees with one of the same name.
  still_there :
      (g : VersionedConsumerGroup)
      → get g.name by_name ≡ some g
      → get g.name (put k group by_name) ≡ some g
  still_there g e = elim (Bool-cases (k == g.name)) [
    | inl same ↦
        rw (get-put k g.name group by_name, same)
          (sym p ∙ ap parse_consumer_group_name ((==_iff k g.name).0 same) ∙ s.parsed g.name g e)
    | inr other ↦ rw (get-put k g.name group by_name, other) e
  ]

  group_there : get group.name (put k group by_name) ≡ some group
  group_there =
      ground (arith, get-put k group.name group by_name, ==_iff k group.name, name-parse k group p)

  known_next :
      AllEntries
        (λ b g. (b ≡ g.base_name) × (get g.name (put k group by_name) ≡ some g))
        (keep_latest group latest)
  known_next b g e = elim (Bool-cases (group.base_name == b)) [
    | inl same ↦
        let won : some (winner group (get group.base_name latest)) ≡ some g =
          rw (get-keep_latest group b latest, same) at e in
        let here : group.base_name ≡ b = (==_iff group.base_name b).0 same in
        elim (winner_cases group (get group.base_name latest)) [
          | inl new ↦
              let g_new : group ≡ g = cc (new, won) in
              subst (λ g. (b ≡ g.base_name) × (get g.name (put k group by_name) ≡ some g)) g_new
                (sym here, group_there)
          | inr (known, o, old) ↦
              let g_old : known ≡ g = cc (old, won) in
              let (base, there) = s.known group.base_name known o in
              subst (λ g. (b ≡ g.base_name) × (get g.name (put k group by_name) ≡ some g)) g_old
                (sym here ∙ base, still_there known there)
        ]
    | inr other ↦
        let (base, there) = s.known b g (rw (get-keep_latest group b latest, other) at e) in
        (base, still_there g there)
  ]

  covered_next :
      AllEntries
        (λ _ g.
          (w : VersionedConsumerGroup) × (get g.base_name (keep_latest group latest) ≡ some w)
          × (g.version ≤ w.version))
        (put k group by_name)
  covered_next j g e = elim (Bool-cases (k == j)) [
    | inl same ↦
        let new : some group ≡ some g = rw (get-put k j group by_name, same) at e in
        let is_group : group ≡ g = cc (new) in
        subst
          (λ g.
            (w : VersionedConsumerGroup) × (get g.base_name (keep_latest group latest) ≡ some w)
            × (g.version ≤ w.version))
          is_group
          (
            winner group (get group.base_name latest),
            rw (get-keep_latest group group.base_name latest, ==_refl group.base_name),
            le-winner group (get group.base_name latest),
          )
    | inr other ↦
        let (w, got, le) = s.covered j g (rw (get-put k j group by_name, other) at e) in
        elim (Bool-cases (group.base_name == g.base_name)) [
          | inl same ↦ (
            winner group (get group.base_name latest),
            rw (get-keep_latest group g.base_name latest, same),
            le_trans le (
                known-le-winner group _ w
                  (ap (λ b. get b latest) ((==_iff group.base_name g.base_name).0 same) ∙ got)),
          )
          | inr apart ↦ (w, rw (get-keep_latest group g.base_name latest, apart) got, le)
        ]
  ]

  parsed_next : AllEntries (λ k g. parse_consumer_group_name k ≡ some g) (put k group by_name)
  parsed_next j g e = elim (Bool-cases (k == j)) [
    | inl same ↦
        ap parse_consumer_group_name (sym ((==_iff k j).0 same))
        ∙ p
        ∙ (rw (get-put k j group by_name, same) at e)
    | inr other ↦ s.parsed j g (rw (get-put k j group by_name, other) at e)
  ]

  pub put-Scanned : Scanned (put k group by_name) (keep_latest group latest)
  put-Scanned = record {
    parsed = parsed_next;
    unique = keep_latest-IsUnique group latest s.unique;
    known = known_next;
    covered = covered_next;
  }
