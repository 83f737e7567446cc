-- ===== src/Collector/Groups/Order.antt =====
-- `getVersionedConsumerGroups` visits the offsets in the random order of a Go map: what it returns
-- does not depend on it, as long as no two groups tie.
use kafka_minion.Collector.{VersionedConsumerGroup}
use kafka_minion.Collector.Groups.{Groups, keep_latest, scan, get_versioned_consumer_groups}
use kafka_minion.Collector.Groups.Covers.{IsFiled}
use kafka_minion.Collector.Groups.Latest.{
  groups_covered, groups_parsed, latest_is_highest, latest_exists,
}
use kafka_minion.Collector.Groups.Origin.{scan_of, entry_of}
use kafka_minion.Collector.Groups.Panics.{parsed_groups-total, parse_consumer_group_name-none}
use kafka_minion.Collector.Version.{parse_version, parse_consumer_group_name}
use kafka_minion.GoMap.{GoMap, get, put}
use kafka_minion.GoMap.Laws.{get-put}
use kafka_minion.Prelude.{
  ◌≡◌, ◌≢◌, ◌↔◌, ◌⊎◌, refl, sym, ap, ◌∙◌, subst, Bool, true, false, Bytes, bytes_eq, ◌==◌, ==_iff,
  Option, none, some, some-eq, [], ◌∷◌, inl, inr, All, Any, Option-cases, Bool-cases, arith,
}
use kafka_minion.Storage.{ConsumerPartitionOffsetMetric}

abbrev pub Offsets : Type 0
Offsets = GoMap Bytes ConsumerPartitionOffsetMetric

abbrev pub IsGroup : Bytes → Offsets → Type 0
IsGroup k offsets = Any (λ entry. (entry.1).group ≡ k) offsets

-- Two groups with one base name and one version, as "g-1" and "g-01", are the same.
abbrev pub NoTies : Offsets → Type 0
NoTies offsets =
    (a b : Bytes) (g h : VersionedConsumerGroup)
    → IsGroup a offsets
    → IsGroup b offsets
    → parse_consumer_group_name a ≡ some g
    → parse_consumer_group_name b ≡ some h
    → g.base_name ≡ h.base_name
    → g.version ≡ h.version
    → a ≡ b

put-IsFiled :
    (j k : Bytes) (v w : VersionedConsumerGroup) (m : Groups)
    → get k (put j v m) ≡ some w
    → (j ≡ k) ⊎ IsFiled k m
put-IsFiled j k v w m e = elim (Bool-cases (j == k)) [
  | inl same ↦ inl ((==_iff j k).0 same)
  | inr other ↦ inr (w, rw (get-put, other) at e)
]

-- A name that is filed is that of a group.
scan-IsGroup :
    (offsets : Offsets) (k : Bytes) (v : VersionedConsumerGroup) (by_name latest : Groups)
    {g l : Groups}
    → scan offsets by_name latest ≡ some (g, l)
    → get k g ≡ some v
    → IsFiled k by_name ⊎ IsGroup k offsets
unfolding scan
scan-IsGroup [] k v by_name latest e got =
    inl (v, ap (λ (r : Groups × Groups). get k r.0) (some-eq e) ∙ got)
scan-IsGroup ((key, offset) ∷ offsets) k v by_name latest e got =
    elim (Option-cases (parse_consumer_group_name offset.group)) [
      | inl fault ↦ cc (rw (fault, scan) at e)
      | inr (group, p) ↦
          elim (scan-IsGroup offsets k v (put offset.group group by_name) (keep_latest group latest)
            (rw (p, scan) at e) got) [
              | inl (w, filed) ↦ elim (put-IsFiled offset.group k group w by_name filed) [
                | inl here ↦ inr (inl here)
                | inr before ↦ inl before
              ]
              | inr later ↦ inr (inr later)
            ]
    ]

covered_at :
    (k : Bytes) (offsets : Offsets) (gs : Groups)
    → All (λ entry. IsFiled (entry.1).group gs) offsets
    → IsGroup k offsets
    → IsFiled k gs
covered_at k [] gs h any = absurd any
covered_at k ((key, offset) ∷ offsets) gs h (inl here) = subst (λ j. IsFiled j gs) here h.0
covered_at k ((key, offset) ∷ offsets) gs h (inr later) = covered_at k offsets gs h.1 later

nowhere :
    (k : Bytes) (w : VersionedConsumerGroup) → get {V = VersionedConsumerGroup} k [] ≡ some w → ⊥
unfolding get
nowhere k w e = cc

module _ (offsets : Offsets) {gs : Groups}
    (e : get_versioned_consumer_groups offsets ≡ some gs) where
  result-IsGroup : (k : Bytes) (v : VersionedConsumerGroup) → get k gs ≡ some v → IsGroup k offsets
  result-IsGroup k v got =
      elim (scan-IsGroup offsets k _ [] [] (scan_of offsets e).ran
        (entry_of offsets e k v got).filed) [
          | inl (w, nothing) ↦ absurd (nowhere k w nothing)
          | inr there ↦ there
        ]

module _ (ps qs : Offsets) (same : (k : Bytes) → IsGroup k ps ↔ IsGroup k qs) where
  -- The parser returns for all groups of the one, so for those of the other.
  parses :
      {gs : Groups}
      → get_versioned_consumer_groups ps ≡ some gs
      → (entries : Offsets) → ((k : Bytes) → IsGroup k entries → IsGroup k qs)
      → All (λ entry. parse_version (entry.1).group ≢ none) entries
  parses e [] sub = tt
  parses e ((key, offset) ∷ entries) sub =
      let k = offset.group in
      let (v, got) = covered_at k ps _ (groups_covered ps e) ((same k).1 (sub k (inl refl))) in
      let parsed = groups_parsed ps e k v got in
      (
        (λ fault. absurd (cc (parsed, parse_consumer_group_name-none k fault))),
        parses e entries (λ j there. sub j (inr there)),
      )

  -- A group that the one result marks latest, the other marks too.
  latest_too :
      {gs hs : Groups}
      → NoTies ps
      → (e : get_versioned_consumer_groups ps ≡ some gs)
      → (f : get_versioned_consumer_groups qs ≡ some hs)
      → (k : Bytes) (v w : VersionedConsumerGroup) → get k gs ≡ some v
      → get k hs ≡ some w
      → v.is_latest ≡ true
      → w.is_latest ≡ true
  latest_too {gs} {hs} untied e f k v w gv hw lat =
      let (j, top, at_j, base, top_latest) = latest_exists qs f k w hw in
      let in_q = result-IsGroup qs f j top at_j in
      let (u, gu) = covered_at j ps _ (groups_covered ps e) ((same j).1 in_q) in
      let parsed_k = groups_parsed ps e k v gv in
      let parsed_k' = groups_parsed qs f k w hw in
      let parsed_j = groups_parsed ps e j u gu in
      let parsed_j' = groups_parsed qs f j top at_j in
      let base_w : w.base_name ≡ v.base_name =
        ap (λ (g : VersionedConsumerGroup). g.base_name) (some-eq (sym parsed_k' ∙ parsed_k)) in
      let base_u : u.base_name ≡ top.base_name =
        ap (λ (g : VersionedConsumerGroup). g.base_name) (some-eq (sym parsed_j ∙ parsed_j')) in
      let version_w : w.version ≡ v.version =
        ap (λ (g : VersionedConsumerGroup). g.version) (some-eq (sym parsed_k' ∙ parsed_k)) in
      let version_u : u.version ≡ top.version =
        ap (λ (g : VersionedConsumerGroup). g.version) (some-eq (sym parsed_j ∙ parsed_j')) in
      let below = latest_is_highest ps e k j v u gv gu lat (base_u ∙ base ∙ base_w) in
      let above = latest_is_highest qs f j k top w at_j hw top_latest (sym base) in
      let j_k : j ≡ k =
        untied j k _ _ ((same j).1 in_q) (result-IsGroup ps e k v gv) parsed_j parsed_k
          (base_u ∙ base ∙ base_w) (omega (arith, below, above, version_w, version_u)) in
      ap (λ (g : VersionedConsumerGroup). g.is_latest)
        (some-eq (sym hw ∙ ap (λ x. get x hs) (sym j_k) ∙ at_j))
      ∙ top_latest

NoTies-sub : (ps qs : Offsets) → ((k : Bytes) → IsGroup k qs → IsGroup k ps) → NoTies ps → NoTies qs
NoTies-sub ps qs sub untied a b g h a_in b_in = untied a b g h (sub a a_in) (sub b b_in)

-- Without ties the groups that are found, and which of them are the latest, do not depend on the order
-- of the offsets or on how often a group stands among them: offsets with the same groups give the same.
pub order_independent :
    (ps qs : Offsets) {gs : Groups}
    → ((k : Bytes) → IsGroup k ps ↔ IsGroup k qs)
    → NoTies ps
    → get_versioned_consumer_groups ps ≡ some gs
    → (hs : Groups) × (get_versioned_consumer_groups qs ≡ some hs)
      × ((k : Bytes) → get k gs ≡ get k hs)
order_independent ps qs {gs} same untied e =
    let (hs, f) = parsed_groups-total qs (parses ps qs same e qs (λ k there. there)) in
    (hs, f, λ k. by_entries hs f k (get k gs) refl (get k hs) refl)
  where
    back : (k : Bytes) → IsGroup k qs ↔ IsGroup k ps
    back k = ((same k).1, (same k).0)

    flags : (a b : Bool) → (a ≡ true → b ≡ true) → (b ≡ true → a ≡ true) → a ≡ b
    flags a b f g = ground arith

    by_entries :
        (hs : Groups)
        → (f : get_versioned_consumer_groups qs ≡ some hs)
        → (k : Bytes) (o : Option VersionedConsumerGroup) → get k gs ≡ o
        → (o' : Option VersionedConsumerGroup) → get k hs ≡ o'
        → get k gs ≡ get k hs
    by_entries hs f k none gv none hw = gv ∙ sym hw
    by_entries hs f k (some v) gv none hw =
        let (w, there) =
          covered_at k qs hs (groups_covered qs f) ((same k).0 (result-IsGroup ps e k v gv)) in
        cc (hw, there)
    by_entries hs f k none gv (some w) hw =
        let (v, there) =
          covered_at k ps gs (groups_covered ps e) ((same k).1 (result-IsGroup qs f k w hw)) in
        cc (gv, there)
    by_entries hs f k (some v) gv (some w) hw =
        let plain : record v { is_latest = false } ≡ record w { is_latest = false } =
          some-eq (sym (groups_parsed ps e k v gv) ∙ groups_parsed qs f k w hw) in
        let flag : v.is_latest ≡ w.is_latest =
          flags v.is_latest w.is_latest (latest_too ps qs same untied e f k v w gv hw) (
            latest_too qs ps back (NoTies-sub ps qs (λ k there. (same k).1 there) untied) f e k w v
              hw gv) in
        gv
        ∙ ap some (
            ap {A = VersionedConsumerGroup} {B = VersionedConsumerGroup}
              (λ x. record x { is_latest = v.is_latest }) plain
            ∙ ap {A = Bool} {B = VersionedConsumerGroup} (λ b. record w { is_latest = b }) flag)
        ∙ sym hw
