-- ===== src/GoMap/Laws.antt =====
-- What a lookup sees after each operation, and that a map has one entry to a key.
use kafka_minion.GoMap.{GoMap, get, put, delete, has}
use kafka_minion.Prelude.{
  true, false, none, some, [], ◌∷◌, Comparable, ◌==◌, ==_iff, ==_refl, ◌||◌, if◌then◌else◌, ◌≡◌,
  ◌≢◌, refl, arith, Bool-cases, inl, inr,
}

module _ {K V : Type 0} ⦃e : Comparable K⦄ where
  pub get-put :
      (k j : K) (v : V) (m : GoMap K V) → get j (put k v m) ≡ (if k == j then some v else get j m)
  unfolding get put
  get-put k j v [] = refl
  get-put k j v ((i, w) ∷ m) = ground (arith, ==_iff k j, ==_iff i k, ==_iff i j, get-put k j v m)

  pub get-delete :
      (k j : K) (m : GoMap K V) → get j (delete k m) ≡ (if k == j then none else get j m)
  unfolding get delete
  get-delete k j [] = ground arith
  get-delete k j ((i, w) ∷ m) = ground (arith, ==_iff k j, ==_iff i k, ==_iff i j, get-delete k j m)

  pub get-put_self : (k : K) (v : V) (m : GoMap K V) → get k (put k v m) ≡ some v
  get-put_self k v m = rw (get-put, ==_refl k)

  pub get-put_ne : (k j : K) (v : V) (m : GoMap K V) → k ≢ j → get j (put k v m) ≡ get j m
  get-put_ne k j v m h = rw get-put (ground (arith, ==_iff k j))

  pub get-delete_self : (k : K) (m : GoMap K V) → get k (delete k m) ≡ none
  get-delete_self k m = rw (get-delete, ==_refl k)

  pub get-delete_ne : (k j : K) (m : GoMap K V) → k ≢ j → get j (delete k m) ≡ get j m
  get-delete_ne k j m h = rw get-delete (ground (arith, ==_iff k j))

  -- No key stands twice.
  abbrev pub IsUnique : GoMap K V → Type 0
  IsUnique [] = Unit
  IsUnique ((k, v) ∷ m) = (get k m ≡ none) × IsUnique m

  pub put-IsUnique : (k : K) (v : V) (m : GoMap K V) → IsUnique m → IsUnique (put k v m)
  unfolding put
  put-IsUnique k v [] u = ground (arith, get_nil k)
    where
      get_nil : (k : K) → get {V = V} k [] ≡ none
      get_nil k = unfold get in refl
  put-IsUnique k v ((j, w) ∷ m) u = elim (Bool-cases (j == k)) [
    | inl same ↦ rw same (rw (← (==_iff j k).0 same) u)
    | inr other ↦
        rw other
          (ground (arith, get-put k j v m, ==_iff k j, ==_iff j k, u.0), put-IsUnique k v m u.1)
  ]

  pub delete-IsUnique : (k : K) (m : GoMap K V) → IsUnique m → IsUnique (delete k m)
  unfolding delete
  delete-IsUnique k [] u = tt
  delete-IsUnique k ((j, w) ∷ m) u = elim (Bool-cases (j == k)) [
    | inl same ↦ rw same (delete-IsUnique k m u.1)
    | inr other ↦
        rw other
          (ground (arith, get-delete k j m, ==_iff k j, ==_iff j k, u.0), delete-IsUnique k m u.1)
  ]

  -- A property of every entry.
  abbrev pub AllEntries : (K → V → Type 0) → GoMap K V → Type 0
  AllEntries P m = (k : K) (v : V) → get k m ≡ some v → P k v

  pub put-AllEntries :
      (P : K → V → Type 0) (k : K) (v : V) (m : GoMap K V)
      → P k v
      → AllEntries P m
      → AllEntries P (put k v m)
  put-AllEntries P k v m p h j w e = elim (Bool-cases (k == j)) [
    | inl same ↦ ground (arith, same, get-put k j v m, ==_iff k j)
    | inr other ↦ h j w (ground (arith, get-put k j v m))
  ]

  pub delete-AllEntries :
      (P : K → V → Type 0) (k : K) (m : GoMap K V) → AllEntries P m → AllEntries P (delete k m)
  delete-AllEntries P k m h j w e = h j w (ground (arith, get-delete k j m))

  pub has-get :
      (k : K) (m : GoMap K V) → has k m ≡ (elim (get k m) [ none ↦ false | some _ ↦ true ])
  unfolding has get
  has-get k [] = refl
  has-get k ((j, v) ∷ m) = ground (arith, has-get k m)

  pub get_here : (k : K) (v : V) (m : GoMap K V) → get k ((k, v) ∷ m) ≡ some v
  unfolding get
  get_here k v m = rw (==_refl k)

  pub AllEntries-tail :
      (P : K → V → Type 0) (k : K) (v : V) (m : GoMap K V)
      → get k m ≡ none
      → AllEntries P ((k, v) ∷ m)
      → AllEntries P m
  AllEntries-tail P k v m fresh each j w e =
      each j w (unfold get in ground (arith, ==_iff k j, fresh, e))

pub empty-AllEntries : {K V : Type 0} ⦃e : Comparable K⦄ (P : K → V → Type 0) → AllEntries P []
unfolding get
empty-AllEntries P k v e = cc

module _ {K V : Type 0} ⦃e : Comparable K⦄ where
  pub has-put : (k j : K) (v : V) (m : GoMap K V) → has j (put k v m) ≡ ((k == j) || has j m)
  unfolding has put
  has-put k j v [] = ground arith
  has-put k j v ((i, w) ∷ m) = ground (arith, ==_iff k j, ==_iff i k, ==_iff i j, has-put k j v m)
