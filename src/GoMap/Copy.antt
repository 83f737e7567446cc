-- ===== src/GoMap/Copy.antt =====
-- Writing the entries of a map one by one into an empty map gives the map back.
use kafka_minion.GoMap.{GoMap, get, put, copy_onto, copy}
use kafka_minion.GoMap.Laws.{IsUnique, get-put}
use kafka_minion.Prelude.{
  none, [], ◌∷◌, ◌++◌, Comparable, ==_iff, ◌≡◌, refl, arith, append_assoc, append-nil,
}

module _ {K V : Type 0} ⦃e : Comparable K⦄ where
  -- A new key goes to the end.
  put-append : (k : K) (v : V) (m : GoMap K V) → get k m ≡ none → put k v m ≡ m ++ (k, v) ∷ []
  unfolding put get
  put-append k v [] h = refl
  put-append k v ((j, w) ∷ m) h = ground (arith, put-append k v m)

  -- No key of `m` is a key of `acc`.
  abbrev Absent : GoMap K V → GoMap K V → Type 0
  Absent [] acc = Unit
  Absent ((k, v) ∷ m) acc = (get k acc ≡ none) × Absent m acc

  Absent-nil : (m : GoMap K V) → Absent m []
  unfolding get
  Absent-nil [] = tt
  Absent-nil ((k, v) ∷ m) = (refl, Absent-nil m)

  Absent-put :
      (k : K) (v : V) (m acc : GoMap K V) → get k m ≡ none → Absent m acc → Absent m (put k v acc)
  Absent-put k v [] acc h a = tt
  Absent-put k v ((j, w) ∷ m) acc h a = (
    unfold get in ground (arith, get-put k j v acc, ==_iff k j, ==_iff j k, a.0),
    Absent-put k v m acc (unfold get in ground arith) a.1,
  )

  copy_onto-append : (acc m : GoMap K V) → IsUnique m → Absent m acc → copy_onto acc m ≡ acc ++ m
  unfolding copy_onto
  copy_onto-append acc [] u a = rw append-nil
  copy_onto-append acc ((k, v) ∷ m) u a = rw (
    copy_onto-append (put k v acc) m u.1 (Absent-put k v m acc u.0 a.1),
    put-append k v acc a.0,
    append_assoc,
  )

  pub copy_lem : (m : GoMap K V) → IsUnique m → copy m ≡ m
  unfolding copy
  copy_lem m u = copy_onto-append [] m u (Absent-nil m)
