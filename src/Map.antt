-- ===== src/Map.antt =====
-- std::map as an association list in key order: find, assignment through operator[], erase.
pub mod Each
pub mod Found
use fast_dds_spy.Prelude.{
  ◌≡◌, refl, Option, none, some, List, [], ◌∷◌, arith, if◌then◌else◌, ◌+◌, ◌≤◌, length, true, false,
  inl, inr, subst, Bool-cases,
}
use fast_dds_spy.Order.{Order, lt_of_not_lt, ◌=?◌, ◌<?◌}

module _ {ℓ κ} {K : Type ℓ} {V : Type κ} ⦃o : Order K⦄ where
  unfoldable pub find : K → List (K × V) → Option V
  find k [] = none
  find k ((j, v) ∷ m) = if j =? k then some v else find k m

  unfoldable pub insert : K → V → List (K × V) → List (K × V)
  insert k v [] = (k, v) ∷ []
  insert k v ((j, w) ∷ m) =
      if j =? k then (k, v) ∷ m else (if k <? j then (k, v) ∷ (j, w) ∷ m else (j, w) ∷ insert k v m)

  unfoldable pub erase : K → List (K × V) → List (K × V)
  erase k [] = []
  erase k ((j, w) ∷ m) = if j =? k then erase k m else (j, w) ∷ erase k m

  pub find-insert :
      (k j : K) (v : V) (m : List (K × V))
      → find j (insert k v m) ≡ (if k =? j then some v else find j m)
  unfolding find insert
  find-insert k j v [] = refl
  find-insert k j v ((i, w) ∷ m) =
      ground (arith, o.eq_iff k j, o.eq_iff i k, o.eq_iff i j, find-insert k j v m)

  pub find-insert_self : (k : K) (v : V) (m : List (K × V)) → find k (insert k v m) ≡ some v
  find-insert_self k v m = ground (arith, find-insert k k v m, o.eq_iff k k)

  pub find-erase :
      (k j : K) (m : List (K × V)) → find j (erase k m) ≡ (if k =? j then none else find j m)
  unfolding find erase
  find-erase k j [] = ground arith
  find-erase k j ((i, w) ∷ m) =
      ground (arith, o.eq_iff k j, o.eq_iff i k, o.eq_iff i j, find-erase k j m)

  pub length-insert_new :
      (k : K) (v : V) (m : List (K × V)) → find k m ≡ none → length (insert k v m) ≡ length m + 1
  unfolding find insert
  length-insert_new k v [] h = refl
  length-insert_new k v ((i, w) ∷ m) h = ground (arith, length-insert_new k v m)

  -- The keys rise: the order in which the standard library keeps and visits the nodes.
  abbrev pub Above : K → List (K × V) → Type 0
  Above k [] = Unit
  Above k ((j, v) ∷ m) = (k <? j) ≡ true

  abbrev pub IsSorted : List (K × V) → Type 0
  IsSorted [] = Unit
  IsSorted ((k, v) ∷ m) = Above k m × IsSorted m

  pub Above-trans : (k j : K) (m : List (K × V)) → (k <? j) ≡ true → Above j m → Above k m
  Above-trans k j [] h a = tt
  Above-trans k j ((i, v) ∷ m) h a = o.lt_trans k j i h a

  pub find_below : (k : K) (m : List (K × V)) → Above k m → IsSorted m → find k m ≡ none
  unfolding find
  find_below k [] a s = refl
  find_below k ((j, v) ∷ m) a s =
      ground (arith, o.eq_iff j k, o.lt_irrefl k, find_below k m (Above-trans k j m a s.0) s.1)

  -- An assignment to a key that is there changes no key.
  pub length-insert_old :
      (k : K) (v w : V) (m : List (K × V))
      → IsSorted m
      → find k m ≡ some w
      → length (insert k v m) ≡ length m
  unfolding find insert
  length-insert_old k v w [] s h = ground arith
  length-insert_old k v u ((i, w) ∷ m) s h = elim (Bool-cases (k <? i)) [
    | inl p ↦ ground (arith, find_below k m (Above-trans k i m p s.0) s.1)
    | inr p ↦ ground (arith, length-insert_old k v u m s.1)
  ]

  Above-insert :
      (i k : K) (v : V) (m : List (K × V)) → (i <? k) ≡ true → Above i m → Above i (insert k v m)
  unfolding insert
  Above-insert i k v [] h a = h
  Above-insert i k v ((j, w) ∷ m) h a = ground arith

  pub insert-IsSorted : (k : K) (v : V) (m : List (K × V)) → IsSorted m → IsSorted (insert k v m)
  unfolding insert
  insert-IsSorted k v [] s = (tt, tt)
  insert-IsSorted k v ((j, w) ∷ m) s = elim (Bool-cases (j =? k)) [
    | inl same ↦ rw same (subst (λ i. Above i m) ((o.eq_iff j k).0 same) s.0, s.1)
    | inr other ↦ rw other (elim (Bool-cases (k <? j)) [
      | inl less ↦ rw less (less, s)
      | inr more ↦
          rw more
            (Above-insert j k v m (lt_of_not_lt j k other more) s.0, insert-IsSorted k v m s.1)
    ])
  ]

  Above-erase : (i k : K) (m : List (K × V)) → Above i m → IsSorted m → Above i (erase k m)
  unfolding erase
  Above-erase i k [] a s = tt
  Above-erase i k ((j, w) ∷ m) a s = elim (Bool-cases (j =? k)) [
    | inl same ↦ rw same (Above-erase i k m (Above-trans i j m a s.0) s.1)
    | inr other ↦ rw other a
  ]

  pub erase-IsSorted : (k : K) (m : List (K × V)) → IsSorted m → IsSorted (erase k m)
  unfolding erase
  erase-IsSorted k [] s = tt
  erase-IsSorted k ((j, w) ∷ m) s = elim (Bool-cases (j =? k)) [
    | inl same ↦ rw same (erase-IsSorted k m s.1)
    | inr other ↦ rw other (Above-erase j k m s.0 s.1, erase-IsSorted k m s.1)
  ]
