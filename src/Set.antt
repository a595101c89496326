-- ===== src/Set.antt =====
-- std::set as a list in key order: membership, insert, erase.
use fast_dds_spy.Prelude.{
  ◌≡◌, refl, List, [], ◌∷◌, arith, if◌then◌else◌, Bool, true, false, ◌||◌, ◌&&◌, not, is_empty, inl,
  inr, Bool-cases,
}
use fast_dds_spy.Order.{Order, lt_of_not_lt, ◌=?◌, ◌<?◌}

module _ {ℓ} {K : Type ℓ} ⦃o : Order K⦄ where
  unfoldable pub contains : K → List K → Bool
  contains k [] = false
  contains k (j ∷ s) = j =? k || contains k s

  unfoldable pub insert : K → List K → List K
  insert k [] = k ∷ []
  insert k (j ∷ s) = if j =? k then j ∷ s else (if k <? j then k ∷ j ∷ s else j ∷ insert k s)

  unfoldable pub erase : K → List K → List K
  erase k [] = []
  erase k (j ∷ s) = if j =? k then erase k s else j ∷ erase k s

  pub contains-insert : (k j : K) (s : List K) → contains j (insert k s) ≡ (k =? j || contains j s)
  unfolding contains insert
  contains-insert k j [] = refl
  contains-insert k j (i ∷ s) =
      ground (arith, o.eq_iff k j, o.eq_iff i k, o.eq_iff i j, contains-insert k j s)

  pub contains-erase :
      (k j : K) (s : List K) → contains j (erase k s) ≡ (not (k =? j) && contains j s)
  unfolding contains erase
  contains-erase k j [] = ground arith
  contains-erase k j (i ∷ s) =
      ground (arith, o.eq_iff k j, o.eq_iff i k, o.eq_iff i j, contains-erase k j s)

  pub is_empty-insert : (k : K) (s : List K) → is_empty (insert k s) ≡ false
  unfolding insert
  is_empty-insert k [] = refl
  is_empty-insert k (j ∷ s) = ground arith

  pub is_empty_of_contains : (k : K) (s : List K) → contains k s ≡ true → is_empty s ≡ false
  unfolding contains
  is_empty_of_contains k [] h = ground arith
  is_empty_of_contains k (j ∷ s) h = refl

  -- The elements rise, so none stands twice.
  abbrev pub Above : K → List K → Type 0
  Above k [] = Unit
  Above k (j ∷ s) = (k <? j) ≡ true

  abbrev pub IsSorted : List K → Type 0
  IsSorted [] = Unit
  IsSorted (k ∷ s) = Above k s × IsSorted s

  Above-insert : (i k : K) (s : List K) → (i <? k) ≡ true → Above i s → Above i (insert k s)
  unfolding insert
  Above-insert i k [] h a = h
  Above-insert i k (j ∷ s) h a = ground arith

  pub insert-IsSorted : (k : K) (s : List K) → IsSorted s → IsSorted (insert k s)
  unfolding insert
  insert-IsSorted k [] a = (tt, tt)
  insert-IsSorted k (j ∷ s) a = elim (Bool-cases (j =? k)) [
    | inl same ↦ rw same a
    | inr other ↦ rw other (elim (Bool-cases (k <? j)) [
      | inl less ↦ rw less (less, a)
      | inr more ↦
          rw more (Above-insert j k s (lt_of_not_lt j k other more) a.0, insert-IsSorted k s a.1)
    ])
  ]
