-- ===== src/Map/Found.antt =====
-- In a map in key order, a search for the key of an entry finds this entry.
use fast_dds_spy.Prelude.{List, [], ◌∷◌, none, some, ◌≡◌, arith}
use fast_dds_spy.Order.{Order}
use fast_dds_spy.Map

module _ {V : Type 0} {K : Type 0} ⦃o : Order K⦄ where
  -- A search for the key of an entry finds this entry.
  abbrev pub IsFound : List (K × V) → List (K × V) → Type 0
  IsFound m [] = Unit
  IsFound m ((k, v) ∷ rest) = (Map.find k m ≡ some v) × IsFound m rest

  IsFound-cons :
      (k : K) (v : V) (m s : List (K × V))
      → Map.find k m ≡ none
      → IsFound m s
      → IsFound ((k, v) ∷ m) s
  unfolding Map.find
  IsFound-cons k v m [] fresh a = tt
  IsFound-cons k v m ((j, w) ∷ s) fresh a =
      (ground (arith, a.0, o.eq_iff k j), IsFound-cons k v m s fresh a.1)

  pub IsFound-of_sorted : (m : List (K × V)) → Map.IsSorted m → IsFound m m
  unfolding Map.find
  IsFound-of_sorted [] a = tt
  IsFound-of_sorted ((k, v) ∷ m) a = (
    ground (arith, o.eq_iff k k),
    IsFound-cons k v m m (Map.find_below k m a.0 a.1) (IsFound-of_sorted m a.1),
  )
