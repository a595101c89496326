-- ===== src/External/Database.antt =====
-- SafeDatabase of cpp_utils, which is not part of this repository: a locked map, visited in the
-- order of its keys.
use fast_dds_spy.Prelude.{List, [], some, ◌≡◌, if◌then◌else◌}
use fast_dds_spy.Order.{Order, ◌=?◌}
use fast_dds_spy.Map

pub record Database (K V : Type 0) ⦃o : Order K⦄ : Type 1 where
  pub Db : Type 0
  pub empty : Db
  -- What a range-based for loop over the database visits.
  pub entries : Db → List (K × V)
  pub add_or_modify : K → V → Db → Db
  pub entries-empty : entries empty ≡ []
  pub sorted : (d : Db) → Map.IsSorted (entries d)
  pub find-add_or_modify :
      (k j : K) (v : V) (d : Db)
      → Map.find j (entries (add_or_modify k v d))
        ≡ (if k =? j then some v else Map.find j (entries d))
