-- ===== src/Map/Each.antt =====
-- Predicates on the values of a map.
use fast_dds_spy.Prelude.{◌≡◌, some, List, [], ◌∷◌, arith}
use fast_dds_spy.Order.{Order}
use fast_dds_spy.Map.{find, insert, erase}

-- A property of every value.
abbrev pub Each {ℓ κ ι} : {K : Type ℓ} {V : Type κ} → (V → Type ι) → List (K × V) → Type ι
Each P [] = Unit
Each P ((k, v) ∷ m) = P v × Each P m

module _ {ℓ κ ι} {K : Type ℓ} {V : Type κ} ⦃o : Order K⦄ (P : V → Type ι) where
  pub Each-find : (k : K) (m : List (K × V)) {v : V} → Each P m → find k m ≡ some v → P v
  unfolding find
  Each-find k [] a h = ground arith
  Each-find k ((j, w) ∷ m) {v} a h = ground (arith, Each-find k m {v = v} a.1)

  pub Each-insert : (k : K) (v : V) (m : List (K × V)) → P v → Each P m → Each P (insert k v m)
  unfolding insert
  Each-insert k v [] h a = (h, tt)
  Each-insert k v ((j, w) ∷ m) h a = ground (arith, Each-insert k v m h a.1)

  pub Each-erase : (k : K) (m : List (K × V)) → Each P m → Each P (erase k m)
  unfolding erase
  Each-erase k [] a = tt
  Each-erase k ((j, w) ∷ m) a = ground (arith, Each-erase k m a.1)
