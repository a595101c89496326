-- ===== src/Controller/Splitting.antt =====
-- The loops of Controller::update_endpoints over the partitions of one endpoint: a text with '|'
-- between the names is cut up as it is read, and each name is held against the filters.
use Prim.Native.Char.{code}
use Prim.Native.String.{◌++◌}
use text.Mathlib.TextLemmas.{append_assoc, append-nil, nil-append}
use fast_dds_spy.Prelude.{
  String, List, [], ◌∷◌, Bool, false, ◌||◌, if◌then◌else◌, ◌==◌, any, ◌≡◌, refl, sym, ap, ◌∙◌,
  arith, Bool-cases, inl, inr,
}
use fast_dds_spy.External.Patterns.{Patterns}

module _ ⦃W : Patterns⦄ where
  -- The loop over partition_filter_set_, left at the first filter that fits.
  unfoldable pub fits_filter : List String → String → Bool
  fits_filter [] curr_partition = false
  fits_filter (filter_p ∷ rest) curr_partition =
      W.match_pattern filter_p curr_partition
      || W.match_pattern curr_partition filter_p
      || fits_filter rest curr_partition

  -- The loop over the characters from curr_partition and endpoint_active on, and the test after it.
  unfoldable pub scan_partitions : List String → String → Bool → String → Bool
  unfolding fits_filter
  scan_partitions filters curr_partition endpoint_active String.[] =
      endpoint_active || fits_filter filters curr_partition
  scan_partitions filters curr_partition endpoint_active (String.◌∷◌ c rest) =
      scan_partitions filters (if code c == b'|' then "" else curr_partition ++ String.◌∷◌ c "")
        (if code c == b'|'
          then endpoint_active || fits_filter filters curr_partition
          else endpoint_active)
        rest

  unfoldable pub scan_pairs : List String → Bool → List (String × String) → Bool
  unfolding scan_partitions
  scan_pairs filters endpoint_active [] = endpoint_active
  scan_pairs filters endpoint_active ((guid, partitions) ∷ rest) =
      scan_pairs filters (scan_partitions filters "" endpoint_active partitions) rest

  -- The names between the bars, and the pairs of which a filter fits one name.
  abbrev pub grow : String → List String → List String
  grow before [] = []
  grow before (p ∷ ps) = (before ++ p) ∷ ps

  abbrev pub pieces : String → List String
  pieces String.[] = "" ∷ []
  pieces (String.◌∷◌ c rest) =
      let others = pieces rest in
      if code c == b'|' then "" ∷ others else grow (String.◌∷◌ c "") others

  abbrev pub announces : List String → String × String → Bool
  announces filters (guid, partitions) = any (fits_filter filters) (pieces partitions)

  grow-grow : (a b : String) (ps : List String) → grow a (grow b ps) ≡ grow (a ++ b) ps
  grow-grow a b [] = refl
  grow-grow a b (p ∷ ps) = ap (λ q. q ∷ ps) (sym (append_assoc a b p))

  grow_none : (ps : List String) → grow "" ps ≡ ps
  grow_none [] = refl
  grow_none (p ∷ ps) = ap (λ q. q ∷ ps) (nil-append p)

  scan_partitions_lem :
      (filters : List String) (curr s : String) (active : Bool)
      → scan_partitions filters curr active s
        ≡ (active || any (fits_filter filters) (grow curr (pieces s)))
  unfolding scan_partitions
  scan_partitions_lem filters curr String.[] active = rw (append-nil curr) (ground arith)
  scan_partitions_lem filters curr (String.◌∷◌ c rest) active = elim (Bool-cases (code c == b'|')) [
    | inl bar ↦
        rw (bar, append-nil curr)
          (scan_partitions_lem filters "" rest (active || fits_filter filters curr)
            ∙ rw (grow_none (pieces rest)) (ground arith))
    | inr other ↦
        rw (other, grow-grow curr (String.◌∷◌ c "") (pieces rest))
          (scan_partitions_lem filters (curr ++ String.◌∷◌ c "") rest active)
  ]

  pub scan_pairs_lem :
      (filters : List String) (active : Bool) (ps : List (String × String))
      → scan_pairs filters active ps ≡ (active || any (announces filters) ps)
  unfolding scan_pairs
  scan_pairs_lem filters active [] = ground arith
  scan_pairs_lem filters active ((guid, partitions) ∷ rest) = ground (
    arith,
    scan_partitions_lem filters "" partitions active,
    grow_none (pieces partitions),
    scan_pairs_lem filters (scan_partitions filters "" active partitions) rest,
  )
