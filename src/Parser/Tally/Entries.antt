-- ===== src/Parser/Tally/Entries.antt =====
-- A tally has one entry for each topic with endpoints, with their number.
use fast_dds_spy.Prelude.{
  String, ℕ, List, [], ◌∷◌, ◌++◌, Option, none, some, Bool, ◌≡◌, refl, if◌then◌else◌, ◌+◌, arith,
  Option-cases, Bool-cases, inl, inr, ◌∙◌, sym, ap,
}
use fast_dds_spy.Order.{◌=?◌}
use fast_dds_spy.Order.Texts.{string_order}
use fast_dds_spy.External.Guids.{Guids}
use fast_dds_spy.External.Topics.{Topics, Endpoint}
use fast_dds_spy.Parser.Data.{ParticipantEndpoint}
use fast_dds_spy.Parser.Participants.{new_entry}
use fast_dds_spy.Parser.Tally.{Tally, position, bump, tally_add, tally_all}

-- The entry of a topic.
unfoldable pub lookup : String → Tally → Option ParticipantEndpoint
lookup k [] = none
lookup k ((j, e) ∷ rest) = if j =? k then some e else lookup k rest

-- No two entries are of the same topic.
unfoldable pub IsDistinct : Tally → Type 0
unfolding lookup
IsDistinct [] = Unit
IsDistinct ((j, e) ∷ rest) = (lookup j rest ≡ none) × IsDistinct rest

-- An entry with a larger number, or another one if there is none.
abbrev raised :
    ℕ → Option ParticipantEndpoint → Option ParticipantEndpoint → Option ParticipantEndpoint
raised n none other = other
raised n (some e) other = some (record e { number = e.number + n })

lookup-missing : (k : String) (t : Tally) → position k t ≡ none → lookup k t ≡ none
unfolding position lookup
lookup-missing k [] h = refl
lookup-missing k ((j, e) ∷ rest) h = elim (Bool-cases (j =? k)) [
  | inl same ↦ absurd (ground arith)
  | inr other ↦ elim (Option-cases (position k rest)) [
    | inl n ↦ rw other (lookup-missing k rest n)
    | inr (i, found) ↦ absurd (ground arith)
  ]
]

lookup-present :
    (k : String) (t : Tally) (i : ℕ)
    → position k t ≡ some i
    → (e : ParticipantEndpoint) × (lookup k t ≡ some e)
unfolding position lookup
lookup-present k [] i h = absurd (ground arith)
lookup-present k ((j, e) ∷ rest) i h = elim (Bool-cases (j =? k)) [
  | inl same ↦ (e, rw same refl)
  | inr other ↦ elim (Option-cases (position k rest)) [
    | inl n ↦ absurd (ground arith)
    | inr (m, found) ↦ let (x, there) = lookup-present k rest m found in (x, rw other there)
  ]
]

lookup-append :
    (k j : String) (x : ParticipantEndpoint) (t : Tally)
    → lookup j t ≡ none
    → lookup k (t ++ (j, x) ∷ []) ≡ (if j =? k then some x else lookup k t)
unfolding lookup
lookup-append k j x [] h = refl
lookup-append k j x ((l, y) ∷ rest) h = ground (
  arith,
  string_order.eq_iff l j,
  string_order.eq_iff l k,
  string_order.eq_iff j k,
  lookup-append k j x rest,
)

lookup-bump :
    (k j : String) (t : Tally)
    → lookup k (bump j t) ≡ (if j =? k then raised 1 (lookup k t) none else lookup k t)
unfolding lookup bump
lookup-bump k j [] = ground arith
lookup-bump k j ((l, y) ∷ rest) = elim (Bool-cases (l =? j)) [
  | inl same ↦ elim (Bool-cases (j =? k)) [
    | inl here ↦
        rw
          (
            same,
            here,
            (string_order.eq_iff l k).1
                ((string_order.eq_iff l j).0 same ∙ (string_order.eq_iff j k).0 here),
          )
          refl
    | inr there ↦ rw (same, there, ap (λ x. x =? k) ((string_order.eq_iff l j).0 same) ∙ there) refl
  ]
  | inr other ↦ elim (Bool-cases (l =? k)) [
    | inr there ↦ rw (other, there) (lookup-bump k j rest)
    | inl here ↦
        ground (arith, string_order.eq_iff l k, string_order.eq_iff j k, string_order.eq_iff l j)
  ]
]

IsDistinct-append :
    (j : String) (x : ParticipantEndpoint) (t : Tally)
    → lookup j t ≡ none
    → IsDistinct t
    → IsDistinct (t ++ (j, x) ∷ [])
unfolding lookup IsDistinct
IsDistinct-append j x [] h d = (refl, tt)
IsDistinct-append j x ((l, y) ∷ rest) h d = elim (Bool-cases (l =? j)) [
  | inl same ↦ absurd (ground arith)
  | inr other ↦ (
    lookup-append l j x rest (ground arith)
        ∙ ground (arith, d.0, string_order.eq_iff j l, string_order.eq_iff l j),
    IsDistinct-append j x rest (ground arith) d.1,
  )
]

IsDistinct-bump : (j : String) (t : Tally) → IsDistinct t → IsDistinct (bump j t)
unfolding lookup IsDistinct bump
IsDistinct-bump j [] d = tt
IsDistinct-bump j ((l, y) ∷ rest) d = elim (Bool-cases (l =? j)) [
  | inl same ↦ rw same d
  | inr other ↦ rw other (lookup-bump l j rest ∙ ground (arith, d.0), IsDistinct-bump j rest d.1)
]

module _ ⦃G : Guids⦄ ⦃T : Topics⦄ where
  -- How many of the endpoints are on the topic.
  abbrev pub count_topic : String → List Endpoint → ℕ
  count_topic k [] = 0
  count_topic k (e ∷ rest) =
      if T.topic_name e.topic =? k then 1 + count_topic k rest else count_topic k rest

  -- The entry that the endpoints on a topic are worth: the names as they are shown, with the type of
  -- the first of them, and their number.
  abbrev pub entry_of : Bool → String → List Endpoint → Option ParticipantEndpoint
  entry_of ros2_types k [] = none
  entry_of ros2_types k (e ∷ rest) =
      if T.topic_name e.topic =? k
      then some (record {
        topic_name = if ros2_types then T.demangle_if_ros_topic k else k;
        topic_type =
            if ros2_types
            then T.demangle_if_ros_type (T.type_name e.topic)
            else T.type_name e.topic;
        number = 1 + count_topic k rest;
      })
      else entry_of ros2_types k rest

  lookup-tally_add :
      (k : String) (ros2_types : Bool) (t : Tally) (e : Endpoint)
      → lookup k (tally_add ros2_types t e) ≡ (
          if T.topic_name e.topic =? k
          then raised 1 (lookup k t) (some (new_entry ros2_types e))
          else lookup k t)
  unfolding tally_add
  lookup-tally_add k ros2_types t e = elim (Option-cases (position (T.topic_name e.topic) t)) [
    | inl n ↦ elim (Bool-cases (T.topic_name e.topic =? k)) [
      | inl same ↦
          let missing : lookup k t ≡ none =
            ap (λ x. lookup x t) (sym ((string_order.eq_iff (T.topic_name e.topic) k).0 same))
            ∙ lookup-missing (T.topic_name e.topic) t n in
          rw (n, tally_add)
            (lookup-append k (T.topic_name e.topic) (new_entry ros2_types e) t
                (lookup-missing (T.topic_name e.topic) t n)
              ∙ rw (same, missing) refl)
      | inr other ↦
          rw (n, tally_add)
            (lookup-append k (T.topic_name e.topic) (new_entry ros2_types e) t
                (lookup-missing (T.topic_name e.topic) t n)
              ∙ rw other refl)
    ]
    | inr (i, found) ↦ elim (Bool-cases (T.topic_name e.topic =? k)) [
      | inl same ↦
          let (x, there) = lookup-present (T.topic_name e.topic) t i found in
          let here : lookup k t ≡ some x =
            ap (λ y. lookup y t) (sym ((string_order.eq_iff (T.topic_name e.topic) k).0 same))
            ∙ there in
          rw (found, tally_add) (lookup-bump k (T.topic_name e.topic) t ∙ rw (same, here) refl)
      | inr other ↦ rw (found, tally_add) (lookup-bump k (T.topic_name e.topic) t ∙ rw other refl)
    ]
  ]

  IsDistinct-tally_add :
      (ros2_types : Bool) (t : Tally) (e : Endpoint)
      → IsDistinct t
      → IsDistinct (tally_add ros2_types t e)
  unfolding tally_add
  IsDistinct-tally_add ros2_types t e d = elim (Option-cases (position (T.topic_name e.topic) t)) [
    | inl n ↦
        rw (n, tally_add)
          (IsDistinct-append (T.topic_name e.topic) (new_entry ros2_types e) t
            (lookup-missing (T.topic_name e.topic) t n) d)
    | inr (i, found) ↦ rw (found, tally_add) (IsDistinct-bump (T.topic_name e.topic) t d)
  ]

  pub IsDistinct-tally_all :
      (ros2_types : Bool) (t : Tally) (es : List Endpoint)
      → IsDistinct t
      → IsDistinct (tally_all ros2_types t es)
  unfolding tally_all
  IsDistinct-tally_all ros2_types t [] d = d
  IsDistinct-tally_all ros2_types t (e ∷ rest) d =
      IsDistinct-tally_all ros2_types (tally_add ros2_types t e) rest
        (IsDistinct-tally_add ros2_types t e d)

  pub lookup-tally_all :
      (k : String) (ros2_types : Bool) (t : Tally) (es : List Endpoint)
      → lookup k (tally_all ros2_types t es)
        ≡ raised (count_topic k es) (lookup k t) (entry_of ros2_types k es)
  unfolding tally_all
  lookup-tally_all k ros2_types t [] = elim (Option-cases (lookup k t)) [
    | inl missing ↦ rw missing refl
    | inr (x, there) ↦ ground arith
  ]
  lookup-tally_all k ros2_types t (e ∷ rest) =
      lookup-tally_all k ros2_types (tally_add ros2_types t e) rest
      ∙ rw (lookup-tally_add k ros2_types t e) (elim (Bool-cases (T.topic_name e.topic =? k)) [
        | inr other ↦ rw other refl
        | inl same ↦ elim (Option-cases (lookup k t)) [
          | inl missing ↦
              rw (same, missing, (string_order.eq_iff (T.topic_name e.topic) k).0 same) refl
          | inr (x, there) ↦ ground arith
        ]
      ])
