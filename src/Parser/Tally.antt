-- ===== src/Parser/Tally.antt =====
-- The entries that participants(model, guid) shows, against a tally of the topics by name.
pub mod Entries
use mathlib.Core.Option
use fast_dds_spy.Prelude.{
  String, ℕ, suc, List, [], ◌∷◌, ◌++◌, map, Option, none, some, Bool, ◌≡◌, refl, if◌then◌else◌,
  length, ◌+◌, arith, Option-cases, Bool-cases, inl, inr, ◌∙◌, length-map, sym, ap,
}
use mathlib.Core.List.{map-append}
use fast_dds_spy.Order.{◌=?◌}
use fast_dds_spy.Order.Texts.{string_order}
use fast_dds_spy.External.Guids.{Guids}
use fast_dds_spy.External.Topics.{Topics, Endpoint}
use fast_dds_spy.Map
use fast_dds_spy.Parser.Data.{ParticipantEndpoint}
use fast_dds_spy.Parser.Participants.{increment, Gathered, new_entry, add_endpoint_to_vector}

-- The entries with the names of their topics, in the order of their first endpoints.
abbrev pub Tally : Type 0
Tally = List (String × ParticipantEndpoint)

pub position : String → Tally → Option ℕ
position k [] = none
position k ((j, e) ∷ rest) = if j =? k then some 0 else Option.map suc (position k rest)

bump : String → Tally → Tally
bump k [] = []
bump k ((j, e) ∷ rest) =
    if j =? k then (j, record e { number = e.number + 1 }) ∷ rest else (j, e) ∷ bump k rest

abbrev pub entries : Tally → List ParticipantEndpoint
entries = map (λ e. e.1)

increment-bump :
    (k : String) (t : Tally) (i : ℕ)
    → position k t ≡ some i
    → increment (entries t) i ≡ some (entries (bump k t))
unfolding position bump increment
increment-bump k [] i e = ground arith
increment-bump k ((j, x) ∷ rest) i e = elim (Bool-cases (j =? k)) [
  | inl here ↦ rw here (ground arith)
  | inr there ↦ elim (Option-cases (position k rest)) [
    | inl n ↦ absurd (ground arith)
    | inr (m, s) ↦ ground (arith, increment-bump k rest m s)
  ]
]

position-bump : (j k : String) (t : Tally) → position j (bump k t) ≡ position j t
unfolding position bump
position-bump j k [] = refl
position-bump j k ((i, x) ∷ rest) = ground (arith, position-bump j k rest)

position-append :
    (j k : String) (x : ParticipantEndpoint) (t : Tally)
    → position k t ≡ none
    → position j (t ++ (k, x) ∷ []) ≡ (if k =? j then some (length t) else position j t)
unfolding position
position-append j k x [] e = refl
position-append j k x ((i, y) ∷ rest) e = ground (
  arith,
  string_order.eq_iff i k,
  string_order.eq_iff i j,
  string_order.eq_iff k j,
  position-append j k x rest,
)

module _ ⦃G : Guids⦄ ⦃T : Topics⦄ where
  pub tally_add : Bool → Tally → Endpoint → Tally
  tally_add ros2_types t e = elim (position (T.topic_name e.topic) t) [
    | none ↦ t ++ (T.topic_name e.topic, new_entry ros2_types e) ∷ []
    | some i ↦ bump (T.topic_name e.topic) t
  ]

  unfoldable pub tally_all : Bool → Tally → List Endpoint → Tally
  tally_all ros2_types t [] = t
  tally_all ros2_types t (e ∷ rest) = tally_all ros2_types (tally_add ros2_types t e) rest

  -- The index map and the vector stand for the tally.
  pub record Simulates (g : Gathered) (t : Tally) : Type 0 where
    pub vector : g.1 ≡ entries t
    pub index : (k : String) → Map.find k g.0 ≡ position k t

  pub add-Simulates :
      (ros2_types : Bool) (g : Gathered) (t : Tally) (e : Endpoint)
      → Simulates g t
      → (g' : Gathered) × (add_endpoint_to_vector ros2_types g e ≡ some g')
        × Simulates g' (tally_add ros2_types t e)
  unfolding add_endpoint_to_vector tally_add
  add-Simulates ros2_types (index, vector) t e s =
      elim (Option-cases (position (T.topic_name e.topic) t)) [
        | inl n ↦ (
          (
            Map.insert (T.topic_name e.topic) (length vector) index,
            vector ++ new_entry ros2_types e ∷ [],
          ),
          rw (s.index (T.topic_name e.topic) ∙ n, add_endpoint_to_vector) refl,
          rw (n, tally_add)
              (record {
                vector =
                    rw (s.vector)
                      (sym (map-append (λ (x : String × ParticipantEndpoint). x.1) t _));
                index = λ k.
                    Map.find-insert (T.topic_name e.topic) k (length vector) index
                    ∙ (rw
                        (
                          s.vector,
                          length-map (λ (x : String × ParticipantEndpoint). x.1) t,
                          s.index k,
                        )
                        (sym (position-append k (T.topic_name e.topic) _ t n)));
              }),
        )
        | inr (i, found) ↦ (
          (index, entries (bump (T.topic_name e.topic) t)),
          rw (s.index (T.topic_name e.topic) ∙ found, add_endpoint_to_vector)
              (rw (s.vector, increment-bump (T.topic_name e.topic) t i found) refl),
          rw (found, tally_add)
              (record {
                vector = refl;
                index = λ k. s.index k ∙ sym (position-bump k (T.topic_name e.topic) t);
              }),
        )
      ]

  pub empty-Simulates : Simulates ([], []) []
  unfolding position Map.find
  empty-Simulates = record { vector = refl; index = λ k. refl }
