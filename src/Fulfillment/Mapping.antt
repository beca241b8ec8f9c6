-- ===== src/Fulfillment/Mapping.antt =====
-- A courier's mapping of words to statuses: build_index and validate_mapping of
-- services/fulfillment-service/app/services/courier_rules.py. A word is the number of its normalised
-- text, 0 the empty one; a name that is not a canonical status is none.
pub mod Taught
use ecommerce_platform.Base.{
  Bool, true, false, Option, some, none, ℕ, List, [], ◌∷◌, ◌++◌, ◌==◌, if◌then◌else◌, any, not,
  keep_if,
}
use ecommerce_platform.Fulfillment.{
  CourierStatus, pickup_pending, picked_up, in_transit, out_for_delivery, delivered,
  delivery_failed, returning, returned, cancelled,
}
use ecommerce_platform.Fulfillment.Shipments.{map_status}

abbrev pub Mapping : Type 0
Mapping = List (Option CourierStatus × List ℕ)

abbrev pub Index : Type 0
Index = List (ℕ × CourierStatus)

unfoldable pub number_of : CourierStatus → ℕ
number_of pickup_pending = 0
number_of picked_up = 1
number_of in_transit = 2
number_of out_for_delivery = 3
number_of delivered = 4
number_of delivery_failed = 5
number_of returning = 6
number_of returned = 7
number_of cancelled = 8

abbrev pub is_same : CourierStatus → CourierStatus → Bool
unfolding number_of
is_same c d = number_of c == number_of d

-- One word; none where it is mapped to another status already.
unfoldable pub add_word : CourierStatus → ℕ → Index → Option Index
unfolding is_same
add_word c w index = if w == 0 then some index else elim (map_status index w) [
  | none ↦ some ((w, c) ∷ index)
  | some d ↦ if is_same d c then some index else none
]

unfoldable pub add_words : CourierStatus → List ℕ → Index → Option Index
unfolding add_word
add_words c [] index = some index
add_words c (w ∷ ws) index = elim (add_word c w index) [ none ↦ none | some i ↦ add_words c ws i ]

unfoldable pub build_from : Mapping → Index → Option Index
unfolding add_words
build_from [] index = some index
build_from ((none, ws) ∷ mapping) index = none
build_from ((some c, ws) ∷ mapping) index = elim (add_words c ws index) [
  | none ↦ none
  | some i ↦ build_from mapping i
]

unfoldable pub build_index : Mapping → Option Index
unfolding build_from
build_index mapping = build_from mapping []

abbrev pub required_canonical : List CourierStatus
required_canonical = picked_up ∷ delivered ∷ returning ∷ returned ∷ []

abbrev pub covers : Index → CourierStatus → Bool
unfolding is_same
covers index c = any (λ (e : ℕ × CourierStatus). is_same (e.1) c) index

pub data MappingProblem : Type 0 where
  unusable maps_nothing : MappingProblem
  missing : List CourierStatus → MappingProblem

abbrev pub missing_problem : List CourierStatus → List MappingProblem
missing_problem [] = []
missing_problem (c ∷ cs) = missing (c ∷ cs) ∷ []

abbrev pub empty_problem : Index → List MappingProblem
empty_problem [] = maps_nothing ∷ []
empty_problem (e ∷ index) = []

unfoldable pub validate_mapping : Mapping → List MappingProblem
unfolding build_index covers
validate_mapping mapping = elim (build_index mapping) [
  | none ↦ unusable ∷ []
  | some index ↦
      missing_problem (keep_if (λ (c : CourierStatus). not (covers index c)) required_canonical)
      ++ empty_problem index
]
