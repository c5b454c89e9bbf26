-- ===== src/Decision/CaveatExamples.antt =====
-- A caveat on a relation, and the theorems at it.
use access_kit.Prelude.{true, some, List, [], ◌∷◌, ◌≡◌, refl, All, map}
use access_kit.JsMap
use access_kit.Domain.{RelationshipTuple, DecisionRequest}
use access_kit.Domain.Json.{JsonRecord, end, field, text}
use access_kit.Domain.Json
use access_kit.Store.Graph.{empty_graph}
use access_kit.Policy.Model.{
  PolicyModel, CaveatCondition, ConditionSource, ContextType, CaveatOperator,
}
use access_kit.Decision.Paths.{to_path_step}
use access_kit.Decision.Caveats
use access_kit.Decision.Caveats.{
  CaveatExplanation, allows, evaluate_conditional_relationship_caveats,
}
use access_kit.Decision.Caveats.Meaning.{
  PassesCaveats, caveats-PassesCaveats, PassesCaveats-caveats, Unlisted-allows,
}
use access_kit.Decision.Examples.{dates, edge, policy, request}

abbrev in_office : CaveatCondition
in_office = record {
  source = ConditionSource.context;
  key = "place";
  type = ContextType.string;
  operator = CaveatOperator.equals;
  value = text "office";
}

abbrev pub caveated : PolicyModel
caveated = record policy {
  caveats = some (
      record {
        name = "office";
        fail_closed = true;
        reason_code = "DENY_OUTSIDE";
        conditions = in_office ∷ [];
      }
      ∷ []);
  conditional_relationships =
      some (
        record { relation = "reader"; caveats = "office" ∷ []; actions = some ("read" ∷ []) } ∷ []);
}

abbrev pub from_office : DecisionRequest
from_office = record (request "plan") { context = some (field "place" (text "office") end) }

abbrev shouted : DecisionRequest
shouted = record (request "plan") { action = "READ" }

abbrev pub path : List RelationshipTuple
path = edge "e1" "alice" "member" "team" ∷ edge "e2" "team" "reader" "plan" ∷ []

passes :
    (explanations : List CaveatExplanation) × (evaluate_conditional_relationship_caveats dates
        empty_graph from_office "2" caveated
        (map to_path_step path)
        path
      ≡ allows explanations)
unfolding evaluate_conditional_relationship_caveats to_path_step JsMap.get JsMap.set
    Caveats.evaluate_caveat_condition Json.has_own Json.value_of Caveats.value_matches_context_type
    Caveats.compare_condition
passes = (_, refl)

caveats-PassesCaveats_example :
    All (PassesCaveats dates empty_graph from_office "2" caveated path) path
caveats-PassesCaveats_example =
    caveats-PassesCaveats dates empty_graph from_office "2" caveated path passes.0 passes.1

path_passes : All (PassesCaveats dates empty_graph from_office "2" caveated path) path
path_passes =
    caveats-PassesCaveats dates empty_graph from_office "2" caveated path passes.0 passes.1

PassesCaveats-caveats_example :
    (explanations : List CaveatExplanation) × (evaluate_conditional_relationship_caveats dates
        empty_graph from_office "2" caveated
        (map to_path_step path)
        path
      ≡ allows explanations)
PassesCaveats-caveats_example =
    PassesCaveats-caveats dates empty_graph from_office "2" caveated path path_passes

Unlisted-allows_example :
    evaluate_conditional_relationship_caveats dates empty_graph shouted "2" caveated
      (map to_path_step path)
      path
    ≡ allows []
Unlisted-allows_example =
    Unlisted-allows dates empty_graph shouted "2" caveated path (("read" ∷ [], refl, refl), tt)
