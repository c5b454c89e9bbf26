-- ===== src/Policy/Compile.antt =====
-- compilePolicyModel in packages/core/src/policy-model.ts. Its `switch` has a case for each kind of
-- relation, so its `throw` is out of reach. `lower` is `toLowerCase`.
pub mod Laws
pub mod Meaning
use access_kit.Prelude.{
  String, Bool, true, false, not, ◌&&◌, ◌||◌, Option, none, some, List, [], ◌∷◌, ◌++◌,
  if◌then◌else◌, ◌otherwise◌,
}
use access_kit.JsMap
use access_kit.JsMap.{JsMap}
use access_kit.JsSet
use access_kit.JsSet.{JsSet}
use access_kit.Policy.Model.{
  RelationKind, membership, grant, containment, deny, Relation, ActionMapping, InheritanceRule,
  DenyRule, PolicyModel, CompiledPolicyModel,
}

-- The relation names of each kind.
pub record Kinds : Type 0 where
  pub membership_relations : JsSet
  pub containment_relations : JsSet
  pub grant_relations : JsSet
  pub deny_relations : JsSet

abbrev add_kind : Kinds → RelationKind → String → Kinds
add_kind ks membership name = record ks {
  membership_relations = JsSet.add ks.membership_relations name;
}
add_kind ks containment name = record ks {
  containment_relations = JsSet.add ks.containment_relations name;
}
add_kind ks grant name = record ks { grant_relations = JsSet.add ks.grant_relations name }
add_kind ks deny name = record ks { deny_relations = JsSet.add ks.deny_relations name }

unfoldable pub sort_relations : List Relation → Kinds → Kinds
sort_relations [] ks = ks
sort_relations (r ∷ rs) ks = sort_relations rs (add_kind ks r.kind r.name)

abbrev pub no_kinds : Kinds
no_kinds = record {
  membership_relations = [];
  containment_relations = [];
  grant_relations = [];
  deny_relations = [];
}

-- `map.get(key) ?? new Set()`.
abbrev pub at_key : JsMap JsSet → String → JsSet
at_key m k = JsMap.get m k otherwise []

-- A relation is put into the set of an action.
unfoldable pub add_at : JsMap JsSet → String → String → JsMap JsSet
add_at m k r = JsMap.set m k (JsSet.add (at_key m k) r)

-- A relation is put into the set of each action of a list.
unfoldable pub add_at_each : (String → String) → String → List String → JsMap JsSet → JsMap JsSet
add_at_each lower r [] m = m
add_at_each lower r (a ∷ as_left) m = add_at_each lower r as_left (add_at m (lower a) r)

-- Those of an action's grants that are grant relations.
unfoldable pub add_grants : JsSet → List String → JsSet → JsSet
add_grants declared [] grants = grants
add_grants declared (g ∷ gs) grants =
    add_grants declared gs (if JsSet.has declared g then JsSet.add grants g else grants)

unfoldable pub compile_actions :
    (String → String) → JsSet → List ActionMapping → JsMap JsSet → JsMap JsSet
compile_actions lower declared [] m = m
compile_actions lower declared (a ∷ rest) m =
    compile_actions lower declared rest
      (JsMap.set m (lower a.name) (add_grants declared a.grants (at_key m (lower a.name))))

unfoldable pub compile_inheritance :
    (String → String) → Kinds → List InheritanceRule → JsMap JsSet → JsMap JsSet
compile_inheritance lower ks [] m = m
compile_inheritance lower ks (rule ∷ rest) m = compile_inheritance lower ks rest (
    if JsSet.has ks.membership_relations rule.through
      || JsSet.has ks.containment_relations rule.through
    then add_at_each lower rule.through rule.actions m
    else m)

-- The unscoped deny relations, and the scoped ones by action.
abbrev pub add_deny_rule :
    (String → String) → JsSet → DenyRule → JsSet × JsMap JsSet → JsSet × JsMap JsSet
add_deny_rule lower declared rule (unscoped, scoped) =
    if JsSet.has declared rule.relation
    then elim rule.actions [
      | none ↦ (JsSet.add unscoped rule.relation, scoped)
      | some actions ↦ (unscoped, add_at_each lower rule.relation actions scoped)
    ]
    else (unscoped, scoped)

unfoldable pub compile_deny_rules :
    (String → String) → JsSet → List DenyRule → JsSet × JsMap JsSet → JsSet × JsMap JsSet
compile_deny_rules lower declared [] acc = acc
compile_deny_rules lower declared (rule ∷ rest) acc =
    compile_deny_rules lower declared rest (add_deny_rule lower declared rule acc)

-- `new Set([...a, ...b])`.
unfoldable pub union : JsSet → List String → JsSet
union s [] = s
union s (k ∷ ks) = union (JsSet.add s k) ks

-- Each scoped set with the unscoped relations in front.
unfoldable pub with_unscoped : JsSet → JsMap JsSet → JsMap JsSet → JsMap JsSet
with_unscoped unscoped [] m = m
with_unscoped unscoped ((k, relations) ∷ rest) m =
    with_unscoped unscoped rest (JsMap.set m k (union (union [] unscoped) relations))

unfoldable pub compile_policy_model : (String → String) → PolicyModel → CompiledPolicyModel
compile_policy_model lower model =
    let ks = sort_relations model.relations no_kinds in
    let (unscoped, scoped) = compile_deny_rules lower ks.deny_relations model.deny_rules ([], []) in
    record {
      membership_relations = ks.membership_relations;
      containment_relations = ks.containment_relations;
      grant_relations_by_action = compile_actions lower ks.grant_relations model.actions [];
      traversal_relations_by_action = compile_inheritance lower ks model.inheritance_rules [];
      deny_relations_by_action = with_unscoped unscoped scoped [];
      unscoped_deny_relations = unscoped;
    }

-- The sets that the engine takes for an action.
unfoldable pub grant_relations_for : CompiledPolicyModel → String → JsSet
grant_relations_for c key = JsMap.get c.grant_relations_by_action key otherwise []

unfoldable pub traversal_relations_for : CompiledPolicyModel → String → JsSet
traversal_relations_for c key = JsMap.get c.traversal_relations_by_action key otherwise []

unfoldable pub deny_relations_for : CompiledPolicyModel → String → JsSet
deny_relations_for c key =
    JsMap.get c.deny_relations_by_action key otherwise c.unscoped_deny_relations
