-- ===== src/Policy/Compile/Meaning.antt =====
-- What compilation means: the set that the engine takes for an action holds a relation exactly when
-- the model's lists say so.
use access_kit.Prelude.{
  String, Bool, true, false, ◌&&◌, ◌||◌, none, some, List, [], ◌∷◌, ◌≡◌, refl, ◌∙◌, ◌otherwise◌,
  ◌==◌, eq_iff, some_by, arith, inl, inr, Bool-cases, Option-cases,
}
use access_kit.JsMap
use access_kit.JsMap.{JsMap}
use access_kit.JsSet
use access_kit.JsSet.{JsSet}
use access_kit.Policy.Model.{
  RelationKind, membership, grant, containment, deny, Relation, DenyRule, PolicyModel,
}
use access_kit.Policy.Compile.{
  Kinds, sort_relations, add_kind, no_kinds, at_key, add_at, add_at_each, add_deny_rule,
  compile_deny_rules, union, with_unscoped, compile_policy_model, grant_relations_for,
  traversal_relations_for, deny_relations_for,
}
use access_kit.Policy.Compile.Laws.{
  lists_lower, maps_to, inherits_through, denies_all, denies_key, has-compile_actions,
  has-compile_inheritance, has-compile_deny_rules_unscoped, has-compile_deny_rules_scoped,
  has-union,
}

abbrev is_kind : RelationKind → RelationKind → Bool
is_kind membership membership = true
is_kind containment containment = true
is_kind grant grant = true
is_kind deny deny = true
is_kind _ _ = false

abbrev set_of : RelationKind → Kinds → JsSet
set_of membership ks = ks.membership_relations
set_of containment ks = ks.containment_relations
set_of grant ks = ks.grant_relations
set_of deny ks = ks.deny_relations

-- The model declares a relation of this kind under the name.
abbrev pub declares : PolicyModel → RelationKind → String → Bool
declares model kind r = some_by (λ rel. is_kind kind rel.kind && rel.name == r) model.relations

has-add_kind :
    (kind k : RelationKind) (ks : Kinds) (n r : String)
    → JsSet.has (set_of kind (add_kind ks k n)) r
      ≡ (JsSet.has (set_of kind ks) r || (is_kind kind k && n == r))
has-add_kind membership membership ks n r = JsSet.has-add ks.membership_relations n r
has-add_kind containment containment ks n r = JsSet.has-add ks.containment_relations n r
has-add_kind grant grant ks n r = JsSet.has-add ks.grant_relations n r
has-add_kind deny deny ks n r = JsSet.has-add ks.deny_relations n r
has-add_kind _ _ ks n r = ground arith

has-sort_relations :
    (kind : RelationKind) (rels : List Relation) (ks : Kinds) (r : String)
    → JsSet.has (set_of kind (sort_relations rels ks)) r ≡ (
        JsSet.has (set_of kind ks) r
        || some_by (λ rel. is_kind kind rel.kind && rel.name == r) rels)
unfolding sort_relations
has-sort_relations kind [] ks r = ground arith
has-sort_relations kind (rel ∷ rels) ks r =
    has-sort_relations kind rels (add_kind ks rel.kind rel.name) r
    ∙ rw (has-add_kind kind rel.kind ks rel.name r) (ground arith)

HasUniqueKeys-add_at_each :
    (lower : String → String) (r : String) (actions : List String) (m : JsMap JsSet)
    → JsMap.HasUniqueKeys m
    → JsMap.HasUniqueKeys (add_at_each lower r actions m)
unfolding add_at_each add_at
HasUniqueKeys-add_at_each lower r [] m h = h
HasUniqueKeys-add_at_each lower r (a ∷ rest) m h =
    HasUniqueKeys-add_at_each lower r rest _ (JsMap.set-HasUniqueKeys m (lower a) _ h)

HasUniqueKeys-add_deny_rule :
    (lower : String → String) (declared : JsSet) (rule : DenyRule) (u : JsSet) (m : JsMap JsSet)
    → JsMap.HasUniqueKeys m
    → JsMap.HasUniqueKeys (add_deny_rule lower declared rule (u, m)).1
HasUniqueKeys-add_deny_rule lower declared rule u m h =
    elim (Bool-cases (JsSet.has declared rule.relation)) [
      | inr undeclared ↦ rw undeclared h
      | inl known ↦ rw known (elim (Option-cases rule.actions) [
        | inl e ↦ rw e h
        | inr (actions, e) ↦ rw e (HasUniqueKeys-add_at_each lower rule.relation actions m h)
      ])
    ]

HasUniqueKeys-compile_deny_rules :
    (lower : String → String) (declared : JsSet) (rules : List DenyRule) (acc : JsSet × JsMap JsSet)
    → JsMap.HasUniqueKeys acc.1
    → JsMap.HasUniqueKeys (compile_deny_rules lower declared rules acc).1
unfolding compile_deny_rules
HasUniqueKeys-compile_deny_rules lower declared [] acc h = h
HasUniqueKeys-compile_deny_rules lower declared (rule ∷ rest) (u, m) h =
    HasUniqueKeys-compile_deny_rules lower declared rest _
      (HasUniqueKeys-add_deny_rule lower declared rule u m h)

get-with_unscoped :
    (u : JsSet) (rest m : JsMap JsSet) (k : String)
    → JsMap.HasUniqueKeys rest
    → JsMap.get (with_unscoped u rest m) k
      ≡ elim (JsMap.get rest k) [ none ↦ JsMap.get m k | some rs ↦ some (union (union [] u) rs) ]
unfolding with_unscoped JsMap.get
get-with_unscoped u [] m k h = refl
get-with_unscoped u ((j, rs) ∷ rest) m k h = ground (
  arith,
  get-with_unscoped u rest (JsMap.set m j (union (union [] u) rs)) k h.1,
  JsMap.get-set m j k (union (union [] u) rs),
  eq_iff j k,
)

module _ (lower : String → String) (model : PolicyModel) where
  -- An action is granted by the relations that the model declares as grants and that some mapping
  -- of the action's name, in lower case, lists; by no others.
  pub has-grant_relations_for :
      (k r : String)
      → JsSet.has (grant_relations_for (compile_policy_model lower model) k) r
        ≡ (declares model grant r && some_by (maps_to lower k r) model.actions)
  unfolding grant_relations_for compile_policy_model JsSet.has JsMap.get
  has-grant_relations_for k r = ground (
    arith,
    has-compile_actions lower (sort_relations model.relations no_kinds).grant_relations
        model.actions [] k r,
    has-sort_relations grant model.relations no_kinds r,
  )

  -- A traversal for an action goes through the relations that the model declares as memberships or
  -- containments and that some inheritance rule for the action goes through; through no others.
  pub has-traversal_relations_for :
      (k r : String)
      → JsSet.has (traversal_relations_for (compile_policy_model lower model) k) r ≡ (
          (declares model membership r || declares model containment r)
          && some_by (inherits_through lower k r) model.inheritance_rules)
  unfolding traversal_relations_for compile_policy_model JsSet.has JsMap.get
  has-traversal_relations_for k r = ground (
    arith,
    has-compile_inheritance lower (sort_relations model.relations no_kinds) model.inheritance_rules
        [] k r,
    has-sort_relations membership model.relations no_kinds r,
    has-sort_relations containment model.relations no_kinds r,
  )

has-deny_set :
    (u : JsSet) (scoped : JsMap JsSet) (k r : String)
    → JsMap.HasUniqueKeys scoped
    → JsSet.has (JsMap.get (with_unscoped u scoped []) k otherwise u) r
      ≡ (JsSet.has u r || JsSet.has (at_key scoped k) r)
unfolding JsSet.has JsMap.get
has-deny_set u scoped k r h = elim (Option-cases (JsMap.get scoped k)) [
  | inl e ↦ rw (get-with_unscoped u scoped [] k h, e) (ground arith)
  | inr (rs, e) ↦
      rw (get-with_unscoped u scoped [] k h, e)
        (ground (arith, has-union (union [] u) rs r, has-union [] u r))
]

-- A deny rule names the relation, and it is for every action or lists this key.
abbrev pub denies : (String → String) → String → String → DenyRule → Bool
denies lower k r rule =
    rule.relation == r
    && elim rule.actions [ none ↦ true | some actions ↦ lists_lower lower actions k ]

some_by-denies :
    (lower : String → String) (k r : String) (rules : List DenyRule)
    → some_by (denies lower k r) rules
      ≡ (some_by (denies_all r) rules || some_by (denies_key lower k r) rules)
some_by-denies lower k r [] = refl
some_by-denies lower k r (rule ∷ rest) = elim (Option-cases rule.actions) [
  | inl e ↦ rw e (ground (arith, some_by-denies lower k r rest))
  | inr (actions, e) ↦ rw e (ground (arith, some_by-denies lower k r rest))
]

module _ (lower : String → String) (model : PolicyModel) where
  -- An action is denied by the relations that the model declares as denials and that some deny rule
  -- names, for every action or for this one; by no others. A rule for one action does not hide the
  -- rules for every action.
  pub has-deny_relations_for :
      (k r : String)
      → JsSet.has (deny_relations_for (compile_policy_model lower model) k) r
        ≡ (declares model deny r && some_by (denies lower k r) model.deny_rules)
  unfolding deny_relations_for compile_policy_model JsSet.has JsMap.get
  has-deny_relations_for k r =
      let declared = (sort_relations model.relations no_kinds).deny_relations in
      let acc = compile_deny_rules lower declared model.deny_rules ([], []) in
      ground (
        arith,
        has-deny_set acc.0 acc.1 k r
            (HasUniqueKeys-compile_deny_rules lower declared model.deny_rules ([], []) tt),
        has-compile_deny_rules_unscoped lower declared model.deny_rules ([], []) r,
        has-compile_deny_rules_scoped lower declared model.deny_rules ([], []) k r,
        has-sort_relations deny model.relations no_kinds r,
        some_by-denies lower k r model.deny_rules,
      )
