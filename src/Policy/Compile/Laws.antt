-- ===== src/Policy/Compile/Laws.antt =====
-- What the compiled sets hold, read off the model's lists.
use access_kit.Prelude.{
  String, Bool, true, false, ◌&&◌, ◌||◌, none, some, List, [], ◌∷◌, ◌≡◌, ◌∙◌, if◌then◌else◌, ◌==◌,
  eq_iff, some_by, arith, Option-cases, inl, inr,
}
use access_kit.JsMap
use access_kit.JsMap.{JsMap}
use access_kit.JsSet
use access_kit.JsSet.{JsSet}
use access_kit.Policy.Model.{ActionMapping, InheritanceRule, DenyRule}
use access_kit.Policy.Compile.{
  Kinds, at_key, add_at, add_at_each, add_grants, compile_actions, compile_inheritance,
  compile_deny_rules, add_deny_rule, union,
}

-- A name is in a list.
abbrev pub lists : List String → String → Bool
lists names r = some_by (λ n. n == r) names

-- An action's name is in a list, in lower case.
abbrev pub lists_lower : (String → String) → List String → String → Bool
lists_lower lower actions k = some_by (λ a. lower a == k) actions

has-at_key-add_at :
    (m : JsMap JsSet) (k k' r r' : String)
    → JsSet.has (at_key (add_at m k r) k') r' ≡ (JsSet.has (at_key m k') r' || (k == k' && r == r'))
unfolding add_at
has-at_key-add_at m k k' r r' = ground (
  arith,
  JsMap.get-set m k k' (JsSet.add (at_key m k) r),
  JsSet.has-add (at_key m k) r r',
  eq_iff k k',
  eq_iff r r',
)

has-add_at_each :
    (lower : String → String) (r : String) (actions : List String) (m : JsMap JsSet) (k r' : String)
    → JsSet.has (at_key (add_at_each lower r actions m) k) r'
      ≡ (JsSet.has (at_key m k) r' || (r == r' && lists_lower lower actions k))
unfolding add_at_each
has-add_at_each lower r [] m k r' = ground arith
has-add_at_each lower r (a ∷ rest) m k r' = ground (
  arith,
  has-add_at_each lower r rest (add_at m (lower a) r) k r',
  has-at_key-add_at m (lower a) k r r',
)

has-add_grants :
    (declared : JsSet) (gs : List String) (grants : JsSet) (r : String)
    → JsSet.has (add_grants declared gs grants) r
      ≡ (JsSet.has grants r || (JsSet.has declared r && lists gs r))
unfolding add_grants
has-add_grants declared [] grants r = ground arith
has-add_grants declared (g ∷ gs) grants r = ground (
  arith,
  has-add_grants declared gs (if JsSet.has declared g then JsSet.add grants g else grants) r,
  JsSet.has-add grants g r,
  eq_iff g r,
)

-- An action mapping for this key names the relation.
abbrev pub maps_to : (String → String) → String → String → ActionMapping → Bool
maps_to lower k r a = lower a.name == k && lists a.grants r

pub has-compile_actions :
    (lower : String → String) (declared : JsSet) (as_left : List ActionMapping) (m : JsMap JsSet)
    (k r : String)
    → JsSet.has (at_key (compile_actions lower declared as_left m) k) r
      ≡ (JsSet.has (at_key m k) r || (JsSet.has declared r && some_by (maps_to lower k r) as_left))
unfolding compile_actions
has-compile_actions lower declared [] m k r = ground arith
has-compile_actions lower declared (a ∷ rest) m k r = ground (
  arith,
  has-compile_actions lower declared rest
      (JsMap.set m (lower a.name) (add_grants declared a.grants (at_key m (lower a.name)))) k r,
  JsMap.get-set m (lower a.name) k (add_grants declared a.grants (at_key m (lower a.name))),
  has-add_grants declared a.grants (at_key m (lower a.name)) r,
  eq_iff (lower a.name) k,
)

-- An inheritance rule for this key goes through the relation.
abbrev pub inherits_through : (String → String) → String → String → InheritanceRule → Bool
inherits_through lower k r rule = rule.through == r && lists_lower lower rule.actions k

pub has-compile_inheritance :
    (lower : String → String) (ks : Kinds) (rules : List InheritanceRule) (m : JsMap JsSet)
    (k r : String)
    → JsSet.has (at_key (compile_inheritance lower ks rules m) k) r ≡ (
        JsSet.has (at_key m k) r
        || ((JsSet.has ks.membership_relations r || JsSet.has ks.containment_relations r)
            && some_by (inherits_through lower k r) rules))
unfolding compile_inheritance
has-compile_inheritance lower ks [] m k r = ground arith
has-compile_inheritance lower ks (rule ∷ rest) m k r = ground (
  arith,
  has-compile_inheritance lower ks rest
      (if JsSet.has ks.membership_relations rule.through
          || JsSet.has ks.containment_relations rule.through
        then add_at_each lower rule.through rule.actions m
        else m)
      k r,
  has-add_at_each lower rule.through rule.actions m k r,
  eq_iff rule.through r,
)

-- A deny rule names the relation, for every action or for this key.
abbrev pub denies_all : String → DenyRule → Bool
denies_all r rule = rule.relation == r && elim rule.actions [ none ↦ true | some actions ↦ false ]

abbrev pub denies_key : (String → String) → String → String → DenyRule → Bool
denies_key lower k r rule =
    rule.relation == r
    && elim rule.actions [ none ↦ false | some actions ↦ lists_lower lower actions k ]

has-add_deny_rule_unscoped :
    (lower : String → String) (declared : JsSet) (rule : DenyRule) (u : JsSet) (m : JsMap JsSet)
    (r : String)
    → JsSet.has (add_deny_rule lower declared rule (u, m)).0 r
      ≡ (JsSet.has u r || (JsSet.has declared r && denies_all r rule))
has-add_deny_rule_unscoped lower declared rule u m r =
    ground (arith, JsSet.has-add u rule.relation r, eq_iff rule.relation r)

has-add_deny_rule_scoped :
    (lower : String → String) (declared : JsSet) (rule : DenyRule) (u : JsSet) (m : JsMap JsSet)
    (k r : String)
    → JsSet.has (at_key (add_deny_rule lower declared rule (u, m)).1 k) r
      ≡ (JsSet.has (at_key m k) r || (JsSet.has declared r && denies_key lower k r rule))
has-add_deny_rule_scoped lower declared rule u m k r = elim (Option-cases rule.actions) [
  | inl e ↦ rw e (ground arith)
  | inr (actions, e) ↦
      rw e
        (ground (arith, has-add_at_each lower rule.relation actions m k r, eq_iff rule.relation r))
]

pub has-compile_deny_rules_unscoped :
    (lower : String → String) (declared : JsSet) (rules : List DenyRule) (acc : JsSet × JsMap JsSet)
    (r : String)
    → JsSet.has (compile_deny_rules lower declared rules acc).0 r
      ≡ (JsSet.has acc.0 r || (JsSet.has declared r && some_by (denies_all r) rules))
unfolding compile_deny_rules
has-compile_deny_rules_unscoped lower declared [] acc r = ground arith
has-compile_deny_rules_unscoped lower declared (rule ∷ rest) (u, m) r =
    has-compile_deny_rules_unscoped lower declared rest (add_deny_rule lower declared rule (u, m)) r
    ∙ rw (has-add_deny_rule_unscoped lower declared rule u m r) (ground arith)

pub has-compile_deny_rules_scoped :
    (lower : String → String) (declared : JsSet) (rules : List DenyRule) (acc : JsSet × JsMap JsSet)
    (k r : String)
    → JsSet.has (at_key (compile_deny_rules lower declared rules acc).1 k) r ≡ (
        JsSet.has (at_key acc.1 k) r
        || (JsSet.has declared r && some_by (denies_key lower k r) rules))
unfolding compile_deny_rules
has-compile_deny_rules_scoped lower declared [] acc k r = ground arith
has-compile_deny_rules_scoped lower declared (rule ∷ rest) (u, m) k r =
    has-compile_deny_rules_scoped lower declared rest (add_deny_rule lower declared rule (u, m)) k r
    ∙ rw (has-add_deny_rule_scoped lower declared rule u m k r) (ground arith)

pub has-union :
    (s : JsSet) (ks : List String) (r : String)
    → JsSet.has (union s ks) r ≡ (JsSet.has s r || JsSet.has ks r)
unfolding union JsSet.has
has-union s [] r = ground arith
has-union s (k ∷ ks) r = ground (arith, has-union (JsSet.add s k) ks r, JsSet.has-add s k r)
