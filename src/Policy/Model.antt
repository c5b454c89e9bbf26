-- ===== src/Policy/Model.antt =====
-- The policy model of packages/core/src/policy-model.ts, and what compilePolicyModel makes of it.
-- `toLowerCase` on action names is the argument `lower` of what uses it.
use access_kit.Prelude.{String, Bool, Option, List}
use access_kit.JsMap.{JsMap}
use access_kit.JsSet.{JsSet}
use access_kit.Domain.Json.{Json, JsonRecord, JsNumber}

pub data RelationKind : Type 0 where
  membership grant containment deny : RelationKind

pub data ContextType : Type 0 where
  string number boolean datetime : ContextType

pub data ConditionSource : Type 0 where
  subject resource relationship context environment : ConditionSource

pub data CaveatOperator : Type 0 where
  equals one_of less_than_or_equal greater_than_or_equal before after : CaveatOperator

pub record Relation : Type 0 where
  pub name : String
  pub kind : RelationKind
  pub subject_types : List String
  pub object_types : List String

pub record ActionMapping : Type 0 where
  pub name : String
  pub grants : List String

pub record InheritanceRule : Type 0 where
  pub name : String
  pub relation : String
  pub through : String
  pub actions : List String

pub record DenyRule : Type 0 where
  pub name : String
  pub relation : String
  pub actions : Option (List String)

pub record CaveatCondition : Type 0 where
  pub source : ConditionSource
  pub key : String
  pub type : ContextType
  pub operator : CaveatOperator
  pub value : Json

pub record Caveat : Type 0 where
  pub name : String
  pub fail_closed : Bool
  pub reason_code : String
  pub conditions : List CaveatCondition

pub record ConditionalRelationship : Type 0 where
  pub relation : String
  pub caveats : List String
  pub actions : Option (List String)

pub data TenantBoundarySource : Type 0 where
  subject resource context : TenantBoundarySource

pub record ModelResourceType : Type 0 where
  pub type : String
  pub allowed_parent_types : Option (List String)
  pub classifications : List String

pub record ContextConstraint : Type 0 where
  pub key : String
  pub type : ContextType
  pub required : Option Bool
  pub auditable : Option Bool
  pub min : Option JsNumber
  pub max : Option JsNumber
  pub max_length : Option JsNumber
  pub allowed_values : Option (List Json)

pub record ClassificationConstraint : Type 0 where
  pub classification : String
  pub allowed_actions : List String

pub record TenantBoundary : Type 0 where
  pub key : String
  pub source : TenantBoundarySource
  pub cross_tenant_traversal : Bool

pub record Migration : Type 0 where
  pub from_version : String
  pub to_version : String
  pub operations : List String

pub record ExplanationPolicy : Type 0 where
  pub deterministic : Bool
  pub include_context_keys : List String
  pub include_caveat_names : List String

pub record PolicyModel : Type 0 where
  pub schema_version : String
  pub id : String
  pub version : String
  pub resource_types : List ModelResourceType
  pub relations : List Relation
  pub actions : List ActionMapping
  pub inheritance_rules : List InheritanceRule
  pub deny_rules : List DenyRule
  pub context_constraints : List ContextConstraint
  pub classification_constraints : List ClassificationConstraint
  pub tenant_boundary : TenantBoundary
  pub migrations : List Migration
  pub caveats : Option (List Caveat)
  pub conditional_relationships : Option (List ConditionalRelationship)
  pub explanation : Option ExplanationPolicy
  pub metadata : Option JsonRecord

pub record CompiledPolicyModel : Type 0 where
  pub membership_relations : JsSet
  pub containment_relations : JsSet
  pub grant_relations_by_action : JsMap JsSet
  pub traversal_relations_by_action : JsMap JsSet
  pub deny_relations_by_action : JsMap JsSet
  pub unscoped_deny_relations : JsSet
