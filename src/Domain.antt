-- ===== src/Domain.antt =====
-- packages/core/src/domain/shared.ts: the entities of the relationship graph and the request.
-- Texts that name kinds which no decision reads (`type`, `sourceSystem`, …) stay texts.
pub mod Json
pub mod Encoding
pub mod Dates
use access_kit.Prelude.{String, Bool, true, false, Option}
use Json.{JsonRecord}

abbrev pub CanonicalId : Type 0
CanonicalId = String

abbrev pub IsoDateTime : Type 0
IsoDateTime = String

pub data LifecycleState : Type 0 where
  active inactive suspended terminated deleted : LifecycleState

pub data TupleStatus : Type 0 where
  active expired deleted : TupleStatus

pub data DecisionValue : Type 0 where
  allow deny : DecisionValue

pub record Subject : Type 0 where
  pub id : CanonicalId
  pub version : String
  pub created_at : IsoDateTime
  pub updated_at : Option IsoDateTime
  pub type : String
  pub display_name : String
  pub source_system : String
  pub lifecycle_state : LifecycleState
  pub identifiers : JsonRecord
  pub attributes : Option JsonRecord
  pub last_seen_at : Option IsoDateTime

pub record Resource : Type 0 where
  pub id : CanonicalId
  pub version : String
  pub created_at : IsoDateTime
  pub updated_at : Option IsoDateTime
  pub type : String
  pub display_name : String
  pub source_system : String
  pub owner_id : CanonicalId
  pub data_steward_id : CanonicalId
  pub technical_owner_id : CanonicalId
  pub classification : String
  pub lifecycle_state : LifecycleState
  pub parent_id : Option CanonicalId
  pub attributes : Option JsonRecord
  pub last_seen_at : Option IsoDateTime

pub record RelationshipTuple : Type 0 where
  pub id : CanonicalId
  pub version : String
  pub created_at : IsoDateTime
  pub updated_at : Option IsoDateTime
  pub subject_id : CanonicalId
  pub relation : String
  pub object_id : CanonicalId
  pub source_system : String
  pub asserted_at : IsoDateTime
  pub asserted_by : Option CanonicalId
  pub expires_at : Option IsoDateTime
  pub status : TupleStatus
  pub attributes : Option JsonRecord

pub record DecisionRequest : Type 0 where
  pub subject_id : CanonicalId
  pub action : String
  pub resource_id : CanonicalId
  pub context : Option JsonRecord
  pub policy_version : Option String
  pub model_version : Option String
  pub relationship_version : Option String
  pub tuple_version : Option String
  pub context_version : Option String
  pub as_of : Option IsoDateTime

pub record RelationshipPathStep : Type 0 where
  pub subject_id : CanonicalId
  pub relation : String
  pub object_id : CanonicalId

-- `state === "active"`.
abbrev pub is_active_state : LifecycleState → Bool
is_active_state LifecycleState.active = true
is_active_state LifecycleState.inactive = false
is_active_state LifecycleState.suspended = false
is_active_state LifecycleState.terminated = false
is_active_state LifecycleState.deleted = false

abbrev pub lifecycle_text : LifecycleState → String
lifecycle_text LifecycleState.active = "active"
lifecycle_text LifecycleState.inactive = "inactive"
lifecycle_text LifecycleState.suspended = "suspended"
lifecycle_text LifecycleState.terminated = "terminated"
lifecycle_text LifecycleState.deleted = "deleted"

abbrev pub tuple_status_text : TupleStatus → String
tuple_status_text TupleStatus.active = "active"
tuple_status_text TupleStatus.expired = "expired"
tuple_status_text TupleStatus.deleted = "deleted"
