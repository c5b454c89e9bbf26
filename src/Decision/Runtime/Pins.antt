-- ===== src/Decision/Runtime/Pins.antt =====
-- Version pins in packages/core/src/decision-runtime.ts. `sha256` is the hexadecimal digest of a
-- record's stable JSON text (packages/core/src/audit.ts over node:crypto).
use Prim.Native.String.{slice, ◌++◌}
use access_kit.Prelude.{String, Option, none, some, ◌otherwise◌, or_else}
use access_kit.Domain.{DecisionRequest, IsoDateTime}
use access_kit.Domain.Json.{JsonRecord, end, field}

pub record VersionPins : Type 0 where
  pub policy_version : String
  pub model_version : String
  pub relationship_version : String
  pub tuple_version : String
  pub context_version : String
  pub as_of : IsoDateTime

pub record VersionDefaults : Type 0 where
  pub policy_version : String
  pub model_version : String
  pub relationship_version : String
  pub tuple_version : String
  pub context_version : Option String

unfoldable pub derive_context_version : (JsonRecord → String) → Option JsonRecord → String
derive_context_version sha256 none = "context:none"
derive_context_version sha256 (some end) = "context:none"
derive_context_version sha256 (some (field k v r)) = "context:" ++ slice (sha256 (field k v r)) 0 16

unfoldable pub normalize_version_pins :
    (JsonRecord → String) → DecisionRequest → VersionDefaults → IsoDateTime → VersionPins
normalize_version_pins sha256 request defaults evaluated_at = record {
  policy_version = request.policy_version otherwise defaults.policy_version;
  model_version = request.model_version otherwise defaults.model_version;
  relationship_version = request.relationship_version otherwise defaults.relationship_version;
  tuple_version = request.tuple_version otherwise defaults.tuple_version;
  context_version =
      or_else request.context_version defaults.context_version
      otherwise derive_context_version sha256 request.context;
  as_of = request.as_of otherwise evaluated_at;
}
