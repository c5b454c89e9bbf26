-- ===== src/Decision/Runtime/CacheMetadata.antt =====
-- createDecisionCacheMetadata, the latency targets and the bounds of an engine, in
-- packages/core/src/decision-runtime.ts. `lower` is toLowerCase, `trim` is trim, and `sha256` the digest
-- of a record's stable JSON text. The fields of the metadata that are the same for every input are left
-- out. A number that a caller gives is a whole number from 0 on, or some other.
use Prim.Native.String.{slice, ◌++◌}
use access_kit.Prelude.{
  ℕ, ◌+◌, ◌*◌, String, Bool, ◌||◌, Option, none, some, List, [], ◌∷◌, if◌then◌else◌, ◌otherwise◌,
  ◌==◌, leb, ltb,
}
use access_kit.Domain.{DecisionRequest, IsoDateTime}
use access_kit.Domain.Json.{JsonRecord, end, field, text}
use access_kit.Domain.Dates.{Dates}
use access_kit.Decision.Runtime.Guard.{GraphSize, TraversalBounds}
use access_kit.Decision.Runtime.Pins.{VersionPins}

pub data NumberArgument : Type 0 where
  whole : ℕ → NumberArgument
  other_number : NumberArgument

pub record PartialBounds : Type 0 where
  pub max_depth : Option NumberArgument
  pub max_relationship_scans : Option NumberArgument
  pub max_visited_nodes : Option NumberArgument

unfoldable pub positive_integer_or_default : Option NumberArgument → ℕ → ℕ
positive_integer_or_default none fallback = fallback
positive_integer_or_default (some other_number) fallback = fallback
positive_integer_or_default (some (whole n)) fallback = if ltb 0 n then n else fallback

abbrev pub no_bounds : PartialBounds
no_bounds = record { max_depth = none; max_relationship_scans = none; max_visited_nodes = none }

unfoldable pub merge_traversal_bounds : TraversalBounds → Option PartialBounds → TraversalBounds
unfolding positive_integer_or_default
merge_traversal_bounds defaults overrides =
    let given = overrides otherwise no_bounds in
    record {
      max_depth = positive_integer_or_default given.max_depth defaults.max_depth;
      max_relationship_scans =
          positive_integer_or_default given.max_relationship_scans defaults.max_relationship_scans;
      max_visited_nodes =
          positive_integer_or_default given.max_visited_nodes defaults.max_visited_nodes;
    }

pub record LatencyTargets : Type 0 where
  pub target_ms : ℕ
  pub regression_gate_ms : ℕ

pub record GraphFixture : Type 0 where
  pub min_subjects : ℕ
  pub min_resources : ℕ
  pub min_relationships : ℕ
  pub latency_targets : LatencyTargets

abbrev pub small_fixture : GraphFixture
small_fixture = record {
  min_subjects = 10;
  min_resources = 10;
  min_relationships = 50;
  latency_targets = record { target_ms = 25; regression_gate_ms = 100 };
}

abbrev pub medium_fixture : GraphFixture
medium_fixture = record {
  min_subjects = 100;
  min_resources = 100;
  min_relationships = 1000;
  latency_targets = record { target_ms = 75; regression_gate_ms = 250 };
}

abbrev pub large_fixture : GraphFixture
large_fixture = record {
  min_subjects = 500;
  min_resources = 500;
  min_relationships = 5000;
  latency_targets = record { target_ms = 150; regression_gate_ms = 750 };
}

abbrev reaches : GraphSize → GraphFixture → Bool
reaches size f =
    leb f.min_subjects size.subjects
    || (leb f.min_resources size.resources || leb f.min_relationships size.relationships)

unfoldable pub latency_targets_for_graph_size : GraphSize → LatencyTargets
latency_targets_for_graph_size size =
    if reaches size large_fixture
    then large_fixture.latency_targets
    else if reaches size medium_fixture
    then medium_fixture.latency_targets
    else small_fixture.latency_targets

-- `DECISION_CACHE_TTL_BY_CLASSIFICATION[classification] ?? 30`: `none` where it is a member of
-- Object.prototype and not a number. Of those only two have no capital letter.
unfoldable pub cache_ttl : String → Option ℕ
cache_ttl c =
    if c == "public"
    then some 300
    else if c == "internal"
    then some 120
    else if c == "confidential"
    then some 60
    else if c == "controlled"
    then some 30
    else if c == "restricted"
    then some 30
    else if c == "secret"
    then some 15
    else if c == "constructor"
    then none
    else if c == "__proto__"
    then none
    else some 30

-- A time to live that is `none` is not a number.
pub record CacheMetadata : Type 0 where
  pub key : String
  pub tenant_id : String
  pub resource_classification : String
  pub max_ttl_seconds : Option ℕ
  pub expires_at : IsoDateTime
  pub invalidation_signals : List String

-- The last instant of JavaScript, counted from the first.
abbrev pub last_instant : ℕ
last_instant = 17280000000000000

module _ (dates : Dates) (lower trim : String → String) (sha256 : JsonRecord → String) where
  -- `classification?.trim().toLowerCase() || "unknown"`.
  unfoldable pub normalize_classification : Option String → String
  normalize_classification none = "unknown"
  normalize_classification (some c) =
      let short = lower (trim c) in if short == "" then "unknown" else short

  -- `none` where it throws.
  unfoldable pub add_seconds : IsoDateTime → Option ℕ → Option IsoDateTime
  add_seconds at seconds = elim (dates.parse at) [
    | none ↦ some at
    | some ms ↦ elim seconds [
      | none ↦ none
      | some n ↦
          let after = ms + n * 1000 in
          if leb after last_instant then some (dates.to_iso_string after) else none
    ]
  ]

  abbrev signals : DecisionRequest → VersionPins → String → String → List String
  signals request pins tenant_id classification =
      ("tenant:" ++ tenant_id)
      ∷ ("subject:" ++ request.subject_id)
      ∷ ("resource:" ++ request.resource_id)
      ∷ ("action:" ++ request.action)
      ∷ ("policy:" ++ pins.policy_version)
      ∷ ("model:" ++ pins.model_version)
      ∷ ("relationship-set:" ++ pins.relationship_version)
      ∷ ("tuple:" ++ pins.tuple_version)
      ∷ ("context:" ++ pins.context_version)
      ∷ ("classification:" ++ classification)
      ∷ []

  abbrev key_record : DecisionRequest → VersionPins → String → JsonRecord
  key_record request pins tenant_id = field "tenantId" (text tenant_id) (
      field "subjectId" (text request.subject_id) (
        field "action" (text request.action) (
          field "resourceId" (text request.resource_id) (
            field "policyVersion" (text pins.policy_version) (
              field "modelVersion" (text pins.model_version) (
                field "relationshipVersion" (text pins.relationship_version) (
                  field "tupleVersion" (text pins.tuple_version) (
                    field "contextVersion" (text pins.context_version)
                      (field "asOf" (text pins.as_of) end)))))))))

  abbrev pub metadata :
      DecisionRequest → VersionPins → String → String → Option ℕ → IsoDateTime → CacheMetadata
  metadata request pins tenant_id classification ttl expires_at = record {
    key = "decision-cache:" ++ slice (sha256 (key_record request pins tenant_id)) 0 32;
    tenant_id = tenant_id;
    resource_classification = classification;
    max_ttl_seconds = ttl;
    expires_at = expires_at;
    invalidation_signals = signals request pins tenant_id classification;
  }

  -- `none` where it throws.
  unfoldable pub create_cache_metadata :
      DecisionRequest
      → VersionPins
      → IsoDateTime
      → Option String
      → Option String
      → Option CacheMetadata
  unfolding cache_ttl normalize_classification add_seconds
  create_cache_metadata request pins evaluated_at tenant classification =
      let tenant_id = tenant otherwise "tenant:unknown" in
      let name = normalize_classification classification in
      elim (add_seconds evaluated_at (cache_ttl name)) [
        | none ↦ none
        | some expires_at ↦ some (metadata request pins tenant_id name (cache_ttl name) expires_at)
      ]
