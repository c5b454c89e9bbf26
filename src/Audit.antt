-- ===== src/Audit.antt =====
-- packages/core/src/audit.ts: AuditRecorder and verifyAuditChain, with the events of
-- packages/core/src/domain/evidence.ts. `digest` is the SHA-256 of node:crypto, in hexadecimal.
pub mod Text
pub mod Chain
pub mod Examples
use Prim.Native.String.{slice}
use access_kit.Prelude.{
  ℕ, String, Bool, true, false, not, Option, none, some, List, [], ◌∷◌, ◌++◌, ◌==◌, length,
  if◌then◌else◌, ◌otherwise◌,
}
use access_kit.Domain.{CanonicalId, IsoDateTime}
use access_kit.Domain.Json.{JsonRecord, end, field, Json, undefined, text, obj}
use access_kit.Audit.Text.{Printer, stable_stringify, prefixed}

pub record AuditEventInput : Type 0 where
  pub event_type : String
  pub actor : CanonicalId
  pub subject_id : Option CanonicalId
  pub resource_id : Option CanonicalId
  pub correlation_id : CanonicalId
  pub policy_version : Option String
  pub relationship_version : Option String
  pub payload : JsonRecord

pub record AuditEvent : Type 0 where
  pub event_id : CanonicalId
  pub event_type : String
  pub occurred_at : IsoDateTime
  pub actor : CanonicalId
  pub subject_id : Option CanonicalId
  pub resource_id : Option CanonicalId
  pub correlation_id : CanonicalId
  pub policy_version : Option String
  pub relationship_version : Option String
  pub payload_hash : String
  pub previous_event_hash : Option String
  pub payload : JsonRecord

abbrev maybe_text : Option String → Json
maybe_text none = undefined
maybe_text (some s) = text s

-- `{ ...input, occurredAt, previousEventHash }`.
unfoldable pub input_record : AuditEventInput → IsoDateTime → Option String → JsonRecord
input_record i occurred_at previous_event_hash = field "eventType" (text i.event_type) (
    field "actor" (text i.actor) (
      field "subjectId" (maybe_text i.subject_id) (
        field "resourceId" (maybe_text i.resource_id) (
          field "correlationId" (text i.correlation_id) (
            field "policyVersion" (maybe_text i.policy_version) (
              field "relationshipVersion" (maybe_text i.relationship_version) (
                field "payload" (obj i.payload) (
                  field "occurredAt" (text occurred_at)
                    (field "previousEventHash" (maybe_text previous_event_hash) end)))))))))

unfoldable pub event_record : AuditEvent → JsonRecord
event_record e = field "eventId" (text e.event_id) (
    field "eventType" (text e.event_type) (
      field "occurredAt" (text e.occurred_at) (
        field "actor" (text e.actor) (
          field "subjectId" (maybe_text e.subject_id) (
            field "resourceId" (maybe_text e.resource_id) (
              field "correlationId" (text e.correlation_id) (
                field "policyVersion" (maybe_text e.policy_version) (
                  field "relationshipVersion" (maybe_text e.relationship_version) (
                    field "payloadHash" (text e.payload_hash) (
                      field "previousEventHash" (maybe_text e.previous_event_hash)
                        (field "payload" (obj e.payload) end)))))))))))

-- `events.at(-1)` and `events.at(0)`.
unfoldable pub last_event : List AuditEvent → Option AuditEvent
last_event [] = none
last_event (e ∷ []) = some e
last_event (e ∷ f ∷ rest) = last_event (f ∷ rest)

abbrev first_event : List AuditEvent → Option AuditEvent
first_event [] = none
first_event (e ∷ rest) = some e

pub data AuditFindingCode : Type 0 where
  payload_hash_mismatch previous_event_hash_mismatch : AuditFindingCode

-- AuditIntegrityFinding; the message and the severity go with the code.
pub record AuditFinding : Type 0 where
  pub code : AuditFindingCode
  pub event_id : CanonicalId
  pub expected : String
  pub actual : String

pub data AuditStatus : Type 0 where
  verified failed : AuditStatus

pub record AuditReport : Type 0 where
  pub status : AuditStatus
  pub event_count : ℕ
  pub verified_at : IsoDateTime
  pub first_event_id : Option CanonicalId
  pub last_event_id : Option CanonicalId
  pub first_event_hash : Option String
  pub last_event_hash : Option String
  pub findings : List AuditFinding

-- `a !== b` on optional texts.
abbrev pub texts_differ : Option String → Option String → Bool
texts_differ none none = false
texts_differ none (some b) = true
texts_differ (some a) none = true
texts_differ (some a) (some b) = not (a == b)

abbrev pub map_option : {A B : Type 0} → (A → B) → Option A → Option B
map_option f none = none
map_option f (some a) = some (f a)

abbrev pub status_of : List AuditFinding → AuditStatus
status_of [] = verified
status_of (f ∷ fs) = failed

module _ (p : Printer) (digest : String → String) where
  unfoldable pub sha256 : JsonRecord → String
  sha256 r = digest (stable_stringify p (obj r))

  unfoldable pub hash_reference : JsonRecord → String
  unfolding sha256
  hash_reference r = prefixed "sha256:" (sha256 r)

  unfoldable pub audit_event_hash : AuditEvent → String
  unfolding hash_reference
  audit_event_hash e = hash_reference (event_record e)

  unfoldable pub audit_payload_hash : JsonRecord → String
  unfolding hash_reference
  audit_payload_hash payload = hash_reference payload

  -- AuditRecorder.record: the event, and the recorder's events after it.
  unfoldable pub record_event :
      List AuditEvent → AuditEventInput → IsoDateTime → AuditEvent × List AuditEvent
  record_event events i occurred_at =
      let previous_event_hash = map_option audit_event_hash (last_event events) in
      let event : AuditEvent = record {
        event_id =
            prefixed "evt:" (slice (sha256 (input_record i occurred_at previous_event_hash)) 0 24);
        event_type = i.event_type;
        occurred_at = occurred_at;
        actor = i.actor;
        subject_id = i.subject_id;
        resource_id = i.resource_id;
        correlation_id = i.correlation_id;
        policy_version = i.policy_version;
        relationship_version = i.relationship_version;
        payload_hash = hash_reference i.payload;
        previous_event_hash = previous_event_hash;
        payload = i.payload;
      } in
      (event, events ++ event ∷ [])

  abbrev pub payload_finding : AuditEvent → List AuditFinding → List AuditFinding
  payload_finding e rest =
      let expected = audit_payload_hash e.payload in
      if e.payload_hash == expected
      then rest
      else record {
        code = payload_hash_mismatch;
        event_id = e.event_id;
        expected = expected;
        actual = e.payload_hash;
      }
        ∷ rest

  abbrev pub link_finding : Option AuditEvent → AuditEvent → List AuditFinding → List AuditFinding
  link_finding previous e rest =
      let expected = map_option audit_event_hash previous in
      if texts_differ e.previous_event_hash expected
      then record {
        code = previous_event_hash_mismatch;
        event_id = e.event_id;
        expected = expected otherwise "<none>";
        actual = e.previous_event_hash otherwise "<none>";
      }
        ∷ rest
      else rest

  -- The loop of verifyAuditChain, with the event before.
  unfoldable pub chain_findings : Option AuditEvent → List AuditEvent → List AuditFinding
  chain_findings previous [] = []
  chain_findings previous (e ∷ rest) =
      payload_finding e (link_finding previous e (chain_findings (some e) rest))

  unfoldable pub verify_audit_chain : List AuditEvent → IsoDateTime → AuditReport
  unfolding chain_findings
  verify_audit_chain events verified_at =
      let findings = chain_findings none events in
      record {
        status = status_of findings;
        event_count = length events;
        verified_at = verified_at;
        first_event_id = map_option (λ e. e.event_id) (first_event events);
        last_event_id = map_option (λ e. e.event_id) (last_event events);
        first_event_hash = map_option audit_event_hash (first_event events);
        last_event_hash = map_option audit_event_hash (last_event events);
        findings = findings;
      }
