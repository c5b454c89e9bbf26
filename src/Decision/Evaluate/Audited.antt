-- ===== src/Decision/Evaluate/Audited.antt =====
-- What check and explain of packages/core/src/engine.ts leave in the audit log of the store.
use access_kit.Prelude.{
  String, Bool, Option, none, some, List, [], ◌∷◌, ◌++◌, ◌≡◌, refl, sym, ap, subst, ◌∙◌, inl, inr,
  Option-cases, append-nil, append_assoc,
}
use access_kit.Domain.{DecisionRequest}
use access_kit.Store.Graph.{Graph}
use access_kit.Audit.{AuditEvent, AuditStatus, record_event, verify_audit_chain}
use access_kit.Audit.Chain.{IsChain, record_event-IsChain, verify_audit_chain-IsChain}
use access_kit.Decision.Engine.{DecisionContext}
use access_kit.Decision.Results.{
  Platform, DecisionResult, result_with, cache_of, to_decision_result,
}
use access_kit.Decision.Evaluate.{
  NormalizedOptions, EngineState, Readings, decided_at, elapsed_report, event_type_of,
  correlation_id_of, decision_event, evaluate, record_result, record_decision, record_audit_event,
}

pub record Call : Type 0 where
  pub explain : Bool
  pub graph : Graph
  pub request : DecisionRequest
  pub readings : Readings

-- The event tells the decision, whom and what it is about, and by which versions.
abbrev pub Tells : DecisionResult → AuditEvent → Type 0
Tells result event =
    (event.event_type ≡ event_type_of result.decision)
    × (event.correlation_id ≡ correlation_id_of result)
    × (event.subject_id ≡ some result.subject_id)
    × (event.resource_id ≡ some result.resource_id)
    × (event.policy_version ≡ some result.policy_version)
    × (event.relationship_version ≡ some result.relationship_version)

-- One event for each result, in order.
abbrev pub TellsAll : List DecisionResult → List AuditEvent → Type 0
TellsAll [] [] = Unit
TellsAll [] (e ∷ es) = ⊥
TellsAll (r ∷ rs) [] = ⊥
TellsAll (r ∷ rs) (e ∷ es) = Tells r e × TellsAll rs es

abbrev answered : Option DecisionResult → List DecisionResult → List DecisionResult
answered none rest = rest
answered (some result) rest = result ∷ rest

module _ (platform : Platform) (c : NormalizedOptions) where
  -- Calls of check and explain one after the other, and the results of those that do not throw.
  unfoldable pub serve : List Call → EngineState → List DecisionResult × EngineState
  serve [] s = ([], s)
  serve (call ∷ calls) s =
      let (result, after) =
        evaluate platform c call.explain call.graph call.request call.readings s in
      let (results, last) = serve calls after in (answered result results, last)

  -- The recorder has the events of the store, and they are a chain.
  abbrev pub IsAudited : EngineState → Type 0
  IsAudited s =
      (s.recorded_events ≡ s.audit_events)
      × IsChain platform.printer platform.digest none s.audit_events

  -- A call leaves the log as it was and has no result, or has a result and adds an event that tells it.
  abbrev Noted : EngineState → Option DecisionResult → EngineState → Type 0
  Noted s none after = after.audit_events ≡ s.audit_events
  Noted s (some result) after =
      (event : AuditEvent) × (after.audit_events ≡ s.audit_events ++ event ∷ [])
      × Tells result event

  record_result-Noted :
      (readings : Readings) (explain : Bool) (context : DecisionContext) (result : DecisionResult)
      (s : EngineState)
      → Noted s (some result) (record_result platform c readings explain context result s)
  unfolding record_result record_decision record_audit_event record_event
  record_result-Noted readings explain context result s =
      (_, refl, (refl, refl, refl, refl, refl, refl))

  record_result-IsAudited :
      (readings : Readings) (explain : Bool) (context : DecisionContext) (result : DecisionResult)
      (s : EngineState)
      → IsAudited s
      → IsAudited (record_result platform c readings explain context result s)
  unfolding record_result record_decision record_audit_event record_event
  record_result-IsAudited readings explain context result s (same, chain) =
      let (event, recorded) =
        record_event platform.printer platform.digest s.recorded_events
          (decision_event platform c readings explain context result) readings.evaluated_at in
      (
        ap (λ events. events ++ event ∷ []) same,
        subst (λ events. IsChain platform.printer platform.digest none (events ++ event ∷ [])) same
            (record_event-IsChain platform.printer platform.digest s.recorded_events _ _
              (subst (IsChain platform.printer platform.digest none) (sym same) chain)),
      )

  module _ (call : Call) (s : EngineState) where
    abbrev outcome : Option DecisionResult × EngineState
    outcome = evaluate platform c call.explain call.graph call.request call.readings s

    abbrev context : DecisionContext
    context = (decided_at platform c call.graph call.request call.readings s.scopes).0

    evaluate-Noted : IsAudited s → Noted s outcome.0 outcome.1 × IsAudited outcome.1
    unfolding evaluate to_decision_result
    evaluate-Noted h = elim (Option-cases (cache_of platform context)) [
      | inl e ↦ rw (e, evaluate, to_decision_result) (refl, h)
      | inr (cache, e) ↦
          let result =
            result_with platform context call.explain
              (elapsed_report platform c call.readings context) cache in
          let after = record s {
            scopes = (decided_at platform c call.graph call.request call.readings s.scopes).1;
          } in
          rw (e, evaluate, to_decision_result)
            (
              record_result-Noted call.readings call.explain context result after,
              record_result-IsAudited call.readings call.explain context result after h,
            )
    ]

  abbrev Added : List DecisionResult → EngineState → EngineState → Type 0
  Added results s last =
      (added : List AuditEvent) × (last.audit_events ≡ s.audit_events ++ added)
      × TellsAll results added

  Noted-Added :
      (s after last : EngineState) (result : Option DecisionResult) (results : List DecisionResult)
      → Noted s result after
      → Added results after last
      → Added (answered result results) s last
  Noted-Added s after last none results noted (added, log, told) =
      (added, log ∙ ap (λ events. events ++ added) noted, told)
  Noted-Added s after last (some result) results (event, noted, tells) (added, log, told) = (
    event ∷ added,
    log ∙ ap (λ events. events ++ added) noted ∙ append_assoc s.audit_events (event ∷ []) added,
    (tells, told),
  )

  serve-Added :
      (calls : List Call) (s : EngineState)
      → IsAudited s
      → Added (serve calls s).0 s (serve calls s).1 × IsAudited (serve calls s).1
  unfolding serve
  serve-Added [] s h = (([], sym (append-nil s.audit_events), tt), h)
  serve-Added (call ∷ calls) s h =
      let (noted, after) = evaluate-Noted call s h in
      let (added, last) = serve-Added calls (outcome call s).1 after in
      (
        Noted-Added s (outcome call s).1 (serve calls (outcome call s).1).1 (outcome call s).0 _
            noted added,
        last,
      )

  -- From a log that verifies and that the recorder starts with, any calls of check and explain, over
  -- any graphs, keep what was in the log, add one event for each result, in order, that tells it, and
  -- leave a log that verifies.
  pub serve-IsAudited :
      (calls : List Call) (s : EngineState) (at : String)
      → s.recorded_events ≡ s.audit_events
      → (verify_audit_chain platform.printer platform.digest s.audit_events at).status
        ≡ AuditStatus.verified
      → (added : List AuditEvent) × ((serve calls s).1.audit_events ≡ s.audit_events ++ added)
        × TellsAll (serve calls s).0 added
        × ((verify_audit_chain platform.printer platform.digest
              (serve calls s).1.audit_events
              at).status
            ≡ AuditStatus.verified)
  serve-IsAudited calls s at same verified =
      let chain =
        (verify_audit_chain-IsChain platform.printer platform.digest s.audit_events at).0
          verified in
      let (added, last) = serve-Added calls s (same, chain) in
      (
        added.0,
        added.1,
        added.2,
        (verify_audit_chain-IsChain platform.printer platform.digest (serve calls s).1.audit_events
              at).1
            last.1,
      )
