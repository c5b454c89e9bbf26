-- ===== src/Audit/Examples.antt =====
-- A short audit chain, and the theorems at it.
use access_kit.Prelude.{
  ◌∷◌, ◌==◌, ◌≢◌, inl, inr, sym, ap, ◌∙◌, eq_iff, String, some, none, List, [], ◌≡◌, refl, false,
}
use access_kit.Domain.Json.{end, field, text}
use access_kit.Audit.Text.{
  Printer, stable_stringify, stringify_items, stringify_fields, join, insert, sort, entries,
}
use access_kit.Audit.{
  hash_reference, sha256, event_record, input_record, last_event, AuditEvent, AuditEventInput,
  verified, audit_event_hash, record_event, verify_audit_chain,
}
use access_kit.Audit.Chain.{
  IsChain, Recorded, nothing_recorded, one_more, NoCollision, verify_audit_chain-IsChain,
  Recorded-verified, verify_audit_chain-tamper,
}

abbrev printer : Printer
printer = record { text_of = λ s. s; number_of = λ n. "0"; comes_before = λ s t. false }

abbrev digest : String → String
digest = λ s. s

abbrev allowed : AuditEventInput
allowed = record {
  event_type = "decision.allowed";
  actor = "service:decision-engine";
  subject_id = some "alice";
  resource_id = some "plan";
  correlation_id = "corr:1";
  policy_version = some "p1";
  relationship_version = none;
  payload = field "decision" (text "allow") end;
}

abbrev events : List AuditEvent
events = (record_event printer digest (record_event printer digest [] allowed "1").1 allowed "2").1

events-Recorded : Recorded printer digest events
events-Recorded = one_more allowed "2" (one_more allowed "1" nothing_recorded)

Recorded-verified_example : (verify_audit_chain printer digest events "3").status ≡ verified
Recorded-verified_example = Recorded-verified printer digest events "3" events-Recorded

events_verified : (verify_audit_chain printer digest events "3").status ≡ verified
events_verified = Recorded-verified printer digest events "3" events-Recorded

verify_audit_chain-IsChain_example :
    ((verify_audit_chain printer digest events "3").status ≡ verified
      → IsChain printer digest none events)
    × (IsChain printer digest none events
        → (verify_audit_chain printer digest events "3").status ≡ verified)
verify_audit_chain-IsChain_example = verify_audit_chain-IsChain printer digest events "3"

-- The same log with another decision in the place of the first, recorded anew.
abbrev forged : List AuditEvent
forged =
    (record_event printer digest
      (record_event printer digest [] (record allowed { event_type = "decision.denied" }) "1").1
      allowed "2").1

forged-Recorded : Recorded printer digest forged
forged-Recorded = one_more allowed "2" (one_more _ "1" nothing_recorded)

forged_verified : (verify_audit_chain printer digest forged "3").status ≡ verified
forged_verified = Recorded-verified printer digest forged "3" forged-Recorded

abbrev hash : AuditEvent → String
hash = audit_event_hash printer digest

abbrev at_one : AuditEventInput → AuditEvent
at_one i = (record_event printer digest [] i "1").0

abbrev denied : AuditEventInput
denied = record allowed { event_type = "decision.denied" }

abbrev after_one : AuditEventInput → AuditEvent
after_one i = (record_event printer digest (record_event printer digest [] i "1").1 allowed "2").0

hashes_apart :
    ((hash (at_one allowed) == hash (at_one denied)) ≡ false)
    × ((hash (at_one allowed) == hash (after_one denied)) ≡ false)
    × ((hash (after_one allowed) == hash (at_one denied)) ≡ false)
    × ((hash (after_one allowed) == hash (after_one denied)) ≡ false)
unfolding audit_event_hash record_event stable_stringify stringify_items stringify_fields join
    insert sort entries hash_reference sha256 event_record input_record last_event
hashes_apart = (refl, refl, refl, refl)

other_events :
    (a b e f : AuditEvent) → (hash a == hash b) ≡ false → e ≡ a → f ≡ b → hash e ≡ hash f → e ≡ f
other_events a b e f apart x y same =
    let clash = (eq_iff (hash a) (hash b)).1 (sym (ap hash x) ∙ same ∙ ap hash y) in
    absurd (cc (apart, clash))

no_collision : NoCollision printer digest events forged
unfolding record_event
no_collision e f (inl x) (inl y) k = other_events _ _ e f hashes_apart.0 x y k
no_collision e f (inl x) (inr (inl y)) k = other_events _ _ e f hashes_apart.1 x y k
no_collision e f (inr (inl x)) (inl y) k = other_events _ _ e f hashes_apart.2 x y k
no_collision e f (inr (inl x)) (inr (inl y)) k = other_events _ _ e f hashes_apart.3 x y k
no_collision e f (inr (inr x)) n k = absurd x
no_collision e f (inl x) (inr (inr y)) k = absurd y
no_collision e f (inr (inl x)) (inr (inr y)) k = absurd y

abbrev first_type : List AuditEvent → String
first_type [] = ""
first_type (e ∷ es) = e.event_type

events-forged : events ≢ forged
unfolding record_event
events-forged e =
    let clash = (eq_iff "decision.allowed" "decision.denied").1 (ap first_type e) in
    absurd (cc (clash))

same_size :
    (verify_audit_chain printer digest events "3").event_count
    ≡ (verify_audit_chain printer digest forged "3").event_count
unfolding record_event verify_audit_chain
same_size = refl

verify_audit_chain-tamper_example :
    (verify_audit_chain printer digest events "3").last_event_hash
    ≢ (verify_audit_chain printer digest forged "3").last_event_hash
verify_audit_chain-tamper_example =
    verify_audit_chain-tamper printer digest events forged "3" events-forged no_collision
      events_verified forged_verified same_size
