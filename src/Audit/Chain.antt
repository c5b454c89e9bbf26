-- ===== src/Audit/Chain.antt =====
-- What verifyAuditChain in packages/core/src/audit.ts accepts, and what an accepted chain is worth.
use access_kit.Prelude.{
  In, some-injective, suc, String, true, false, Option, none, some, List, [], ◌∷◌, ◌++◌, ◌≡◌, ◌≢◌,
  refl, sym, ap, subst, ◌∙◌, inl, inr, arith, length, ◌==◌, eq_iff, Bool-cases,
}
use access_kit.Audit.Text.{Printer}
use access_kit.Audit.{
  AuditEvent, AuditEventInput, AuditFinding, verified, texts_differ, map_option, last_event,
  audit_event_hash, audit_payload_hash, record_event, payload_finding, link_finding, chain_findings,
  status_of, verify_audit_chain,
}

texts_differ-false : (a b : Option String) → texts_differ a b ≡ false → a ≡ b
texts_differ-false none none h = refl
texts_differ-false none (some b) h = absurd (cc)
texts_differ-false (some a) none h = absurd (cc)
texts_differ-false (some a) (some b) h = ap some (ground (arith, eq_iff a b))

texts_differ-true : (a b : Option String) → texts_differ a b ≡ true → a ≢ b
texts_differ-true none none h = absurd (cc)
texts_differ-true none (some b) h = λ e. cc
texts_differ-true (some a) none h = λ e. cc
texts_differ-true (some a) (some b) h = λ e. ground (arith, eq_iff a b, h, some-injective a b e)

texts_differ_refl : (a : Option String) → texts_differ a a ≡ false
texts_differ_refl none = refl
texts_differ_refl (some a) = ground (arith, eq_iff a a)

module _ (p : Printer) (digest : String → String) where
  abbrev hash : AuditEvent → String
  hash = audit_event_hash p digest

  -- Each event has the hash of its payload, and the hash of the event before it.
  abbrev pub IsChain : Option AuditEvent → List AuditEvent → Type 0
  IsChain previous [] = Unit
  IsChain previous (e ∷ rest) =
      (e.payload_hash ≡ audit_payload_hash p digest e.payload)
      × (e.previous_event_hash ≡ map_option hash previous)
      × IsChain (some e) rest

  payload_finding-nil :
      (e : AuditEvent) (rest : List AuditFinding)
      → payload_finding p digest e rest ≡ []
      → (e.payload_hash ≡ audit_payload_hash p digest e.payload) × (rest ≡ [])
  payload_finding-nil e rest h =
      elim (Bool-cases (e.payload_hash == audit_payload_hash p digest e.payload)) [
        | inl same ↦ (
          ground (arith, same, eq_iff e.payload_hash (audit_payload_hash p digest e.payload)),
          ground (arith, same),
        )
        | inr other ↦ absurd (ground (arith, other))
      ]

  link_finding-nil :
      (previous : Option AuditEvent) (e : AuditEvent) (rest : List AuditFinding)
      → link_finding p digest previous e rest ≡ []
      → (e.previous_event_hash ≡ map_option hash previous) × (rest ≡ [])
  link_finding-nil previous e rest h =
      elim (Bool-cases (texts_differ e.previous_event_hash (map_option hash previous))) [
        | inl other ↦ absurd (ground (arith, other))
        | inr same ↦ (texts_differ-false _ _ same, ground (arith, same))
      ]

  chain_findings-IsChain :
      (previous : Option AuditEvent) (events : List AuditEvent)
      → chain_findings p digest previous events ≡ []
      → IsChain previous events
  unfolding chain_findings
  chain_findings-IsChain previous [] h = tt
  chain_findings-IsChain previous (e ∷ rest) h =
      let (payload, links) = payload_finding-nil e _ h in
      let (link, more) = link_finding-nil previous e _ links in
      (payload, link, chain_findings-IsChain (some e) rest more)

  IsChain-chain_findings :
      (previous : Option AuditEvent) (events : List AuditEvent)
      → IsChain previous events
      → chain_findings p digest previous events ≡ []
  unfolding chain_findings
  IsChain-chain_findings previous [] h = refl
  IsChain-chain_findings previous (e ∷ rest) (payload, link, more) = ground (
    arith,
    payload,
    eq_iff e.payload_hash (audit_payload_hash p digest e.payload),
    subst (λ t. texts_differ e.previous_event_hash t ≡ false) link
        (texts_differ_refl e.previous_event_hash),
    IsChain-chain_findings (some e) rest more,
  )

  -- The event that a chain after `previous` ends with.
  abbrev last_of : Option AuditEvent → List AuditEvent → Option AuditEvent
  last_of previous [] = previous
  last_of previous (e ∷ rest) = last_of (some e) rest

  last_of-last_event :
      (e : AuditEvent) (rest : List AuditEvent) → last_of (some e) rest ≡ last_event (e ∷ rest)
  unfolding last_event
  last_of-last_event e [] = refl
  last_of-last_event e (f ∷ rest) = last_of-last_event f rest

  last_of-none : (events : List AuditEvent) → last_of none events ≡ last_event events
  unfolding last_event
  last_of-none [] = refl
  last_of-none (e ∷ rest) = last_of-last_event e rest

  IsChain-append :
      (previous : Option AuditEvent) (events : List AuditEvent) (e : AuditEvent)
      → IsChain previous events
      → IsChain (last_of previous events) (e ∷ [])
      → IsChain previous (events ++ e ∷ [])
  IsChain-append previous [] e h k = k
  IsChain-append previous (f ∷ rest) e h k = (h.0, h.1, IsChain-append (some f) rest e h.2 k)

  pub record_event-IsChain :
      (events : List AuditEvent) (i : AuditEventInput) (at : String)
      → IsChain none events
      → IsChain none (record_event p digest events i at).1
  unfolding record_event audit_payload_hash
  record_event-IsChain events i at h =
      IsChain-append none events _ h (refl, ap (map_option hash) (sym (last_of-none events)), tt)

  -- The events of a recorder that was empty at first.
  pub data Recorded : List AuditEvent → Type 0 where
    nothing_recorded : Recorded []
    one_more :
        {events : List AuditEvent} (i : AuditEventInput) (at : String)
        → Recorded events
        → Recorded (record_event p digest events i at).1

  Recorded-IsChain : (events : List AuditEvent) → Recorded events → IsChain none events
  Recorded-IsChain events nothing_recorded = tt
  Recorded-IsChain events (one_more i at h) = record_event-IsChain _ i at (Recorded-IsChain _ h)

  -- Verification accepts a list of events exactly when each has the hash of its payload and the hash
  -- of the event before it, the first none.
  pub verify_audit_chain-IsChain :
      (events : List AuditEvent) (at : String)
      → ((verify_audit_chain p digest events at).status ≡ verified → IsChain none events)
        × (IsChain none events → (verify_audit_chain p digest events at).status ≡ verified)
  unfolding verify_audit_chain
  verify_audit_chain-IsChain events at = (
    λ h. chain_findings-IsChain none events (nil_of _ h),
    λ h. ap status_of (IsChain-chain_findings none events h),
  )
    where
      nil_of : (fs : List AuditFinding) → status_of fs ≡ verified → fs ≡ []
      nil_of [] h = refl
      nil_of (f ∷ fs) h = absurd (cc)

  -- What a recorder has recorded is verified, after any number of events.
  pub Recorded-verified :
      (events : List AuditEvent) (at : String)
      → Recorded events
      → (verify_audit_chain p digest events at).status ≡ verified
  Recorded-verified events at h =
      (verify_audit_chain-IsChain events at).1 (Recorded-IsChain events h)

  same_length :
      (es fs : List AuditEvent) → suc (length es) ≡ suc (length fs) → length es ≡ length fs
  same_length es fs h = omega (arith, h)

  -- No event of one list and other event of the other have one hash.
  abbrev pub NoCollision : List AuditEvent → List AuditEvent → Type 0
  NoCollision es fs = (e f : AuditEvent) → In e es → In f fs → hash e ≡ hash f → e ≡ f

  -- Going back from one last hash: the lists are the same, and so are the hashes before them.
  IsChain-same :
      (one other : Option AuditEvent) (es fs : List AuditEvent)
      → NoCollision es fs
      → IsChain one es
      → IsChain other fs
      → length es ≡ length fs
      → map_option hash (last_of one es) ≡ map_option hash (last_of other fs)
      → (es ≡ fs) × (map_option hash one ≡ map_option hash other)
  IsChain-same one other [] [] apart h k size last = (refl, last)
  IsChain-same one other [] (f ∷ fs) apart h k size last = absurd (omega (arith, size))
  IsChain-same one other (e ∷ es) [] apart h k size last = absurd (omega (arith, size))
  IsChain-same one other (e ∷ es) (f ∷ fs) apart h k size last =
      let (rest, here) =
        IsChain-same (some e) (some f) es fs (λ x y m n. apart x y (inr m) (inr n)) h.2 k.2
          (same_length es fs size) last in
      let same = apart e f (inl refl) (inl refl) (some-injective (hash e) (hash f) here) in
      ((λ i. same i ∷ rest i), sym h.1 ∙ ap (λ (x : AuditEvent). x.previous_event_hash) same ∙ k.1)

  -- Two verified lists of one length that are not the same, however they differ, end with different
  -- hashes, if no event of the one and other event of the other have one hash.
  pub verify_audit_chain-tamper :
      (es fs : List AuditEvent) (at : String)
      → es ≢ fs
      → NoCollision es fs
      → (verify_audit_chain p digest es at).status ≡ verified
      → (verify_audit_chain p digest fs at).status ≡ verified
      → (verify_audit_chain p digest es at).event_count
        ≡ (verify_audit_chain p digest fs at).event_count
      → (verify_audit_chain p digest es at).last_event_hash
        ≢ (verify_audit_chain p digest fs at).last_event_hash
  unfolding verify_audit_chain
  verify_audit_chain-tamper es fs at differ apart h k size = λ last.
      differ
        (IsChain-same none none es fs apart ((verify_audit_chain-IsChain es at).0 h)
          ((verify_audit_chain-IsChain fs at).0 k) size
          (ap (map_option hash) (last_of-none es)
            ∙ last
            ∙ sym (ap (map_option hash) (last_of-none fs)))).0
