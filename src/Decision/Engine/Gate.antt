-- ===== src/Decision/Engine/Gate.antt =====
-- The checks of #buildDecisionContext before its searches, against what they mean.
use access_kit.Prelude.{
  ℕ, ◌≤◌, String, true, false, Option, none, some, ◌≡◌, ◌≢◌, refl, ap, subst, inl, inr, arith,
  holds, is_some, eq_iff, ◌==◌, Option-cases, Bool-cases,
}
use access_kit.Domain.{Subject, Resource, DecisionRequest, LifecycleState, is_active_state}
use access_kit.Domain.Dates.{Dates, later}
use access_kit.Store.Graph.{Graph, get_subject, get_resource}
use access_kit.Decision.Runtime.Pins.{VersionPins}
use access_kit.Decision.Visibility.{
  Node, subject_node, resource_node, node_lifecycle_state, node_updated_at, tenant_id_for,
  tenants_differ, tenant_boundary_denies, is_visible_at, visible_subject_at, visible_resource_at,
  effective_lifecycle_state_at, set_and_later,
}
use access_kit.Decision.Engine.{
  EngineConfig, Admission, admitted, admit_request, admit_subject, admit_resource,
}

is_active_state-true : (l : LifecycleState) → is_active_state l ≡ true → l ≡ LifecycleState.active
is_active_state-true LifecycleState.active h = refl
is_active_state-true LifecycleState.inactive h = absurd (cc)
is_active_state-true LifecycleState.suspended h = absurd (cc)
is_active_state-true LifecycleState.terminated h = absurd (cc)
is_active_state-true LifecycleState.deleted h = absurd (cc)

module _ (dates : Dates) (as_of : String) where
  -- A date that is not after the time, or no date.
  abbrev pub NotAfter : String → Type 0
  NotAfter date = (n at : ℕ) → dates.parse date ≡ some n → dates.parse as_of ≡ some at → n ≤ at

  later-NotAfter :
      (date : String) → later (dates.parse date) (dates.parse as_of) ≡ false → NotAfter date
  later-NotAfter date h n at e f = ground arith

  NotAfter-later :
      (date : String) → NotAfter date → later (dates.parse date) (dates.parse as_of) ≡ false
  NotAfter-later date h = elim (Option-cases (dates.parse date)) [
    | inl e ↦ rw e refl
    | inr (n, e) ↦ elim (Option-cases (dates.parse as_of)) [
      | inl f ↦ rw (e, f) refl
      | inr (at, f) ↦ ground (arith, h n at e f)
    ]
  ]

  -- An entity of this state, created and last changed no later than the time, and active.
  pub record IsSettled (created_at : String) (node : Node) : Type 0 where
    pub created : NotAfter created_at
    pub unchanged : (date : String) → node_updated_at node ≡ some date → date ≢ "" → NotAfter date
    pub active_now : node_lifecycle_state node ≡ LifecycleState.active

  module _ (created_at : String) (updated_at : Option String) where
    is_visible_at-NotAfter :
        is_visible_at dates created_at updated_at none as_of ≡ true → NotAfter created_at
    unfolding is_visible_at
    is_visible_at-NotAfter h = later-NotAfter created_at (ground arith)

    is_visible_at-true :
        NotAfter created_at → is_visible_at dates created_at updated_at none as_of ≡ true
    unfolding is_visible_at
    is_visible_at-true h = rw (NotAfter-later created_at h) refl

  set_and_later-false :
      (o : Option String)
      → ((date : String) → o ≡ some date → date ≢ "" → NotAfter date)
      → set_and_later dates o (dates.parse as_of) ≡ false
  set_and_later-false none h = refl
  set_and_later-false (some date) h = elim (Bool-cases (date == "")) [
    | inl e ↦ rw e refl
    | inr e ↦ ground (
      arith,
      eq_iff date "",
      NotAfter-later date (h date refl (λ f. absurd (ground (arith, eq_iff date "", e, f)))),
    )
  ]

  unchanged_of_false :
      (o : Option String)
      → set_and_later dates o (dates.parse as_of) ≡ false
      → (date : String) → o ≡ some date
      → date ≢ ""
      → NotAfter date
  unchanged_of_false o h date e some_text = later-NotAfter date (
      set_later date (subst (λ p. set_and_later dates p (dates.parse as_of) ≡ false) e h) some_text)
    where
      set_later :
          (d : String)
          → set_and_later dates (some d) (dates.parse as_of) ≡ false
          → d ≢ ""
          → later (dates.parse d) (dates.parse as_of) ≡ false
      set_later d k g = ground (arith, eq_iff d "")

  effective_lifecycle_state_at-IsSettled :
      (created_at : String) (node : Node)
      → NotAfter created_at
      → holds is_active_state (effective_lifecycle_state_at dates node as_of) ≡ true
      → IsSettled created_at node
  unfolding effective_lifecycle_state_at
  effective_lifecycle_state_at-IsSettled created_at node created h = record {
    created = created;
    unchanged = unchanged_of_false (node_updated_at node) (ground arith);
    active_now = is_active_state-true (node_lifecycle_state node) (ground arith);
  }

  IsSettled-effective_lifecycle_state_at :
      (created_at : String) (node : Node)
      → IsSettled created_at node
      → effective_lifecycle_state_at dates node as_of ≡ some LifecycleState.active
  unfolding effective_lifecycle_state_at
  IsSettled-effective_lifecycle_state_at created_at node h =
      rw (set_and_later-false (node_updated_at node) h.unchanged, h.active_now) refl

module _ (c : EngineConfig) (graph : Graph) (request : DecisionRequest) (evaluated_at : String)
    (pins : VersionPins) where
  abbrev admission : Admission
  admission = admit_request c graph request evaluated_at pins

  -- What a request must satisfy for its searches to be run, with its subject and its resource.
  pub record IsAdmissible (s : Subject) (r : Resource) : Type 0 where
    pub is_date : c.dates.parse pins.as_of ≢ none
    pub not_in_future : NotAfter c.dates evaluated_at pins.as_of
    pub subject_known : get_subject graph request.subject_id ≡ some s
    pub subject_settled : IsSettled c.dates pins.as_of s.created_at (subject_node s)
    pub resource_known : get_resource graph request.resource_id ≡ some r
    pub resource_settled : IsSettled c.dates pins.as_of r.created_at (resource_node r)
    pub same_tenant : tenant_id_for (some (subject_node s)) ≡ tenant_id_for (some (resource_node r))

  tenants_differ-false : (a b : Option String) → tenants_differ a b ≡ false → a ≡ b
  tenants_differ-false none none h = refl
  tenants_differ-false none (some b) h = absurd (cc)
  tenants_differ-false (some a) none h = absurd (cc)
  tenants_differ-false (some a) (some b) h = ap some (ground (arith, eq_iff a b))

  tenants_differ_refl : (a : Option String) → tenants_differ a a ≡ false
  tenants_differ_refl none = refl
  tenants_differ_refl (some a) = ground (arith, eq_iff a a)

  admit_resource-admitted :
      (t s : Subject) (r : Resource)
      → admit_resource c graph request evaluated_at pins t ≡ admitted s r
      → (t ≡ s)
        × (visible_resource_at c.dates graph request.resource_id pins.as_of ≡ some r)
        × (holds is_active_state (effective_lifecycle_state_at c.dates (resource_node r) pins.as_of)
            ≡ true)
        × (tenant_boundary_denies s r ≡ false)
  unfolding admit_resource
  admit_resource-admitted t s r h = ground arith

  admit_request-admitted :
      (s : Subject) (r : Resource)
      → admission ≡ admitted s r
      → (is_some (c.dates.parse pins.as_of) ≡ true)
        × (later (c.dates.parse pins.as_of) (c.dates.parse evaluated_at) ≡ false)
        × (visible_subject_at c.dates graph request.subject_id pins.as_of ≡ some s)
        × (holds is_active_state (effective_lifecycle_state_at c.dates (subject_node s) pins.as_of)
            ≡ true)
        × (admit_resource c graph request evaluated_at pins s ≡ admitted s r)
  unfolding admit_request admit_subject
  admit_request-admitted s r h = ground arith

  visible_subject_at-some :
      (s : Subject)
      → visible_subject_at c.dates graph request.subject_id pins.as_of ≡ some s
      → (get_subject graph request.subject_id ≡ some s)
        × (is_visible_at c.dates s.created_at s.updated_at none pins.as_of ≡ true)
  unfolding visible_subject_at
  visible_subject_at-some s h = ground arith

  visible_resource_at-some :
      (r : Resource)
      → visible_resource_at c.dates graph request.resource_id pins.as_of ≡ some r
      → (get_resource graph request.resource_id ≡ some r)
        × (is_visible_at c.dates r.created_at r.updated_at none pins.as_of ≡ true)
  unfolding visible_resource_at
  visible_resource_at-some r h = ground arith

  is_some-ne-none : {A : Type 0} (o : Option A) → is_some o ≡ true → o ≢ none
  is_some-ne-none none h = absurd (cc)
  is_some-ne-none (some a) h = λ e. cc

  ne-none-is_some : {A : Type 0} (o : Option A) → o ≢ none → is_some o ≡ true
  ne-none-is_some none h = absurd (h refl)
  ne-none-is_some (some a) h = refl

  -- A request whose searches are run asks for a date that is not in the future, about a subject and a
  -- resource that are known and were settled and active by then, and that are of one tenant or both
  -- of none.
  pub admit_request-IsAdmissible :
      (s : Subject) (r : Resource) → admission ≡ admitted s r → IsAdmissible s r
  unfolding tenant_boundary_denies
  admit_request-IsAdmissible s r h =
      let (date, past, subject_seen, subject_active, rest) = admit_request-admitted s r h in
      let (_, resource_seen, resource_active, tenant) = admit_resource-admitted s s r rest in
      let (subject_known, subject_visible) = visible_subject_at-some s subject_seen in
      let (resource_known, resource_visible) = visible_resource_at-some r resource_seen in
      record {
        is_date = is_some-ne-none (c.dates.parse pins.as_of) date;
        not_in_future = later-NotAfter c.dates evaluated_at pins.as_of past;
        subject_known = subject_known;
        subject_settled =
            effective_lifecycle_state_at-IsSettled c.dates pins.as_of s.created_at (subject_node s)
              (is_visible_at-NotAfter c.dates pins.as_of s.created_at s.updated_at subject_visible)
              subject_active;
        resource_known = resource_known;
        resource_settled =
            effective_lifecycle_state_at-IsSettled c.dates pins.as_of r.created_at (resource_node r)
              (is_visible_at-NotAfter c.dates pins.as_of r.created_at r.updated_at resource_visible)
              resource_active;
        same_tenant = tenants_differ-false _ _ tenant;
      }

  visible_subject_at-known :
      (s : Subject)
      → get_subject graph request.subject_id ≡ some s
      → NotAfter c.dates pins.as_of s.created_at
      → visible_subject_at c.dates graph request.subject_id pins.as_of ≡ some s
  unfolding visible_subject_at
  visible_subject_at-known s known h =
      rw
        (
          known,
          visible_subject_at,
          is_visible_at-true c.dates pins.as_of s.created_at s.updated_at h,
        )
        refl

  visible_resource_at-known :
      (r : Resource)
      → get_resource graph request.resource_id ≡ some r
      → NotAfter c.dates pins.as_of r.created_at
      → visible_resource_at c.dates graph request.resource_id pins.as_of ≡ some r
  unfolding visible_resource_at
  visible_resource_at-known r known h =
      rw
        (
          known,
          visible_resource_at,
          is_visible_at-true c.dates pins.as_of r.created_at r.updated_at h,
        )
        refl

  admitted_of_tests :
      (s : Subject) (r : Resource)
      → is_some (c.dates.parse pins.as_of) ≡ true
      → later (c.dates.parse pins.as_of) (c.dates.parse evaluated_at) ≡ false
      → visible_subject_at c.dates graph request.subject_id pins.as_of ≡ some s
      → effective_lifecycle_state_at c.dates (subject_node s) pins.as_of
        ≡ some LifecycleState.active
      → visible_resource_at c.dates graph request.resource_id pins.as_of ≡ some r
      → effective_lifecycle_state_at c.dates (resource_node r) pins.as_of
        ≡ some LifecycleState.active
      → tenant_boundary_denies s r ≡ false
      → admission ≡ admitted s r
  unfolding admit_request admit_subject admit_resource
  admitted_of_tests s r date past seen active seen' active' tenant = ground arith

  -- Every such request is admitted.
  pub IsAdmissible-admit_request :
      (s : Subject) (r : Resource) → IsAdmissible s r → admission ≡ admitted s r
  unfolding tenant_boundary_denies
  IsAdmissible-admit_request s r h =
      admitted_of_tests s r (ne-none-is_some (c.dates.parse pins.as_of) h.is_date)
        (NotAfter-later c.dates evaluated_at pins.as_of h.not_in_future)
        (visible_subject_at-known s h.subject_known h.subject_settled.created)
        (IsSettled-effective_lifecycle_state_at c.dates pins.as_of s.created_at (subject_node s)
          h.subject_settled)
        (visible_resource_at-known r h.resource_known h.resource_settled.created)
        (IsSettled-effective_lifecycle_state_at c.dates pins.as_of r.created_at (resource_node r)
          h.resource_settled)
        (subst (λ t. tenants_differ (tenant_id_for (some (subject_node s))) t ≡ false) h.same_tenant
          (tenants_differ_refl (tenant_id_for (some (subject_node s)))))
