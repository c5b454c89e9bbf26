-- ===== src/Decision/Engine/Scopes.antt =====
-- The engine's map of scopes: while the graph's revision stands still its scopes hold what the graph
-- gives, and the scope of a request is one of them or a new one.
use access_kit.Prelude.{
  String, Bool, true, false, Option, List, [], ◌∷◌, ◌++◌, ◌≡◌, refl, subst, inl, inr, arith, All,
  All-In, All-append, find_by-some, find_by, if◌then◌else◌, ◌otherwise◌, eq_iff, Option-cases,
  Bool-cases,
}
use access_kit.JsMap
use access_kit.Domain.Dates.{Dates}
use access_kit.Store.Graph.{Graph}
use access_kit.Decision.Cache.{
  Scope, active_relationship_scope, write_back, has_key, new_scope, drop_oldest,
}
use access_kit.Decision.Keys.{scope_text, IsPlain, scope_text-parts}
use access_kit.Decision.Cache.Coherence.{IsCoherent, IsCoherent-pin}

module _ (dates : Dates) (graph : Graph) where
  -- The parts of the scope's key hold no NUL.
  pub record HasPlainKey (s : Scope) : Type 0 where
    pub plain_time : IsPlain s.as_of
    pub plain_version : IsPlain (s.pinned_tuple_version otherwise "")

  -- A scope of the graph's revision has a plain key and holds what the graph gives.
  abbrev pub IsCurrent : Scope → Type 0
  IsCurrent s =
      s.revision ≡ graph.relationship_revision
      → HasPlainKey s
        × IsCoherent dates graph graph.relationship_revision s.as_of s.pinned_tuple_version s

  pub new_scope-IsCoherent :
      (as_of : String) (pinned : Option String)
      → IsCoherent dates graph graph.relationship_revision as_of pinned
          (new_scope graph.relationship_revision as_of pinned)
  unfolding JsMap.get
  new_scope-IsCoherent as_of pinned = record {
    same_revision = refl;
    same_time = refl;
    same_version = refl;
    right = λ id rs e. absurd (cc);
  }

  module _ (P : Scope → Type 0) where
    All-drop_oldest : (ss : List Scope) → All P ss → All P (drop_oldest ss)
    All-drop_oldest [] h = h
    All-drop_oldest (s ∷ ss) h = h.1

    -- The map after a scope is looked up holds what it held, and at most a new scope.
    pub All-active_relationship_scope :
        (ss : List Scope) (as_of : String) (pinned : Option String)
        → P (new_scope graph.relationship_revision as_of pinned)
        → All P ss
        → All P (active_relationship_scope graph ss as_of pinned).1
    unfolding active_relationship_scope
    All-active_relationship_scope ss as_of pinned fresh h =
        elim (Option-cases (find_by (has_key graph.relationship_revision as_of pinned) ss)) [
          | inr (s, e) ↦ rw (e, active_relationship_scope) h
          | inl e ↦ rw (e, active_relationship_scope) (grown_or_not _)
        ]
      where
        grown : All P (ss ++ new_scope graph.relationship_revision as_of pinned ∷ [])
        grown = All-append P ss _ h (fresh, tt)

        grown_or_not :
            (b : Bool)
            → All P (
                if b
                then drop_oldest (ss ++ new_scope graph.relationship_revision as_of pinned ∷ [])
                else ss ++ new_scope graph.relationship_revision as_of pinned ∷ [])
        grown_or_not true = All-drop_oldest _ grown
        grown_or_not false = grown

    -- Writing a scope back puts it in the place of one.
    pub All-write_back : (ss : List Scope) (s : Scope) → All P ss → P s → All P (write_back ss s)
    unfolding write_back
    All-write_back [] s h k = tt
    All-write_back (t ∷ ts) s h k =
        elim (Bool-cases (has_key s.revision s.as_of s.pinned_tuple_version t)) [
          | inl same ↦ rw same (k, h.1)
          | inr other ↦ rw other (h.0, All-write_back ts s h.1 k)
        ]

  has_key-true :
      (as_of : String) (pinned : Option String) (s : Scope)
      → has_key graph.relationship_revision as_of pinned s ≡ true
      → (s.revision ≡ graph.relationship_revision)
        × (scope_text s.as_of (s.pinned_tuple_version otherwise "")
            ≡ scope_text as_of (pinned otherwise ""))
  has_key-true as_of pinned s h = ground (
    arith,
    eq_iff (scope_text s.as_of (s.pinned_tuple_version otherwise ""))
        (scope_text as_of (pinned otherwise "")),
  )

  abbrev pub IsScopeFor : String → Option String → Scope → Type 0
  IsScopeFor = IsCoherent dates graph graph.relationship_revision

  key-IsScopeFor :
      (as_of : String) (pinned : Option String) (s : Scope)
      → has_key graph.relationship_revision as_of pinned s ≡ true
      → IsCurrent s
      → IsScopeFor as_of pinned s
  key-IsScopeFor as_of pinned s key current =
      let (revision, text) = has_key-true as_of pinned s key in
      let (plain, coherent) = current revision in
      let (time, pin) =
        scope_text-parts s.as_of (s.pinned_tuple_version otherwise "") as_of (pinned otherwise "")
          plain.plain_time plain.plain_version text in
      IsCoherent-pin dates graph graph.relationship_revision as_of s.pinned_tuple_version pinned pin
        s
        (subst (λ t. IsCoherent dates graph graph.relationship_revision t s.pinned_tuple_version s)
          time coherent)

  -- A request gets a scope that is right for it.
  pub active_relationship_scope-IsScopeFor :
      (ss : List Scope) (as_of : String) (pinned : Option String)
      → All IsCurrent ss
      → IsScopeFor as_of pinned (active_relationship_scope graph ss as_of pinned).0
  unfolding active_relationship_scope
  active_relationship_scope-IsScopeFor ss as_of pinned h =
      elim (Option-cases (find_by (has_key graph.relationship_revision as_of pinned) ss)) [
        | inr (s, e) ↦
            let (key, there) = find_by-some _ s ss e in
            rw (e, active_relationship_scope)
              (key-IsScopeFor as_of pinned s key (All-In IsCurrent s ss h there))
        | inl e ↦ rw (e, active_relationship_scope) (new_scope-IsCoherent as_of pinned)
      ]
