-- ===== src/Decision/Runtime/Limits.antt =====
-- What bounds, targets and times to live come to, in packages/core/src/decision-runtime.ts.
use access_kit.Prelude.{
  ◌⊎◌, inl, inr, ◌==◌, eq_iff, sym, leb, Bool-cases, Option-cases, ℕ, ◌+◌, ◌*◌, ◌≤◌, ◌<◌, String,
  Option, none, some, ◌≡◌, refl, arith, ◌otherwise◌, ◌∙◌, ap,
}
use access_kit.Domain.{DecisionRequest, IsoDateTime}
use access_kit.Domain.Json.{JsonRecord}
use access_kit.Domain.Dates.{Dates}
use access_kit.Decision.Runtime.Guard.{GraphSize, TraversalBounds}
use access_kit.Decision.Runtime.Pins.{VersionPins}
use access_kit.Decision.Runtime.CacheMetadata.{
  NumberArgument, PartialBounds, no_bounds, positive_integer_or_default, merge_traversal_bounds,
  latency_targets_for_graph_size, cache_ttl, CacheMetadata, last_instant, normalize_classification,
  add_seconds, create_cache_metadata, metadata,
}

abbrev pub ArePositive : TraversalBounds → Type 0
ArePositive b = (0 < b.max_depth) × (0 < b.max_relationship_scans) × (0 < b.max_visited_nodes)

positive_integer_or_default-positive :
    (o : Option NumberArgument) (n : ℕ) → 0 < n → 0 < positive_integer_or_default o n
unfolding positive_integer_or_default
positive_integer_or_default-positive o n h = ground arith

-- An engine's bounds are positive whatever numbers its options give, if the defaults are.
pub merge_traversal_bounds-ArePositive :
    (defaults : TraversalBounds) (overrides : Option PartialBounds)
    → ArePositive defaults
    → ArePositive (merge_traversal_bounds defaults overrides)
unfolding merge_traversal_bounds
merge_traversal_bounds-ArePositive defaults overrides (d, s, v) =
    let given = overrides otherwise no_bounds in
    (
      positive_integer_or_default-positive given.max_depth defaults.max_depth d,
      positive_integer_or_default-positive given.max_relationship_scans
          defaults.max_relationship_scans s,
      positive_integer_or_default-positive given.max_visited_nodes defaults.max_visited_nodes v,
    )

abbrev IsWithin : GraphSize → GraphSize → Type 0
IsWithin a b =
    (a.subjects ≤ b.subjects) × (a.resources ≤ b.resources) × (a.relationships ≤ b.relationships)

-- A graph that is no smaller in any count has no tighter latency targets.
latency_targets-IsWithin :
    (a b : GraphSize)
    → IsWithin a b
    → ((latency_targets_for_graph_size a).target_ms ≤ (latency_targets_for_graph_size b).target_ms)
      × ((latency_targets_for_graph_size a).regression_gate_ms
          ≤ (latency_targets_for_graph_size b).regression_gate_ms)
unfolding latency_targets_for_graph_size
latency_targets-IsWithin a b (s, r, t) = (ground arith, ground arith)

cache_ttl_bound : (c : String) (n : ℕ) → cache_ttl c ≡ some n → n ≤ 300
unfolding cache_ttl
cache_ttl_bound c n h = ground arith

module _ (dates : Dates) (lower trim : String → String) (sha256 : JsonRecord → String)
    (request : DecisionRequest) (pins : VersionPins) (evaluated_at : IsoDateTime)
    (tenant classification : Option String) where
  abbrev made : Option CacheMetadata
  made =
      create_cache_metadata dates lower trim sha256 request pins evaluated_at tenant classification

  abbrev name : String
  name = normalize_classification dates lower trim sha256 classification

  abbrev seconds : Option ℕ → Option IsoDateTime
  seconds = add_seconds dates lower trim sha256 evaluated_at

  seconds-some :
      (at ttl : ℕ)
      → dates.parse evaluated_at ≡ some at
      → at + ttl * 1000 ≤ last_instant
      → seconds (some ttl) ≡ some (dates.to_iso_string (at + ttl * 1000))
  unfolding add_seconds
  seconds-some at ttl e room = rw (e, add_seconds) (ground arith)

  seconds-none : (at : ℕ) → dates.parse evaluated_at ≡ some at → seconds none ≡ none
  unfolding add_seconds
  seconds-none at e = rw (e, add_seconds) refl

  seconds-over :
      (at ttl : ℕ)
      → dates.parse evaluated_at ≡ some at
      → last_instant < at + ttl * 1000
      → seconds (some ttl) ≡ none
  unfolding add_seconds
  seconds-over at ttl e over = rw (e, add_seconds) (ground (arith, over))

  made_of_none : seconds (cache_ttl name) ≡ none → made ≡ none
  unfolding create_cache_metadata
  made_of_none e = rw (e, create_cache_metadata) refl

  some-ne-none : {m : CacheMetadata} {A : Type 0} → ◌≡◌ {A = Option CacheMetadata} (some m) none → A
  some-ne-none e = absurd (cc)

  made_of_seconds :
      (end_at : IsoDateTime)
      → seconds (cache_ttl name) ≡ some end_at
      → made
        ≡ some (
            metadata dates lower trim sha256 request pins
              (tenant otherwise "tenant:unknown")
              name
              (cache_ttl name)
              end_at)
  unfolding create_cache_metadata
  made_of_seconds end_at e = rw (e, create_cache_metadata) refl

  -- At a real date, metadata is made for every classification that has a time to live, unless the
  -- date is within five minutes of the last one; the time is at most those five minutes, and the
  -- metadata ends so much after the date.
  pub create_cache_metadata-made :
      (at ttl : ℕ)
      → dates.parse evaluated_at ≡ some at
      → cache_ttl name ≡ some ttl
      → at + 300000 ≤ last_instant
      → (m : CacheMetadata) × (made ≡ some m)
        × (m.max_ttl_seconds ≡ some ttl)
        × (ttl ≤ 300)
        × (m.expires_at ≡ dates.to_iso_string (at + ttl * 1000))
  create_cache_metadata-made at ttl e f room =
      let bound = cache_ttl_bound name ttl f in
      (
        metadata dates lower trim sha256 request pins (tenant otherwise "tenant:unknown") name
            (cache_ttl name) (dates.to_iso_string (at + ttl * 1000)),
        made_of_seconds _ (ap seconds f ∙ seconds-some at ttl e (omega (arith, bound, room))),
        f,
        bound,
        refl,
      )

  -- The names of members of Object.prototype that toLowerCase leaves as they are.
  abbrev pub IsPrototypeName : String → Type 0
  IsPrototypeName c = (c ≡ "constructor") ⊎ (c ≡ "__proto__")

  cache_ttl-none : (c : String) → cache_ttl c ≡ none → IsPrototypeName c
  unfolding cache_ttl
  cache_ttl-none c h = elim (Bool-cases (c == "constructor")) [
    | inl e ↦ inl ((eq_iff c "constructor").0 e)
    | inr e ↦ elim (Bool-cases (c == "__proto__")) [
      | inl f ↦ inr ((eq_iff c "__proto__").0 f)
      | inr f ↦ absurd (ground (arith, e, f, h))
    ]
  ]

  IsPrototypeName-none : (c : String) → IsPrototypeName c → cache_ttl c ≡ none
  unfolding cache_ttl
  IsPrototypeName-none c (inl e) = rw e refl
  IsPrototypeName-none c (inr e) = rw e refl

  -- The metadata's end is no date: the classification has no time to live, or its time to live goes
  -- past the last date of all.
  abbrev pub HasNoEnd : ℕ → Type 0
  HasNoEnd at =
      IsPrototypeName name
      ⊎ ((ttl : ℕ) × (cache_ttl name ≡ some ttl) × (last_instant < at + ttl * 1000))

  made-HasNoEnd : made ≡ none → (at : ℕ) × (dates.parse evaluated_at ≡ some at) × HasNoEnd at
  unfolding create_cache_metadata add_seconds
  made-HasNoEnd h = elim (Option-cases (dates.parse evaluated_at)) [
    | inl e ↦ absurd (ground (arith, e, h))
    | inr (at, e) ↦ elim (Option-cases (cache_ttl name)) [
      | inl f ↦ (at, e, inl (cache_ttl-none name f))
      | inr (ttl, f) ↦ elim (Bool-cases (leb (at + ttl * 1000) last_instant)) [
        | inl g ↦ absurd (
            some-ne-none (
              sym (made_of_seconds _ (ap seconds f ∙ seconds-some at ttl e (ground (arith, g))))
              ∙ h))
        | inr g ↦ (at, e, inr (ttl, f, ground (arith, g)))
      ]
    ]
  ]

  HasNoEnd-made : (at : ℕ) → dates.parse evaluated_at ≡ some at → HasNoEnd at → made ≡ none
  HasNoEnd-made at e (inl c) =
      made_of_none (ap seconds (IsPrototypeName-none name c) ∙ seconds-none at e)
  HasNoEnd-made at e (inr (ttl, f, over)) = made_of_none (ap seconds f ∙ seconds-over at ttl e over)

  -- Making the metadata throws exactly when the date is a real one and either the classification,
  -- trimmed and in lower case, is the name of a member of Object.prototype, or its time to live goes
  -- past the last date of all.
  pub create_cache_metadata-throws :
      (made ≡ none → (at : ℕ) × (dates.parse evaluated_at ≡ some at) × HasNoEnd at)
      × ((at : ℕ) → dates.parse evaluated_at ≡ some at → HasNoEnd at → made ≡ none)
  create_cache_metadata-throws = (made-HasNoEnd, HasNoEnd-made)
