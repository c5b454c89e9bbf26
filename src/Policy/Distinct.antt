-- ===== src/Policy/Distinct.antt =====
-- What validatePolicyModel in packages/core/src/policy-model.ts says of the conditional relationships of a
-- valid model.
use access_kit.Prelude.{
  some-injective, String, Bool, true, false, not, Option, none, some, List, [], ◌∷◌, ◌≡◌, refl,
  subst, inl, inr, arith, All, ◌==◌, eq_iff, eq_refl, ◌otherwise◌, or_else, Bool-cases,
  Option-cases, filter_by, All-filter_by, ◌⊎◌,
}
use access_kit.JsSet
use access_kit.JsSet.{JsSet, has-add}
use access_kit.Policy.Model.{ConditionalRelationship}
use access_kit.Policy.Checks.{fail_if, members}
use access_kit.Policy.ConditionalChecks.{
  binding, bind_actions, scoped_actions, conditional_failure, conditionals_failure,
}

-- No failure in either part.
pub or_else-none : (a b : Option String) → or_else a b ≡ none → (a ≡ none) × (b ≡ none)
or_else-none none b h = (refl, h)
or_else-none (some x) b h = absurd (cc)

pub fail_if-none : (b : Bool) (name : String) → fail_if b name ≡ none → b ≡ false
fail_if-none true name h = absurd (cc)
fail_if-none false name h = refl

abbrev pub AreKnown : JsSet → List String → Type 0
AreKnown names = All (λ x. JsSet.has names x ≡ true)

not-true : (b : Bool) → not b ≡ false → b ≡ true
not-true true h = refl
not-true false h = absurd (cc)

pub members-AreKnown :
    (xs names : List String) (name : String) → members xs names name ≡ none → AreKnown names xs
members-AreKnown [] names name h = tt
members-AreKnown (x ∷ xs) names name h =
    let (a, b) = or_else-none (fail_if (not (JsSet.has names x)) name) (members xs names name) h in
    (not-true (JsSet.has names x) (fail_if-none _ name a), members-AreKnown xs names name b)

-- The bindings after a loop over actions: none was bound before, all are after, and none is lost.
record Bound (relation : String) (actions : List String) (before after : JsSet) : Type 0 where
  unbound :
      (a : String) → JsSet.has actions a ≡ true → JsSet.has before (binding relation a) ≡ false
  bound : (a : String) → JsSet.has actions a ≡ true → JsSet.has after (binding relation a) ≡ true
  kept : (k : String) → JsSet.has before k ≡ true → JsSet.has after k ≡ true

has_first : (x k : String) (s : JsSet) → (x == k) ≡ true → JsSet.has (x ∷ s) k ≡ true
unfolding JsSet.has
has_first x k s e = ground (arith, e)

has_rest : (x k : String) (s : JsSet) → JsSet.has s k ≡ true → JsSet.has (x ∷ s) k ≡ true
unfolding JsSet.has
has_rest x k s e = ground (arith, e)

has_none : (x k : String) (s : JsSet) → JsSet.has (x ∷ s) k ≡ false → JsSet.has s k ≡ false
unfolding JsSet.has
has_none x k s e = ground (arith, e)

none-has : (a : String) {A : Type 0} → JsSet.has [] a ≡ true → A
unfolding JsSet.has
none-has a h = absurd (cc)

has-cases :
    (x k : String) (s : JsSet) → JsSet.has (x ∷ s) k ≡ true → (x ≡ k) ⊎ (JsSet.has s k ≡ true)
unfolding JsSet.has
has-cases x k s h = elim (Bool-cases (x == k)) [
  | inl e ↦ inl ((eq_iff x k).0 e)
  | inr e ↦ inr (ground (arith, e))
]

bind_actions-Bound :
    (relation : String) (actions : List String) (before after : JsSet)
    → bind_actions relation actions before ≡ some after
    → Bound relation actions before after
unfolding bind_actions
bind_actions-Bound relation [] before after h = record {
  unbound = λ a e. none-has a e;
  bound = λ a e. none-has a e;
  kept = λ k e. subst (λ s. JsSet.has s k ≡ true) (some-injective before after h) e;
}
bind_actions-Bound relation (a ∷ actions) before after h =
    elim (Bool-cases (JsSet.has before (binding relation a))) [
      | inl e ↦ absurd (ground (arith, e))
      | inr e ↦
          let rest =
            bind_actions-Bound relation actions (binding relation a ∷ before) after
              (rw (e, bind_actions) at h) in
          record {
            unbound = λ b m. elim (has-cases a b actions m) [
              | inl same ↦ subst (λ x. JsSet.has before (binding relation x) ≡ false) same e
              | inr later ↦
                  has_none (binding relation a) (binding relation b) before (rest.unbound b later)
            ];
            bound = λ b m. elim (has-cases a b actions m) [
              | inl same ↦
                  subst (λ x. JsSet.has after (binding relation x) ≡ true) same
                    (rest.kept (binding relation a) (
                      has_first (binding relation a) (binding relation a) before
                        (eq_refl (binding relation a))))
              | inr later ↦ rest.bound b later
            ];
            kept = λ k m. rest.kept k (has_rest (binding relation a) k before m);
          }
    ]

module _ (actions : JsSet) where
  -- The conditional relationship is for the action.
  abbrev pub Scopes : ConditionalRelationship → String → Type 0
  Scopes c a = JsSet.has (scoped_actions actions c) a ≡ true

  -- Two conditional relationships of one relation share no action.
  abbrev pub Apart : ConditionalRelationship → ConditionalRelationship → Type 0
  Apart c d = c.relation ≡ d.relation → (a : String) → Scopes c a → Scopes d a → ⊥

  abbrev pub AreDistinct : List ConditionalRelationship → Type 0
  AreDistinct [] = Unit
  AreDistinct (c ∷ cs) = All (Apart c) cs × AreDistinct cs

  abbrev Unbound : JsSet → ConditionalRelationship → Type 0
  Unbound bound c = (a : String) → Scopes c a → JsSet.has bound (binding c.relation a) ≡ false

  -- What is said of each conditional relationship by itself.
  pub record IsKnown (caveats : List String) (c : ConditionalRelationship) : Type 0 where
    pub caveats_known : AreKnown caveats c.caveats
    pub actions_known : AreKnown actions (c.actions otherwise [])

  conditional-IsKnown :
      (relations caveats : List String) (c : ConditionalRelationship)
      → conditional_failure relations caveats actions c ≡ none
      → IsKnown caveats c
  conditional-IsKnown relations caveats c h =
      let (_, h1) = or_else-none _ _ h in
      let (_, h2) = or_else-none _ _ h1 in
      let (k, h3) = or_else-none _ _ h2 in
      let (_, h4) = or_else-none _ _ h3 in
      let (m, _) = or_else-none _ _ h4 in
      record {
        caveats_known = members-AreKnown c.caveats caveats _ k;
        actions_known = members-AreKnown (c.actions otherwise []) actions _ m;
      }

  true-ne-false : {A : Type 0} (b : Bool) → b ≡ true → b ≡ false → A
  true-ne-false b e f = absurd (cc)

  Apart-All :
      (c : ConditionalRelationship) (before after : JsSet) (cs : List ConditionalRelationship)
      → Bound c.relation (scoped_actions actions c) before after
      → All (Unbound after) cs
      → All (Apart c) cs
  Apart-All c before after [] b h = tt
  Apart-All c before after (d ∷ cs) b h = (
    λ same a cs_a d_a.
        true-ne-false (JsSet.has after (binding d.relation a))
          (subst (λ r. JsSet.has after (binding r a) ≡ true) same (b.bound a cs_a)) (h.0 a d_a),
    Apart-All c before after cs b h.1,
  )

  Unbound-before :
      (c : ConditionalRelationship) (before after : JsSet) (cs : List ConditionalRelationship)
      → Bound c.relation (scoped_actions actions c) before after
      → All (Unbound after) cs
      → All (Unbound before) cs
  Unbound-before c before after [] b h = tt
  Unbound-before c before after (d ∷ cs) b h = (
    λ a m. elim (Bool-cases (JsSet.has before (binding d.relation a))) [
      | inl e ↦
          true-ne-false (JsSet.has after (binding d.relation a)) (b.kept (binding d.relation a) e)
            (h.0 a m)
      | inr e ↦ e
    ],
    Unbound-before c before after cs b h.1,
  )

  -- A loop that finds no failure has seen known and distinct conditional relationships.
  pub conditionals-AreDistinct :
      (relations caveats : List String) (cs : List ConditionalRelationship) (bound : JsSet)
      → conditionals_failure relations caveats actions cs bound ≡ none
      → All (IsKnown caveats) cs × AreDistinct cs × All (Unbound bound) cs
  unfolding conditionals_failure
  conditionals-AreDistinct relations caveats [] bound h = (tt, tt, tt)
  conditionals-AreDistinct relations caveats (c ∷ cs) bound h =
      elim (Option-cases (conditional_failure relations caveats actions c)) [
        | inr (failure, e) ↦ absurd (ground (arith, e))
        | inl e ↦ elim (Option-cases (bind_actions c.relation (scoped_actions actions c) bound)) [
          | inl f ↦ absurd (ground (arith, e, f))
          | inr (after, f) ↦
              let b = bind_actions-Bound c.relation (scoped_actions actions c) bound after f in
              let (known, distinct, free) =
                conditionals-AreDistinct relations caveats cs after
                  (rw (e, conditionals_failure, f) at h) in
              (
                (conditional-IsKnown relations caveats c e, known),
                (Apart-All c bound after cs b free, distinct),
                (b.unbound, Unbound-before c bound after cs b free),
              )
        ]
      ]

  -- What is left of distinct ones is distinct.
  pub AreDistinct-filter_by :
      (p : ConditionalRelationship → Bool) (cs : List ConditionalRelationship)
      → AreDistinct cs
      → AreDistinct (filter_by p cs)
  AreDistinct-filter_by p [] h = tt
  AreDistinct-filter_by p (c ∷ cs) h = elim (Bool-cases (p c)) [
    | inl e ↦ rw (e, AreDistinct) (All-filter_by (Apart c) p cs h.0, AreDistinct-filter_by p cs h.1)
    | inr e ↦ rw (e, AreDistinct) (AreDistinct-filter_by p cs h.1)
  ]
