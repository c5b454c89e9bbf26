-- ===== src/JsMap.antt =====
-- JavaScript's `Map` with text keys: the entries in the order of insertion, each key once.
use access_kit.Prelude.{
  some-injective, ℕ, String, ◌≡◌, refl, Bool, true, false, In, ap, sym, Option, none, some, List,
  [], ◌∷◌, arith, Bool-cases, inl, inr, refl, ◌∙◌, ◌==◌, eq_iff, if◌then◌else◌, length, is_some,
  inl, inr,
}

abbrev pub JsMap {ℓ} : Type ℓ → Type ℓ
JsMap V = List (String × V)

==-flip : (j k : String) → (j == k) ≡ false → (k == j) ≡ false
==-flip j k h = ground (arith, eq_iff j k, eq_iff k j)

module _ {ℓ} {V : Type ℓ} where
  unfoldable pub get : JsMap V → String → Option V
  get [] k = none
  get ((j, v) ∷ m) k = elim (j == k) [ true ↦ some v | false ↦ get m k ]

  unfoldable pub has : JsMap V → String → Bool
  has m k = is_some (get m k)

  -- A new key goes to the end, and an old one keeps its place.
  unfoldable pub set : JsMap V → String → V → JsMap V
  set [] k v = (k, v) ∷ []
  set ((j, w) ∷ m) k v = if j == k then (j, v) ∷ m else (j, w) ∷ set m k v

  unfoldable pub remove : JsMap V → String → JsMap V
  remove [] k = []
  remove ((j, v) ∷ m) k = if j == k then m else (j, v) ∷ remove m k

  unfoldable pub size : JsMap V → ℕ
  size m = length m

  unfoldable pub values : JsMap V → List V
  values [] = []
  values ((j, v) ∷ m) = v ∷ values m

  pub get-set :
      (m : JsMap V) (j k : String) (v : V)
      → get (set m j v) k ≡ (if j == k then some v else get m k)
  unfolding get set
  get-set [] j k v = ground arith
  get-set ((i, w) ∷ m) j k v = ground (arith, eq_iff j k, eq_iff i j, eq_iff i k, get-set m j k v)

  -- Each key stands once.
  abbrev pub HasUniqueKeys : JsMap V → Type ℓ
  HasUniqueKeys [] = Unit
  HasUniqueKeys ((k, v) ∷ m) = (get m k ≡ none) × HasUniqueKeys m

  pub set-HasUniqueKeys :
      (m : JsMap V) (k : String) (v : V) → HasUniqueKeys m → HasUniqueKeys (set m k v)
  unfolding get set
  set-HasUniqueKeys [] k v h = (refl, tt)
  set-HasUniqueKeys ((j, w) ∷ m) k v h = elim (Bool-cases (j == k)) [
    | inl same ↦ rw same h
    | inr other ↦
        rw other ((get-set m k j v) ∙ rw (==-flip j k other) h.0, set-HasUniqueKeys m k v h.1)
  ]

  pub get-remove :
      (m : JsMap V) (j k : String)
      → HasUniqueKeys m
      → get (remove m j) k ≡ (if j == k then none else get m k)
  unfolding get remove
  get-remove [] j k h = ground arith
  get-remove ((i, w) ∷ m) j k h =
      ground (arith, eq_iff j k, eq_iff i j, eq_iff i k, get-remove m j k h.1, h.0)

  pub remove-HasUniqueKeys :
      (m : JsMap V) (j : String) → HasUniqueKeys m → HasUniqueKeys (remove m j)
  unfolding get remove
  remove-HasUniqueKeys [] j h = tt
  remove-HasUniqueKeys ((i, w) ∷ m) j h = elim (Bool-cases (i == j)) [
    | inl same ↦ rw same h.1
    | inr other ↦
        rw other (get-remove m j i h.1 ∙ rw h.0 (ground arith), remove-HasUniqueKeys m j h.1)
  ]

module _ {V : Type 0} where
  get_first : (m : JsMap V) (j k : String) (w : V) → (j == k) ≡ true → get ((j, w) ∷ m) k ≡ some w
  unfolding get
  get_first m j k w same = rw (same, get) refl

  get_rest : (m : JsMap V) (j k : String) (w : V) → (j == k) ≡ false → get ((j, w) ∷ m) k ≡ get m k
  unfolding get
  get_rest m j k w other = rw (other, get) refl

  clash : {A : Type 0} (m : JsMap V) (k : String) (v : V) → get m k ≡ none → get m k ≡ some v → A
  clash m k v e f = let p = sym e ∙ f in absurd (cc)

  -- What is listed is what some key has.
  pub values-get :
      (m : JsMap V) (v : V) → HasUniqueKeys m → In v (values m) → (k : String) × (get m k ≡ some v)
  unfolding values
  values-get [] v h m = absurd m
  values-get ((j, w) ∷ rest) v h (inl e) =
      (j, get_first rest j j w (ground (arith, eq_iff j j)) ∙ ap some (sym e))
  values-get ((j, w) ∷ rest) v h (inr there) =
      let (k, e) = values-get rest v h.1 there in
      (
        k,
        get_rest rest j k w (elim (Bool-cases (j == k)) [
          | inl same ↦
              clash rest k v (ap (get rest) (sym (ground (arith, same, eq_iff j k))) ∙ h.0) e
          | inr other ↦ other
        ])
            ∙ e,
      )

  pub get-values : (m : JsMap V) (k : String) (v : V) → get m k ≡ some v → In v (values m)
  unfolding get values
  get-values [] k v e = absurd (cc)
  get-values ((j, w) ∷ rest) k v e = elim (Bool-cases (j == k)) [
    | inl same ↦ inl (some-injective v w (sym e ∙ get_first rest j k w same))
    | inr other ↦ inr (get-values rest k v (sym (get_rest rest j k w other) ∙ e))
  ]
