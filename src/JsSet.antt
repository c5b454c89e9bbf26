-- ===== src/JsSet.antt =====
-- JavaScript's `Set` of texts: the members in the order of insertion, each once.
use access_kit.Prelude.{
  ℕ, String, ◌≡◌, refl, Bool, false, List, [], ◌∷◌, ◌++◌, ◌||◌, arith, ◌==◌, eq_iff, if◌then◌else◌,
  length,
}

abbrev pub JsSet : Type 0
JsSet = List String

unfoldable pub has : JsSet → String → Bool
has [] k = false
has (j ∷ s) k = j == k || has s k

unfoldable pub add : JsSet → String → JsSet
add s k = if has s k then s else s ++ k ∷ []

unfoldable pub size : JsSet → ℕ
size s = length s

has-append : (s t : JsSet) (k : String) → has (s ++ t) k ≡ (has s k || has t k)
unfolding has
has-append [] t k = refl
has-append (j ∷ s) t k = ground (arith, has-append s t k)

pub has-add : (s : JsSet) (j k : String) → has (add s j) k ≡ (has s k || j == k)
unfolding has add
has-add s j k = ground (arith, has-append s (j ∷ []) k, eq_iff j k)
