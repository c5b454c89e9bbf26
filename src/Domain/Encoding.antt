-- ===== src/Domain/Encoding.antt =====
-- How the values of the model are written as JSON.
use access_kit.Prelude.{ℕ, ◌*◌, ◌^◌, String, Option, none, some, List, [], ◌∷◌}
use access_kit.Domain.Json.{
  JsonRecord, end, field, Json, undefined, num, plus, Items, nil, cons, JsNumber,
}

-- A whole number, as the multiple of 2 ^ -1074 that it is.
abbrev pub whole_number : ℕ → JsNumber
whole_number n = plus (n * 2 ^ 1074)

abbrev pub number : ℕ → Json
number n = num (whole_number n)

abbrev pub optional {ℓ} : {A : Type ℓ} → (A → Json) → Option A → Json
optional f none = undefined
optional f (some a) = f a

abbrev pub array {ℓ} : {A : Type ℓ} → (A → Json) → List A → Items
array f [] = nil
array f (x ∷ xs) = cons (f x) (array f xs)

abbrev pub fields : List (String × Json) → JsonRecord
fields [] = end
fields ((k, v) ∷ rest) = field k v (fields rest)
