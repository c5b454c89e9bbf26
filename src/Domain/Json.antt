-- ===== src/Domain/Json.antt =====
-- The values of a `JsonRecord` (packages/core/src/domain/shared.ts). A number is the whole multiple
-- of 2 ^ -1074 that it stands for, which is exact for every finite double; `undefined` is a value,
-- since a record in memory may hold it.
use access_kit.Prelude.{
  ℕ, String, Bool, true, false, ◌||◌, arith, leb, if◌then◌else◌, ◌==◌, ◌≡◌, eq_iff,
}

-- `minus_suc n` is -(n + 1).
pub data JsNumber : Type 0 where
  plus : ℕ → JsNumber
  minus_suc : ℕ → JsNumber

mutual
  pub data Json : Type 0 where
    undefined null : Json
    bool : Bool → Json
    num : JsNumber → Json
    text : String → Json
    arr : Items → Json
    obj : JsonRecord → Json

  pub data Items : Type 0 where
    nil : Items
    cons : Json → Items → Items

  pub data JsonRecord : Type 0 where
    end : JsonRecord
    field : String → Json → JsonRecord → JsonRecord

abbrev pub number_le : JsNumber → JsNumber → Bool
number_le (plus a) (plus b) = leb a b
number_le (plus a) (minus_suc b) = false
number_le (minus_suc a) (plus b) = true
number_le (minus_suc a) (minus_suc b) = leb b a

-- `record[key]`.
unfoldable pub value_of : JsonRecord → String → Json
value_of end k = undefined
value_of (field j v r) k = elim (j == k) [ true ↦ v | false ↦ value_of r k ]

-- Whether the record has the key itself.
unfoldable pub has_own : JsonRecord → String → Bool
has_own end k = false
has_own (field j v r) k = j == k || has_own r k

-- `record[key] = v`; a new key goes to the end.
unfoldable pub put : JsonRecord → String → Json → JsonRecord
put end k v = field k v end
put (field j w r) k v = if j == k then field j v r else field j w (put r k v)

pub value_of-put :
    (r : JsonRecord) (j k : String) (v : Json)
    → value_of (put r j v) k ≡ (if j == k then v else value_of r k)
unfolding value_of put
value_of-put end j k v = ground arith
value_of-put (field i w r) j k v =
    ground (arith, eq_iff i j, eq_iff i k, eq_iff j k, value_of-put r j k v)
