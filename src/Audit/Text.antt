-- ===== src/Audit/Text.antt =====
-- stableStringify in packages/core/src/audit.ts. How JavaScript writes a text and a number in JSON,
-- and the order of `sort`, are arguments. `undefined` in an array is written as an empty text, as
-- `join` does; a key whose value is `undefined` is left out. Each entry is written before the entries
-- are put in order, and not after, which is the same.
use Prim.Native.String.{◌++◌}
use access_kit.Prelude.{String, Bool, true, false, List, [], ◌∷◌, if◌then◌else◌}
use access_kit.Domain.Json.{
  JsonRecord, end, field, Json, undefined, null, bool, num, text, arr, obj, Items, nil, cons,
  JsNumber,
}

pub record Printer : Type 0 where
  pub text_of : String → String
  pub number_of : JsNumber → String
  pub comes_before : String → String → Bool

abbrev Written : Type 0
Written = List (String × String)

-- A text with a mark before it.
abbrev pub prefixed : String → String → String
prefixed mark s = mark ++ s

-- `join(",")`.
unfoldable pub join : List String → String
join [] = ""
join (s ∷ []) = s
join (s ∷ t ∷ rest) = s ++ "," ++ join (t ∷ rest)

module _ (p : Printer) where
  unfoldable pub insert : String × String → Written → Written
  insert entry [] = entry ∷ []
  insert entry (e ∷ es) =
      let rest = insert entry es in if p.comes_before entry.0 e.0 then entry ∷ e ∷ es else e ∷ rest

  unfoldable pub sort : Written → Written
  sort [] = []
  sort (e ∷ es) = insert e (sort es)

  unfoldable pub entries : Written → List String
  entries [] = []
  entries ((k, v) ∷ es) = (p.text_of k ++ ":" ++ v) ∷ entries es

  unfoldable mutual
    pub stable_stringify : Json → String
    stable_stringify undefined = ""
    stable_stringify null = "null"
    stable_stringify (bool true) = "true"
    stable_stringify (bool false) = "false"
    stable_stringify (num n) = p.number_of n
    stable_stringify (text s) = p.text_of s
    stable_stringify (arr xs) = "[" ++ join (stringify_items xs) ++ "]"
    stable_stringify (obj r) = "{" ++ join (entries (sort (stringify_fields r))) ++ "}"

    pub stringify_items : Items → List String
    stringify_items nil = []
    stringify_items (cons v vs) = stable_stringify v ∷ stringify_items vs

    pub stringify_fields : JsonRecord → Written
    stringify_fields end = []
    stringify_fields (field k undefined r) = stringify_fields r
    stringify_fields (field k null r) = (k, "null") ∷ stringify_fields r
    stringify_fields (field k (bool b) r) = (k, stable_stringify (bool b)) ∷ stringify_fields r
    stringify_fields (field k (num n) r) = (k, stable_stringify (num n)) ∷ stringify_fields r
    stringify_fields (field k (text s) r) = (k, stable_stringify (text s)) ∷ stringify_fields r
    stringify_fields (field k (arr xs) r) = (k, stable_stringify (arr xs)) ∷ stringify_fields r
    stringify_fields (field k (obj o) r) = (k, stable_stringify (obj o)) ∷ stringify_fields r
