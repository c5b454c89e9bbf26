-- ===== src/Decision/Caveats/Values.antt =====
-- directAndAttributeRecord, valueAt and the equality of values, in packages/core/src/engine.ts.
use access_kit.Prelude.{
  String, Bool, true, false, not, ◌&&◌, ◌||◌, if◌then◌else◌, Option, none, some, ◌==◌, ◌otherwise◌,
}
use access_kit.Domain.{Subject, Resource, RelationshipTuple, lifecycle_text, tuple_status_text}
use access_kit.Domain.Json.{
  JsonRecord, end, Json, undefined, null, bool, num, text, arr, obj, Items, nil, cons, value_of,
  put, has_own, number_le, JsNumber,
}

abbrev optional_text : Option String → Json
optional_text none = undefined
optional_text (some s) = text s

-- `{ ...attributes, status, lifecycleState, classification, assertedAt, expiresAt }`.
abbrev overlay : Option JsonRecord → Json → Json → Json → Json → Json → JsonRecord
overlay attributes status lifecycle_state classification asserted_at expires_at =
    put
      (put
        (put (put (put (attributes otherwise end) "status" status) "lifecycleState" lifecycle_state)
          "classification" classification)
        "assertedAt" asserted_at)
      "expiresAt" expires_at

-- directAndAttributeRecord for each kind of entity.
unfoldable pub subject_record : Option Subject → Option JsonRecord
subject_record none = none
subject_record (some s) = some (
    overlay s.attributes undefined (text (lifecycle_text s.lifecycle_state)) undefined undefined
      undefined)

unfoldable pub resource_record : Option Resource → Option JsonRecord
resource_record none = none
resource_record (some r) = some (
    overlay r.attributes undefined (text (lifecycle_text r.lifecycle_state)) (text r.classification)
      undefined undefined)

unfoldable pub relationship_record : RelationshipTuple → Option JsonRecord
relationship_record r = some (
    overlay r.attributes (text (tuple_status_text r.status)) undefined undefined
      (text r.asserted_at) (optional_text r.expires_at))

-- `none` for `{ present: false }`.
abbrev present_value : Json → Option Json
present_value undefined = none
present_value null = none
present_value (bool b) = some (bool b)
present_value (num n) = some (num n)
present_value (text s) = some (text s)
present_value (arr xs) = some (arr xs)
present_value (obj r) = some (obj r)

-- The members that a record has from Object.prototype.
abbrev is_inherited : String → Bool
is_inherited key =
    key == "constructor"
    || key == "__proto__"
    || key == "hasOwnProperty"
    || key == "isPrototypeOf"
    || key == "propertyIsEnumerable"
    || key == "toLocaleString"
    || key == "toString"
    || key == "valueOf"
    || key == "__defineGetter__"
    || key == "__defineSetter__"
    || key == "__lookupGetter__"
    || key == "__lookupSetter__"

-- `record[key]`. An inherited member is a function or an object, of which only that no context type and
-- no operator fits it is used: it stands for every one as an empty object.
abbrev looked_up : JsonRecord → String → Json
looked_up r key = if not (has_own r key) && is_inherited key then obj end else value_of r key

unfoldable pub value_at : Option JsonRecord → String → Option Json
value_at none key = none
value_at (some r) key = present_value (looked_up r key)

abbrev same_bool : Bool → Bool → Bool
same_bool true b = b
same_bool false b = not b

-- `a === b`; two arrays or objects are never the same object here.
unfoldable pub strictly_equal : Json → Json → Bool
strictly_equal undefined undefined = true
strictly_equal null null = true
strictly_equal (bool a) (bool b) = same_bool a b
strictly_equal (num a) (num b) = number_le a b && number_le b a
strictly_equal (text a) (text b) = a == b
strictly_equal _ _ = false

unfoldable pub some_item : Json → Items → Bool
some_item actual nil = false
some_item actual (cons v vs) = strictly_equal v actual || some_item actual vs

abbrev pub one_of_items : Json → Json → Bool
one_of_items actual (arr xs) = some_item actual xs
one_of_items actual _ = false

abbrev pub both_numbers : (JsNumber → JsNumber → Bool) → Json → Json → Bool
both_numbers p (num a) (num b) = p a b
both_numbers p _ _ = false

abbrev pub both_texts : (String → String → Bool) → Json → Json → Bool
both_texts p (text a) (text b) = p a b
both_texts p _ _ = false
