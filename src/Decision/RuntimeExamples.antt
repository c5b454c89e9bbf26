-- ===== src/Decision/RuntimeExamples.antt =====
-- Bounds, targets and cache metadata at concrete inputs.
use access_kit.Prelude.{ℕ, inl, String, Option, none, some, ◌≡◌, refl, arith}
use access_kit.Domain.Json.{JsonRecord}
use access_kit.Decision.Runtime.Guard.{default_traversal_bounds}
use access_kit.Decision.Runtime.CacheMetadata.{
  whole, other_number, PartialBounds, merge_traversal_bounds, normalize_classification,
  CacheMetadata, create_cache_metadata,
}
use access_kit.Decision.Runtime.Limits.{
  ArePositive, merge_traversal_bounds-ArePositive, HasNoEnd, create_cache_metadata-throws,
}
use access_kit.Decision.Examples.{dates, request, pins}

-- A depth of zero, and a number of scans that is no whole number.
abbrev overrides : PartialBounds
overrides = record {
  max_depth = some (whole 0);
  max_relationship_scans = some other_number;
  max_visited_nodes = some (whole 7);
}

merge_traversal_bounds-ArePositive_example :
    ArePositive (merge_traversal_bounds default_traversal_bounds (some overrides))
merge_traversal_bounds-ArePositive_example =
    merge_traversal_bounds-ArePositive default_traversal_bounds (some overrides)
      (ground arith, ground arith, ground arith)

abbrev same : String → String
same = λ s. s

abbrev digest : JsonRecord → String
digest = λ r. "digest"

abbrev made : String → Option CacheMetadata
made classification =
    create_cache_metadata dates same same digest (request "plan") pins "2" none
      (some classification)

abbrev ThrowsAtTwo : Type 0
ThrowsAtTwo =
    (made "constructor" ≡ none
      → (at : ℕ) × (dates.parse "2" ≡ some at)
        × HasNoEnd dates same same digest (request "plan") pins "2" none (some "constructor") at)
    × ((at : ℕ)
        → dates.parse "2" ≡ some at
        → HasNoEnd dates same same digest (request "plan") pins "2" none (some "constructor") at
        → made "constructor" ≡ none)

create_cache_metadata-throws_example : ThrowsAtTwo
create_cache_metadata-throws_example =
    create_cache_metadata-throws dates same same digest (request "plan") pins "2" none
      (some "constructor")

constructor_name :
    normalize_classification dates same same digest (some "constructor") ≡ "constructor"
unfolding normalize_classification
constructor_name = refl

constructor_throws : made "constructor" ≡ none
constructor_throws =
    (create_cache_metadata-throws dates same same digest (request "plan") pins "2" none
        (some "constructor")).1
      2 refl (inl (inl constructor_name))
