-- ===== src/Domain/Dates.antt =====
-- The dates that the program reads and writes as texts. `Date.parse` and `toISOString` are arguments
-- of the model, so that a theorem holds for every way of reading a text as a date. An instant is
-- counted in milliseconds from the earliest date that JavaScript has; `none` is NaN.
use access_kit.Prelude.{ℕ, String, Bool, false, Option, none, some, ltb, leb}

pub record Dates : Type 0 where
  pub parse : String → Option ℕ
  pub to_iso_string : ℕ → String

-- `a > b` and `a <= b` on numbers that may be NaN, where every comparison is false.
abbrev pub later : Option ℕ → Option ℕ → Bool
later none b = false
later (some a) none = false
later (some a) (some b) = ltb b a

abbrev pub at_most : Option ℕ → Option ℕ → Bool
at_most none b = false
at_most (some a) none = false
at_most (some a) (some b) = leb a b
