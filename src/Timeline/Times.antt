-- ===== src/Timeline/Times.antt =====
-- `_aware`, `_aware_iso` and `_iso_precision` of backend/app/services/timeline_normalizer.py, and
-- what the normalizer takes of Python.
use dfir_investigation_workb.Prelude.{
  Bool, Datetime, Option, Text, [], if◌then◌else◌, lit, none, not, some, ℕ, ◌&&◌, ◌++◌, ◌+◌, ◌==◌,
  ◌∷◌,
}
use dfir_investigation_workb.Domain.{TimestampPrecision}
use dfir_investigation_workb.Json.{Value}

-- a `datetime`, with or without an offset from UTC
pub data Moment : Type 0 where
  aware naive : Datetime → Moment

-- What the normalizer calls of Python and the Unicode tables: `str.casefold`, `str.isdecimal` of a
-- character, `datetime.fromisoformat` (nothing for a ValueError) and `str` of a JSON value.
pub record Python : Type 0 where
  pub casefold : Text → Text
  pub is_decimal : ℕ → Bool
  pub fromisoformat : Text → Option Moment
  pub str : Value → Text

-- `_aware`
unfoldable pub aware_time : Option Moment → Option Datetime
aware_time none = none
aware_time (some (naive t)) = none
aware_time (some (aware t)) = some t

-- `value.replace("Z", "+00:00")`
unfoldable pub replace_z : Text → Text
replace_z [] = []
replace_z (c ∷ cs) = let rest = replace_z cs in if c == b'Z' then lit "+00:00" ++ rest else c ∷ rest

-- the number of characters that satisfy the test, from the first on
unfoldable pub run_length : (ℕ → Bool) → Text → ℕ
run_length test [] = 0
run_length test (c ∷ cs) = let rest = run_length test cs in if test c then rest + 1 else 0

-- one character of a pattern
unfoldable pub expect : (ℕ → Bool) → Option Text → Option Text
expect test none = none
expect test (some []) = none
expect test (some (c ∷ cs)) = if test c then some cs else none

-- the digits of the group: nothing where the group did not take part
unfoldable pub fraction_digits : (ℕ → Bool) → Text → Option ℕ
unfolding run_length
fraction_digits is_decimal [] = none
fraction_digits is_decimal (c ∷ cs) =
    let digits = run_length is_decimal cs in
    if (c == b'.') && not (digits == 0) then some digits else none

-- `T\d{2}:\d{2}:\d{2}` at the start of a text: what follows
unfoldable pub match_time : (ℕ → Bool) → Text → Option Text
unfolding expect
match_time d text = expect d (
    expect d (
      expect (λ c. c == b':')
        (expect d (
          expect d (
            expect (λ c. c == b':') (expect d (expect d (expect (λ c. c == b'T') (some text)))))))))

-- `re.search`: the first place where the pattern matches
unfoldable pub search_time : (ℕ → Bool) → Text → Option (Option ℕ)
unfolding match_time fraction_digits
search_time is_decimal [] = none
search_time is_decimal (c ∷ cs) =
    let rest = search_time is_decimal cs in
    elim (match_time is_decimal (c ∷ cs)) [
      | none ↦ rest
      | some behind ↦ some (fraction_digits is_decimal behind)
    ]

unfoldable pub precision_of : Option (Option ℕ) → TimestampPrecision
precision_of none = TimestampPrecision.unknown_precision
precision_of (some none) = TimestampPrecision.second
precision_of (some (some n)) =
    if n == 3
    then TimestampPrecision.millisecond
    else if n == 6
    then TimestampPrecision.microsecond
    else if n == 7
    then TimestampPrecision.hundred_nanosecond
    else TimestampPrecision.unknown_precision

module _ (python : Python) where
  -- `_aware_iso`
  unfoldable pub aware_iso : Option Text → Option Datetime
  unfolding aware_time replace_z
  aware_iso none = none
  aware_iso (some value) = aware_time (python.fromisoformat (replace_z value))

  -- `_iso_precision`
  unfoldable pub iso_precision : Option Text → TimestampPrecision
  unfolding precision_of search_time
  iso_precision none = TimestampPrecision.unknown_precision
  iso_precision (some value) = precision_of (search_time python.is_decimal value)
