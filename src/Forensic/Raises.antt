-- ===== src/Forensic/Raises.antt =====
-- Which exceptions the binary readers may raise: only those that the parsers' except clauses name.
use dfir_investigation_workb.Prelude.{
  Bool, [], arith, err, false, get_elem?-lt, length, ok, refl, true, ℕ, ◌<◌, ◌>>=◌, ◌∷◌, ◌≡◌,
}
use dfir_investigation_workb.Forensic.Bytes.{
  Bytes, Parse, ParseError, byte_at, decode_utf16, index_error, key_error, out_of_fuel,
  structure_error, uint16, uint32, uint64, unicode_error, unpack_from, zero_division,
}

-- StructureError and UnicodeError, the exceptions that the parsers' except clauses name
abbrev pub handled : ParseError → Bool
handled (structure_error message) = true
handled unicode_error = true
handled index_error = false
handled key_error = false
handled zero_division = false
handled out_of_fuel = false

-- those, and a KeyError
abbrev pub handled_or_key : ParseError → Bool
handled_or_key (structure_error message) = true
handled_or_key unicode_error = true
handled_or_key index_error = false
handled_or_key key_error = true
handled_or_key zero_division = false
handled_or_key out_of_fuel = false

pub handled_or_key-handled : (e : ParseError) → handled e ≡ true → handled_or_key e ≡ true
handled_or_key-handled e h = ground arith

module _ (bs : Bytes) where
  pub unpack_from-handled :
      (size offset : ℕ) (e : ParseError) → unpack_from size bs offset ≡ err e → handled e ≡ true
  unfolding unpack_from
  unpack_from-handled size offset e h = ground arith

  pub uint16-handled : (offset : ℕ) (e : ParseError) → uint16 bs offset ≡ err e → handled e ≡ true
  unfolding uint16 unpack_from
  uint16-handled offset e h = ground arith

  pub uint32-handled : (offset : ℕ) (e : ParseError) → uint32 bs offset ≡ err e → handled e ≡ true
  unfolding uint32 unpack_from
  uint32-handled offset e h = ground arith

  pub uint64-handled : (offset : ℕ) (e : ParseError) → uint64 bs offset ≡ err e → handled e ≡ true
  unfolding uint64 unpack_from
  uint64-handled offset e h = ground arith

  -- an index in range does not raise
  pub byte_at-in_range :
      (index : ℕ) (e : ParseError) → index < length bs → byte_at bs index ≡ err e → ⊥
  unfolding byte_at
  byte_at-in_range index e h q = let (b, found) = get_elem?-lt bs index h in ground (arith, found)

pub decode_utf16-handled :
    (bs : Bytes) (e : ParseError) → decode_utf16 bs ≡ err e → handled e ≡ true
unfolding decode_utf16
decode_utf16-handled [] e h = ground arith
decode_utf16-handled (a ∷ []) e h = ground arith
decode_utf16-handled (a ∷ b ∷ []) e h = ground arith
decode_utf16-handled (a ∷ b ∷ c ∷ []) e h = ground arith
decode_utf16-handled (a ∷ b ∷ c ∷ d ∷ rest) e h =
    ground (arith, decode_utf16-handled (c ∷ d ∷ rest) e, decode_utf16-handled rest e)

-- A chain raises what its steps raise.
pub bind-handled {ℓ κ} :
    {A : Type ℓ} {B : Type κ} (m : Parse A) (f : A → Parse B)
    → ((e : ParseError) → m ≡ err e → handled e ≡ true)
    → ((a : A) (e : ParseError) → f a ≡ err e → handled e ≡ true)
    → (e : ParseError) → (m >>= f) ≡ err e
    → handled e ≡ true
bind-handled (ok a) f hm hf e h = hf a e h
bind-handled (err x) f hm hf e h = ground (arith, hm x refl)

pub ruleset handled_rules =
    (arith, uint16-handled, uint32-handled, uint64-handled, byte_at-in_range, decode_utf16-handled)
