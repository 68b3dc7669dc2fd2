-- ===== src/Forensic/Mft/Failures.antt =====
-- What may escape from the $MFT parser of ntfs_mft.py: the KeyError of `item["parsed"]` and no
-- other exception, and the parser always ends.
use dfir_investigation_workb.Prelude.{
  List, Option, Text, [], arith, err, false, leb, length, ltb, ok, refl, slice, suc, true, zero, ℕ,
  ◌+◌, ◌<◌, ◌||◌, ◌∷◌, ◌≡◌, ◌≤◌,
}
use dfir_investigation_workb.Forensic.Bytes.{
  Bytes, Parse, ParseError, index_error, key_error, out_of_fuel, structure_error, uint16, uint32,
  uint64, unicode_error, zero_division,
}
use dfir_investigation_workb.Forensic.Raises.{
  handled, handled_or_key, handled_or_key-handled, uint16-handled, uint32-handled, uint64-handled,
}
use dfir_investigation_workb.Forensic.Mft.Layout.{InputLayout}
use dfir_investigation_workb.Forensic.Mft.Attributes.{Attribute}
use dfir_investigation_workb.Forensic.Mft.Table.{
  MftRecord, attributes, attributes_loop, file_names, first_standard, parsed_content, read_record,
}
use dfir_investigation_workb.Forensic.Mft.Stream.{Progress, read_at, scan, settle, visit}
use dfir_investigation_workb.Forensic.Mft.DataRunFailures.{apply_fixup-handled}
use dfir_investigation_workb.Forensic.Mft.AttributeFailures.{read_attribute-handled}

module _ (rec : Bytes) (used_size : ℕ) (fits : used_size ≤ length rec) where
  -- One round: the attribute that is read lies before `used_size`, and so does the next offset.
  attributes_loop-handled :
      (fuel offset : ℕ) (items : List Attribute) (warnings : List Text) (e : ParseError)
      → offset ≤ used_size
      → used_size < fuel + offset
      → attributes_loop rec used_size fuel offset items warnings ≡ err e
      → handled e ≡ true
  unfolding attributes_loop
  attributes_loop-handled zero offset items warnings e below enough h = absurd (omega arith)
  attributes_loop-handled (suc fuel) offset items warnings e below enough h = grind (
    arith,
    uint32-handled rec offset e,
    uint32-handled rec (offset + 4) e,
    read_attribute-handled rec offset,
    attributes_loop-handled fuel,
  )

first_standard-handled :
    (items : List Attribute) (e : ParseError)
    → first_standard items ≡ err e
    → handled_or_key e ≡ true
unfolding first_standard parsed_content
first_standard-handled [] e h = cc
first_standard-handled (item ∷ rest) e h = ground (arith, first_standard-handled rest e)

file_names-handled :
    (items : List Attribute) (e : ParseError) → file_names items ≡ err e → handled_or_key e ≡ true
unfolding file_names parsed_content
file_names-handled [] e h = cc
file_names-handled (item ∷ rest) e h = ground (arith, file_names-handled rest e)

word16-handled :
    (rec : Bytes) (offset : ℕ) (e : ParseError)
    → uint16 rec offset ≡ err e
    → handled_or_key e ≡ true
word16-handled rec offset e h = handled_or_key-handled e (uint16-handled rec offset e h)

word32-handled :
    (rec : Bytes) (offset : ℕ) (e : ParseError)
    → uint32 rec offset ≡ err e
    → handled_or_key e ≡ true
word32-handled rec offset e h = handled_or_key-handled e (uint32-handled rec offset e h)

word64-handled :
    (rec : Bytes) (offset : ℕ) (e : ParseError)
    → uint64 rec offset ≡ err e
    → handled_or_key e ≡ true
word64-handled rec offset e h = handled_or_key-handled e (uint64-handled rec offset e h)

attributes-handled :
    (rec : Bytes) (first used : ℕ) (e : ParseError)
    → (ltb first 48 || (ltb (length rec) used || leb used first)) ≡ false
    → attributes rec first used [] ≡ err e
    → handled_or_key e ≡ true
unfolding attributes
attributes-handled rec first used e bounded h = handled_or_key-handled e (
    attributes_loop-handled rec used (ground (arith, bounded)) (suc used) first [] [] e
      (ground (arith, bounded)) (ground (arith, bounded)) h)

read_record-handled :
    (rec : Bytes) (offset : ℕ) (e : ParseError)
    → read_record rec offset ≡ err e
    → handled_or_key e ≡ true
unfolding read_record
read_record-handled rec offset e h = grind (
  arith,
  word16-handled rec 16 e,
  word16-handled rec 18 e,
  word16-handled rec 20 e,
  word16-handled rec 22 e,
  word32-handled rec 24 e,
  word32-handled rec 28 e,
  word32-handled rec 44 e,
  word64-handled rec 32 e,
  attributes-handled rec,
  first_standard-handled,
  file_names-handled,
)

settle-escapes :
    (offset : ℕ) (progress : Progress) (m : Parse (MftRecord × List Text)) (e : ParseError)
    → ((e' : ParseError) → m ≡ err e' → handled_or_key e' ≡ true)
    → settle offset progress m ≡ err e
    → e ≡ key_error
unfolding settle
settle-escapes offset (rs, ws) (ok a) e safe h = cc
settle-escapes offset (rs, ws) (err (structure_error m)) e safe h = cc
settle-escapes offset (rs, ws) (err unicode_error) e safe h = cc
settle-escapes offset (rs, ws) (err key_error) e safe h = cc
settle-escapes offset (rs, ws) (err index_error) e safe h = cc (safe index_error refl)
settle-escapes offset (rs, ws) (err zero_division) e safe h = cc (safe zero_division refl)
settle-escapes offset (rs, ws) (err out_of_fuel) e safe h = cc (safe out_of_fuel refl)

read_at-handled :
    (raw : Bytes) (sector : Option ℕ) (offset : ℕ) (e : ParseError)
    → read_at raw sector offset ≡ err e
    → handled_or_key e ≡ true
unfolding read_at
read_at-handled raw sector offset e h =
    grind (arith, handled_or_key-handled e, apply_fixup-handled raw sector e, read_record-handled)

visit-escapes :
    (source : Bytes) (l : InputLayout) (offset : ℕ) (progress : Progress) (e : ParseError)
    → visit source l offset progress ≡ err e
    → e ≡ key_error
unfolding visit
visit-escapes source l offset progress e h =
    let raw = slice offset (offset + l.record_size) source in
    ground (
      arith,
      settle-escapes offset progress (read_at raw l.bytes_per_sector offset) e
          (read_at-handled raw l.bytes_per_sector offset),
    )

module _ (source : Bytes) (l : InputLayout) (positive : 0 < l.record_size) where
  pub scan-escapes :
      (fuel offset examined : ℕ) (progress : Progress) (e : ParseError)
      → 0 < fuel
      → length source < fuel + offset
      → scan source l fuel offset examined progress ≡ err e
      → e ≡ key_error
  unfolding scan
  scan-escapes zero offset examined progress e some_fuel enough h = absurd (omega arith)
  scan-escapes (suc fuel) offset examined progress e some_fuel enough h =
      grind
        (arith, visit-escapes source l offset progress, scan-escapes fuel (offset + l.record_size))
