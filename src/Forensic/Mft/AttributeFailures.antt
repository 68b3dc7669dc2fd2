-- ===== src/Forensic/Mft/AttributeFailures.antt =====
-- The exceptions of the attribute and record readers of ntfs_mft.py: no index is out of range and
-- the loop over the attributes ends.
use dfir_investigation_workb.Prelude.{
  Bool, List, String, Text, arith, err, false, length, true, ℕ, ◌+◌, ◌≡◌, ◌≤◌,
}
use dfir_investigation_workb.Forensic.Bytes.{Bytes, ParseError}
use dfir_investigation_workb.Forensic.Raises.{
  byte_at-in_range, decode_utf16-handled, handled, uint16-handled, uint32-handled, uint64-handled,
}
use dfir_investigation_workb.Forensic.Mft.Attributes.{
  attribute_name, file_name, non_resident, parse_value, resident, standard_information, timestamp,
  timestamps,
}
use dfir_investigation_workb.Forensic.Mft.Table.{attribute_content, read_attribute}
use dfir_investigation_workb.Forensic.Mft.DataRunFailures.{data_runs-handled}

timestamp-handled :
    (value : Bytes) (offset : ℕ) (warnings : List Text) (family name : String) (e : ParseError)
    → timestamp value offset warnings family name ≡ err e
    → handled e ≡ true
unfolding timestamp
timestamp-handled value offset warnings family name e h =
    ground (arith, uint64-handled value offset e)

timestamps-handled :
    (value : Bytes) (offset : ℕ) (warnings : List Text) (family : String) (e : ParseError)
    → timestamps value offset warnings family ≡ err e
    → handled e ≡ true
unfolding timestamps
timestamps-handled value offset warnings family e h = grind (arith, timestamp-handled)

standard_information-handled :
    (value : Bytes) (warnings : List Text) (e : ParseError)
    → standard_information value warnings ≡ err e
    → handled e ≡ true
unfolding standard_information
standard_information-handled value warnings e h = ground (
  arith,
  timestamps-handled value 0 warnings "$STANDARD_INFORMATION" e,
  uint32-handled value 32 e,
)

file_name-handled :
    (value : Bytes) (warnings : List Text) (e : ParseError)
    → file_name value warnings ≡ err e
    → handled e ≡ true
unfolding file_name
file_name-handled value warnings e h = grind (
  arith,
  byte_at-in_range value 64 e,
  byte_at-in_range value 65 e,
  uint64-handled value 0 e,
  uint64-handled value 40 e,
  uint64-handled value 48 e,
  uint32-handled value 56 e,
  timestamps-handled value 8 warnings "$FILE_NAME" e,
  decode_utf16-handled,
)

non_resident-handled :
    (rec : Bytes) (offset size : ℕ) (e : ParseError)
    → non_resident rec offset size ≡ err e
    → handled e ≡ true
unfolding non_resident
non_resident-handled rec offset size e h = grind (
  arith,
  uint16-handled rec (offset + 32) e,
  uint64-handled rec (offset + 16) e,
  uint64-handled rec (offset + 24) e,
  uint64-handled rec (offset + 40) e,
  uint64-handled rec (offset + 48) e,
  uint64-handled rec (offset + 56) e,
  data_runs-handled,
)

attribute_name-handled :
    (rec : Bytes) (offset size name_length name_offset : ℕ) (e : ParseError)
    → attribute_name rec offset size name_length name_offset ≡ err e
    → handled e ≡ true
unfolding attribute_name
attribute_name-handled rec offset size name_length name_offset e h =
    grind (arith, decode_utf16-handled)

parse_value-handled :
    (type_code : ℕ) (value : Bytes) (warnings : List Text) (e : ParseError)
    → parse_value type_code value warnings ≡ err e
    → handled e ≡ true
unfolding parse_value
parse_value-handled type_code value warnings e h =
    ground
      (arith, standard_information-handled value warnings e, file_name-handled value warnings e)

resident-handled :
    (rec : Bytes) (offset size type_code : ℕ) (warnings : List Text) (e : ParseError)
    → resident rec offset size type_code warnings ≡ err e
    → handled e ≡ true
unfolding resident
resident-handled rec offset size type_code warnings e h = grind (
  arith,
  uint32-handled rec (offset + 16) e,
  uint16-handled rec (offset + 20) e,
  parse_value-handled,
)

attribute_content-handled :
    (flag : Bool) (rec : Bytes) (offset size type_code : ℕ) (warnings : List Text) (e : ParseError)
    → attribute_content flag rec offset size type_code warnings ≡ err e
    → handled e ≡ true
unfolding attribute_content
attribute_content-handled true rec offset size type_code warnings e h =
    ground (arith, non_resident-handled rec offset size e)
attribute_content-handled false rec offset size type_code warnings e h =
    resident-handled rec offset size type_code warnings e h

-- The header of an attribute of 24 bytes or more lies in the record.
pub read_attribute-handled :
    (rec : Bytes) (offset size type_code : ℕ) (warnings : List Text) (e : ParseError)
    → 24 ≤ size
    → offset + size ≤ length rec
    → read_attribute rec offset size type_code warnings ≡ err e
    → handled e ≡ true
unfolding read_attribute
read_attribute-handled rec offset size type_code warnings e large fits h = grind (
  arith,
  byte_at-in_range rec (offset + 8) e,
  byte_at-in_range rec (offset + 9) e,
  uint16-handled rec (offset + 10) e,
  uint16-handled rec (offset + 12) e,
  uint16-handled rec (offset + 14) e,
  attribute_name-handled,
  attribute_content-handled,
)
