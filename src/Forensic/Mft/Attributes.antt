-- ===== src/Forensic/Mft/Attributes.antt =====
-- `_attributes`, `_standard_information`, `_file_name`, `_timestamps`, `_non_resident` and
-- `_reference` of backend/app/forensic/ntfs_mft.py. `warnings` is passed through and returned.
use dfir_investigation_workb.Prelude.{
  Bool, Datetime, List, Option, String, Text, [], false, if◌then◌else◌, leb, length, lit, ltb, none,
  ok, slice, some, true, ℕ, ◌%◌, ◌*◌, ◌++◌, ◌+◌, ◌/◌, ◌==◌, ◌>>=◌, ◌>>◌, ◌^◌, ◌||◌, ◌∷◌,
}
use dfir_investigation_workb.Forensic.Bytes.{
  Bytes, Parse, byte_at, decode_utf16, filetime, reject_if, uint16, uint32, uint64,
}
use dfir_investigation_workb.Forensic.Mft.Runs.{DataRun, data_runs}

abbrev pub max_attributes : ℕ
max_attributes = 1024

pub record Reference : Type 0 where
  pub record_number : ℕ
  pub sequence_number : ℕ

-- `_reference`
unfoldable pub reference : ℕ → Reference
reference value = record { record_number = value % 2 ^ 48; sequence_number = value / 2 ^ 48 }

-- One entry of the dictionary of `_timestamps`: the time and the raw FILETIME.
abbrev pub Stamp : Type 0
Stamp = Option Datetime × Option ℕ

pub record Timestamps : Type 0 where
  pub creation_time : Stamp
  pub modification_time : Stamp
  pub mft_change_time : Stamp
  pub access_time : Stamp

-- `parsed is None and raw is not None`
abbrev pub unrepresentable : Stamp → Bool
unrepresentable (none, some raw) = true
unrepresentable (none, none) = false
unrepresentable (some time, raw) = false

unfoldable pub timestamp : Bytes → ℕ → List Text → String → String → Parse (Stamp × List Text)
timestamp value offset warnings family name = do
  word ← uint64 value offset
  let stamp = filetime word
  let message = lit family ++ (lit " " ++ (lit name ++ lit " FILETIME could not be represented"))
  ok (stamp, if unrepresentable stamp then warnings ++ message ∷ [] else warnings)

-- `_timestamps`
unfoldable pub timestamps : Bytes → ℕ → List Text → String → Parse (Timestamps × List Text)
timestamps value offset warnings family = do
  (creation, w1) ← timestamp value offset warnings family "creation_time"
  (modification, w2) ← timestamp value (offset + 8) w1 family "modification_time"
  (change, w3) ← timestamp value (offset + 16) w2 family "mft_change_time"
  (access, w4) ← timestamp value (offset + 24) w3 family "access_time"
  let times : Timestamps = record {
    creation_time = creation;
    modification_time = modification;
    mft_change_time = change;
    access_time = access;
  }
  ok (times, w4)

pub record StandardInformation : Type 0 where
  pub times : Timestamps
  pub file_attributes : ℕ

-- `_standard_information`
unfoldable pub standard_information : Bytes → List Text → Parse (StandardInformation × List Text)
standard_information value warnings = do
  reject_if (ltb (length value) 36) "$STANDARD_INFORMATION is truncated"
  (times, warnings') ← timestamps value 0 warnings "$STANDARD_INFORMATION"
  attributes ← uint32 value 32
  ok (record { times = times; file_attributes = attributes }, warnings')

pub data Namespace : Type 0 where
  posix win32 dos win32_and_dos : Namespace
  unknown : ℕ → Namespace

unfoldable pub namespace_name : ℕ → Namespace
namespace_name n =
    if n == 0
    then posix
    else if n == 1
    then win32
    else if n == 2
    then dos
    else if n == 3
    then win32_and_dos
    else unknown n

pub record FileName : Type 0 where
  pub parent_directory_reference : Reference
  pub times : Timestamps
  pub allocated_size : ℕ
  pub logical_size : ℕ
  pub file_attributes : ℕ
  pub namespace : Namespace
  pub filename : Text

-- `_file_name`
unfoldable pub file_name : Bytes → List Text → Parse (FileName × List Text)
file_name value warnings = do
  reject_if (ltb (length value) 66) "$FILE_NAME is truncated"
  name_length ← byte_at value 64
  let end = 66 + name_length * 2
  reject_if (ltb (length value) end) "$FILE_NAME name is truncated"
  namespace ← byte_at value 65
  parent ← uint64 value 0
  (times, warnings') ← timestamps value 8 warnings "$FILE_NAME"
  allocated ← uint64 value 40
  logical ← uint64 value 48
  attributes ← uint32 value 56
  filename ← decode_utf16 (slice 66 end value)
  let parsed : FileName = record {
    parent_directory_reference = reference parent;
    times = times;
    allocated_size = allocated;
    logical_size = logical;
    file_attributes = attributes;
    namespace = namespace_name namespace;
    filename = filename;
  }
  ok (parsed, warnings')

pub record NonResident : Type 0 where
  pub start_vcn : ℕ
  pub last_vcn : ℕ
  pub allocated_size : ℕ
  pub logical_size : ℕ
  pub initialized_size : ℕ
  pub runs : List DataRun

-- `_non_resident`
unfoldable pub non_resident : Bytes → ℕ → ℕ → Parse NonResident
non_resident rec offset size = do
  reject_if (ltb size 64) "non-resident MFT attribute is truncated"
  run_offset ← uint16 rec (offset + 32)
  reject_if (ltb run_offset 64 || leb size run_offset) "non-resident data-run offset is invalid"
  start ← uint64 rec (offset + 16)
  last ← uint64 rec (offset + 24)
  allocated ← uint64 rec (offset + 40)
  logical ← uint64 rec (offset + 48)
  initialized ← uint64 rec (offset + 56)
  runs ← data_runs (slice (offset + run_offset) (offset + size) rec)
  ok (record {
    start_vcn = start;
    last_vcn = last;
    allocated_size = allocated;
    logical_size = logical;
    initialized_size = initialized;
    runs = runs;
  })

-- `item["parsed"]` of a resident attribute
pub data Parsed : Type 0 where
  not_parsed : Parsed
  standard : StandardInformation → Parsed
  name_parsed : FileName → Parsed

pub data Content : Type 0 where
  outside : NonResident → Content
  -- `resident_value_length`, and for $DATA the same number as `resident_data_length`
  inside : ℕ → Parsed → Content

pub record Attribute : Type 0 where
  pub type_code : ℕ
  pub attribute_id : ℕ
  pub name : Option Text
  pub flags : ℕ
  pub content : Content

-- The name of an attribute, if its length is not 0.
unfoldable pub attribute_name : Bytes → ℕ → ℕ → ℕ → ℕ → Parse (Option Text)
attribute_name rec offset size name_length name_offset = if name_length == 0 then ok none else do
  let end = offset + name_offset + name_length * 2
  reject_if (ltb name_offset 16 || ltb (offset + size) end) "invalid MFT attribute name"
  name ← decode_utf16 (slice (offset + name_offset) end rec)
  ok (some name)

-- The value of a resident attribute, parsed by its type.
unfoldable pub parse_value : ℕ → Bytes → List Text → Parse (Parsed × List Text)
parse_value type_code value warnings =
    if type_code == 0x10
    then (do (s, w) ← standard_information value warnings; ok (standard s, w))
    else if type_code == 0x30
    then (do (f, w) ← file_name value warnings; ok (name_parsed f, w))
    else ok (not_parsed, warnings)

unfoldable pub resident : Bytes → ℕ → ℕ → ℕ → List Text → Parse (Content × List Text)
resident rec offset size type_code warnings = do
  value_length ← uint32 rec (offset + 16)
  value_offset ← uint16 rec (offset + 20)
  let end = offset + value_offset + value_length
  reject_if (ltb value_offset 24 || ltb (offset + size) end) "invalid resident MFT attribute bounds"
  (parsed, warnings') ← parse_value type_code (slice (offset + value_offset) end rec) warnings
  ok (inside value_length parsed, warnings')
