-- ===== src/Forensic/Mft/Table.antt =====
-- The loop of `_attributes` and `_record` of backend/app/forensic/ntfs_mft.py.
use dfir_investigation_workb.Prelude.{
  Bool, List, Option, Text, [], err, false, if◌then◌else◌, leb, length, lit, ltb, none, not, ok,
  some, suc, true, zero, ℕ, ◌%◌, ◌++◌, ◌+◌, ◌/◌, ◌==◌, ◌>>=◌, ◌>>◌, ◌||◌, ◌∷◌,
}
use dfir_investigation_workb.Forensic.Bytes.{
  Bytes, Parse, byte_at, key_error, out_of_fuel, reject_if, structure_error, uint16, uint32, uint64,
}
use dfir_investigation_workb.Forensic.Mft.Attributes.{
  Attribute, Content, Parsed, Reference, attribute_name, inside, max_attributes, non_resident,
  not_parsed, outside, reference, resident,
}

unfoldable pub attribute_content :
    Bool → Bytes → ℕ → ℕ → ℕ → List Text → Parse (Content × List Text)
attribute_content true rec offset size type_code warnings = do
  n ← non_resident rec offset size
  ok (outside n, warnings)
attribute_content false rec offset size type_code warnings =
    resident rec offset size type_code warnings

-- The attribute at `offset`, of `size` bytes.
unfoldable pub read_attribute : Bytes → ℕ → ℕ → ℕ → List Text → Parse (Attribute × List Text)
read_attribute rec offset size type_code warnings = do
  non_resident_flag ← byte_at rec (offset + 8)
  name_length ← byte_at rec (offset + 9)
  name_offset ← uint16 rec (offset + 10)
  name ← attribute_name rec offset size name_length name_offset
  attribute_id ← uint16 rec (offset + 14)
  flags ← uint16 rec (offset + 12)
  (content, warnings') ←
      attribute_content (not (non_resident_flag == 0)) rec offset size type_code warnings
  let item : Attribute = record {
    type_code = type_code;
    attribute_id = attribute_id;
    name = name;
    flags = flags;
    content = content;
  }
  ok (item, warnings')

-- The loop of `_attributes` on fuel: each round moves the offset by 24 bytes at least.
unfoldable pub attributes_loop :
    Bytes → ℕ → ℕ → ℕ → List Attribute → List Text → Parse (List Attribute × List Text)
attributes_loop rec used_size zero offset items warnings = err out_of_fuel
attributes_loop rec used_size (suc fuel) offset items warnings = elim (ltb used_size (offset + 8)) [
  | true ↦ err (structure_error (lit "MFT attribute terminator is missing"))
  | false ↦ uint32 rec offset >>= λ type_code. elim (type_code == 0xffffffff) [
    | true ↦ ok (items, warnings)
    | false ↦ uint32 rec (offset + 4) >>= λ size.
        reject_if (ltb size 24 || ltb used_size (offset + size)) "invalid MFT attribute length"
        >> read_attribute rec offset size type_code warnings
        >>= λ step.
            reject_if (ltb max_attributes (length items + 1))
              "MFT attribute count exceeds safe limit"
            >> attributes_loop rec used_size fuel (offset + size) (items ++ step.0 ∷ []) step.1
  ]
]

-- `_attributes`
unfoldable pub attributes : Bytes → ℕ → ℕ → List Text → Parse (List Attribute × List Text)
attributes rec offset used_size warnings =
    attributes_loop rec used_size (suc used_size) offset [] warnings

-- `item["parsed"]`: a non-resident attribute has no such key, and Python raises a KeyError.
unfoldable pub parsed_content : Content → Parse Parsed
parsed_content (outside n) = err key_error
parsed_content (inside size p) = ok p

-- The first $STANDARD_INFORMATION attribute, parsed.
unfoldable pub first_standard : List Attribute → Parse (Option Parsed)
first_standard [] = ok none
first_standard (item ∷ rest) =
    let others = first_standard rest in
    if item.type_code == 0x10 then (do p ← parsed_content item.content; ok (some p)) else others

-- All $FILE_NAME attributes, parsed.
unfoldable pub file_names : List Attribute → Parse (List Parsed)
file_names [] = ok []
file_names (item ∷ rest) =
    let others = file_names rest in
    if item.type_code == 0x30
    then (do p ← parsed_content item.content; ps ← others; ok (p ∷ ps))
    else others

unfoldable pub data_attributes : List Attribute → List Attribute
data_attributes [] = []
data_attributes (item ∷ rest) =
    let others = data_attributes rest in if item.type_code == 0x80 then item ∷ others else others

abbrev pub without_parsed : Content → Content
without_parsed (outside n) = outside n
without_parsed (inside size p) = inside size not_parsed

-- an attribute without its "parsed" entry
abbrev pub summary : Attribute → Attribute
summary item = record item { content = without_parsed item.content }

-- `attribute_summaries`
unfoldable pub attribute_summaries : List Attribute → List Attribute
attribute_summaries [] = []
attribute_summaries (item ∷ rest) = summary item ∷ attribute_summaries rest

pub record MftRecord : Type 0 where
  pub record_number : ℕ
  pub sequence_number : ℕ
  pub hard_link_count : ℕ
  pub flags_raw : ℕ
  pub allocated_in_use : Bool
  pub directory : Bool
  pub base_record_reference : Reference
  pub used_record_size : ℕ
  pub allocated_record_size : ℕ
  pub standard_info : Option Parsed
  pub names : List Parsed
  pub data_items : List Attribute
  pub items : List Attribute
  pub source_record_offset : ℕ

-- `_record`
unfoldable pub read_record : Bytes → ℕ → Parse (MftRecord × List Text)
read_record rec offset = do
  first_attribute ← uint16 rec 20
  used_size ← uint32 rec 24
  allocated_size ← uint32 rec 28
  reject_if
      (ltb first_attribute 48 || (ltb (length rec) used_size || leb used_size first_attribute))
      "invalid MFT record header bounds"
  flags ← uint16 rec 22
  record_number ← uint32 rec 44
  (items, warnings) ← attributes rec first_attribute used_size []
  standard_info ← first_standard items
  names ← file_names items
  base_reference ← uint64 rec 32
  sequence_number ← uint16 rec 16
  hard_link_count ← uint16 rec 18
  let parsed : MftRecord = record {
    record_number = record_number;
    sequence_number = sequence_number;
    hard_link_count = hard_link_count;
    flags_raw = flags;
    allocated_in_use = flags % 2 == 1;
    directory = (flags / 2) % 2 == 1;
    base_record_reference = reference base_reference;
    used_record_size = used_size;
    allocated_record_size = allocated_size;
    standard_info = standard_info;
    names = names;
    data_items = data_attributes items;
    items = attribute_summaries items;
    source_record_offset = offset;
  }
  ok (parsed, warnings)
