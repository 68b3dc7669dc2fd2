-- ===== src/Forensic/Mft/Tests.antt =====
-- Runs of the $MFT parser on small inputs, and the theorems at those inputs.
use dfir_investigation_workb.Forensic.Mft.MissingParsed.{non_resident_name_aborts}
use dfir_investigation_workb.Forensic.Mft.Contract.{parse-contract, parse-escapes}
use dfir_investigation_workb.Forensic.Mft.RunsRoundTrip.{data_runs-encode}
use dfir_investigation_workb.Forensic.Mft.RunList.{Extent, IsExtent, encode_runs, runs_of}
use dfir_investigation_workb.Forensic.Mft.Restores.{apply_fixup-restored}
use dfir_investigation_workb.Forensic.Mft.Attributes.{
  Attribute, attribute_name, non_resident, outside, reference,
}
use dfir_investigation_workb.Domain.{ParserExecutionStatus}
use dfir_investigation_workb.Forensic.Parser.{ParserResult, validate_status_contract}
use dfir_investigation_workb.Prelude.{
  All, List, [], arith, decimal, err, false, get_elem?, length, lit, negsuc, none, ok, pos, refl,
  slice, some, splice, suc, take, text_eq, true, zero, ℕ, ◌++◌, ◌-◌, ◌∷◌, ◌≡◌,
}
use dfir_investigation_workb.Forensic.Bytes.{
  Bytes, byte_at, divide, from_bytes, key_error, modulo, uint16, uint32, uint64, unpack_from,
}
use dfir_investigation_workb.Forensic.Mft.Layout.{
  InputLayout, has_remainder, layout, mft_stream, stream_layout, volume_layout,
}
use dfir_investigation_workb.Forensic.Mft.Fixup.{
  apply_fixup, derived_sector_size, fixup_sectors, geometry_differs,
}
use dfir_investigation_workb.Forensic.Mft.Runs.{data_runs, data_runs_loop}
use dfir_investigation_workb.Forensic.Mft.Table.{
  MftRecord, attribute_content, attribute_summaries, attributes, attributes_loop, data_attributes,
  file_names, first_standard, parsed_content, read_attribute, read_record,
}
use dfir_investigation_workb.Forensic.Mft.Stream.{
  ParsedRecord, below_limit, conclude, entry, has_trailing_bytes, mft_count, parse, read_at,
  run_layout, scan, settle, visit, with_layout,
}

abbrev zeros : ℕ → Bytes
zeros zero = []
zeros (suc n) = 0 ∷ zeros n

-- A record of one sector of 512 bytes, with the update sequence array at 48 and the attributes at
-- 56: its number is 7, and it is in use.
abbrev one_sector : ℕ → Bytes → Bytes
one_sector used items =
    (b'F' ∷ b'I' ∷ b'L' ∷ b'E' ∷ 48 ∷ 0 ∷ 2 ∷ 0 ∷ zeros 8)
    ++ (3 ∷ 0 ∷ 1 ∷ 0 ∷ 56 ∷ 0 ∷ 1 ∷ 0 ∷ used ∷ 0 ∷ 0 ∷ 0 ∷ 0 ∷ 2 ∷ 0 ∷ 0 ∷ zeros 12)
    ++ (7 ∷ 0 ∷ 0 ∷ 0 ∷ 1 ∷ 0 ∷ 9 ∷ 8 ∷ zeros 4)
    ++ items
    ++ zeros (454 - length items)
    ++ (1 ∷ 0 ∷ [])

abbrev terminator : Bytes
terminator = 255 ∷ 255 ∷ 255 ∷ 255 ∷ 0 ∷ 0 ∷ 0 ∷ 0 ∷ []

-- a record with no attribute
abbrev plain : Bytes
plain = one_sector 64 terminator

-- A $FILE_NAME attribute of 72 bytes that is marked as not resident, with an empty run list.
abbrev outside_name : Bytes
outside_name = (48 ∷ 0 ∷ 0 ∷ 0 ∷ 72 ∷ 0 ∷ 0 ∷ 0 ∷ 1 ∷ zeros 23) ++ (64 ∷ 0 ∷ zeros 38) ++ terminator

abbrev broken : Bytes
broken = one_sector 136 outside_name

parse-broken : parse broken ≡ err key_error
unfolding parse layout with_layout run_layout scan visit settle read_at apply_fixup fixup_sectors
    derived_sector_size has_remainder modulo divide geometry_differs volume_layout stream_layout
    read_record attributes attributes_loop read_attribute attribute_name attribute_content
    non_resident data_runs data_runs_loop first_standard file_names parsed_content uint16 uint32
    uint64 unpack_from from_bytes byte_at slice splice below_limit lit text_eq decimal
parse-broken = refl

abbrev plain_record : MftRecord
plain_record = record {
  record_number = 7;
  sequence_number = 3;
  hard_link_count = 1;
  flags_raw = 1;
  allocated_in_use = true;
  directory = false;
  base_record_reference = record { record_number = 0; sequence_number = 0 };
  used_record_size = 64;
  allocated_record_size = 512;
  standard_info = none;
  names = [];
  data_items = [];
  items = [];
  source_record_offset = 0;
}

abbrev plain_result : ParserResult ParsedRecord
plain_result = record {
  status = ParserExecutionStatus.completed;
  records = entry plain_record ∷ [];
  warnings = [];
  errors = [];
}

parse-plain : parse plain ≡ ok plain_result
unfolding parse layout with_layout run_layout conclude has_trailing_bytes mft_count scan visit
    settle read_at apply_fixup fixup_sectors derived_sector_size has_remainder modulo divide
    geometry_differs stream_layout read_record attributes attributes_loop first_standard file_names
    data_attributes attribute_summaries uint16 uint32 uint64 unpack_from from_bytes slice splice
    below_limit lit text_eq reference
parse-plain = refl

abbrev broken_item : Attribute
broken_item = record {
  type_code = 48;
  attribute_id = 0;
  name = none;
  flags = 0;
  content = outside (record {
    start_vcn = 0;
    last_vcn = 0;
    allocated_size = 0;
    logical_size = 0;
    initialized_size = 0;
    runs = [];
  });
}

parse-escapes_example : key_error ≡ key_error
parse-escapes_example = parse-escapes broken key_error parse-broken

parse-contract_example : validate_status_contract plain_result ≡ true
parse-contract_example = parse-contract plain plain_result parse-plain

abbrev plain_fixed : Bytes
plain_fixed = take 510 plain ++ (9 ∷ 8 ∷ [])

apply_fixup-restored_example : (length plain_fixed ≡ 512) × (get_elem? plain_fixed 511 ≡ some 8)
unfolding apply_fixup fixup_sectors derived_sector_size has_remainder modulo divide geometry_differs
    uint16 unpack_from from_bytes slice splice text_eq
apply_fixup-restored_example =
    apply_fixup-restored plain (some 512) plain_fixed 48 2 0 511 refl refl refl (omega arith)
      (omega arith)

-- a run of 16 clusters at 1000, a sparse run of 3, and a run of 300 that lies 1001 clusters back
abbrev extents : List Extent
extents =
    record { length_size = 1; cluster_count = 16; offset_size = 2; delta = pos 1000 }
    ∷ record { length_size = 1; cluster_count = 3; offset_size = 0; delta = pos 0 }
    ∷ record { length_size = 2; cluster_count = 300; offset_size = 2; delta = negsuc 1000 }
    ∷ []

extents-IsExtent : All IsExtent extents
extents-IsExtent = omega arith

data_runs-encode_example :
    data_runs (encode_runs extents ++ 0 ∷ 77 ∷ []) ≡ ok (runs_of (pos 0) extents)
data_runs-encode_example = data_runs-encode extents (77 ∷ []) extents-IsExtent (omega arith)

abbrev broken_layout : InputLayout
broken_layout = record {
  kind = mft_stream;
  first_record_offset = 0;
  record_size = 512;
  bytes_per_sector = some 512;
  record_limit = none;
  boot_metadata = none;
}

non_resident_name_aborts_example : scan broken broken_layout 2 0 0 ([], []) ≡ err key_error
unfolding apply_fixup fixup_sectors derived_sector_size has_remainder modulo divide geometry_differs
    below_limit attributes attributes_loop read_attribute attribute_name attribute_content
    non_resident data_runs data_runs_loop uint16 uint32 uint64 unpack_from from_bytes byte_at slice
    splice lit text_eq
non_resident_name_aborts_example =
    non_resident_name_aborts broken broken_layout 0 1 0 ([], []) (take 510 broken ++ (9 ∷ 8 ∷ []))
      56 136 512 1 7 (broken_item ∷ []) [] (omega arith) refl refl refl refl refl refl refl
      (omega arith) (omega arith) (omega arith) refl refl refl refl
