-- ===== src/Forensic/Prefetch/Tests.antt =====
-- Runs of the Prefetch parser, and the theorem at one of those inputs.
use dfir_investigation_workb.Prelude.{
  List, Text, [], lit, ok, refl, slice, some, suc, text_eq, true, zero, ℕ, ◌∷◌, ◌≡◌,
}
use dfir_investigation_workb.Domain.{ParserExecutionStatus}
use dfir_investigation_workb.Forensic.Bytes.{
  Bytes, decode_utf16, filetime, from_bytes, uint32, uint64, unpack_from, until_zero_pair,
  utf16_fixed,
}
use dfir_investigation_workb.Forensic.Parser.{
  ParserContext, ParserResult, source_identifier_of, validate_status_contract,
}
use dfir_investigation_workb.Forensic.Settle.{refused}
use dfir_investigation_workb.Forensic.Prefetch.{
  PrefetchFile, count_offset_of, execution, is_too_large, normalize, observed, parse_prefetch,
  paths, read_execution, read_file, read_limited, read_times, settle_execution, settle_file,
  volumes,
}
use dfir_investigation_workb.Forensic.Prefetch.Contract.{parse_prefetch-contract}

abbrev zeros : ℕ → Bytes
zeros zero = []
zeros (suc n) = 0 ∷ zeros n

abbrev context_of : Bytes → ParserContext
context_of bytes = record {
  source = bytes;
  source_name = some (lit "A.EXE-1.pf");
  evidence_id = lit "7";
}

abbrev keep_order : List Text → List Text
keep_order ts = ts

abbrev keep_text : Text → Text
keep_text t = t

-- version 17, and then 140 bytes: two past the run count
abbrev smallest : Bytes
smallest = 17 ∷ 0 ∷ 0 ∷ 0 ∷ b'S' ∷ b'C' ∷ b'C' ∷ b'A' ∷ zeros 142

parse-truncated :
    parse_prefetch keep_text keep_order
      (context_of (17 ∷ 0 ∷ 0 ∷ 0 ∷ b'S' ∷ b'C' ∷ b'C' ∷ b'A' ∷ []))
    ≡ ok (refused ParserExecutionStatus.failed (lit "Prefetch parsing failed: StructureError"))
unfolding parse_prefetch read_file read_limited is_too_large normalize settle_file lit text_eq
    from_bytes slice
parse-truncated = refl

parse-smallest :
    parse_prefetch keep_text keep_order (context_of smallest)
    ≡ ok (record {
      status = ParserExecutionStatus.completed;
      records =
          record {
            source_identifier = lit "A.EXE-1.pf";
            application_name = [];
            executable_hash = 0;
            prefetch_version = 17;
            run_count = some 0;
            execution_times = [];
            referenced_paths = [];
            volume_information = [];
            declared_file_size = 0;
          }
          ∷ [];
      warnings = [];
      errors = [];
    })
unfolding parse_prefetch read_file read_limited is_too_large normalize settle_file lit text_eq
    from_bytes slice uint32 uint64 unpack_from utf16_fixed until_zero_pair decode_utf16 paths
    volumes execution count_offset_of settle_execution read_execution read_times filetime observed
    source_identifier_of
parse-smallest = refl

parse_prefetch-contract_example :
    (r : ParserResult PrefetchFile) × (parse_prefetch keep_text keep_order (context_of smallest)
      ≡ ok r)
    × (validate_status_contract r ≡ true)
parse_prefetch-contract_example = parse_prefetch-contract keep_text keep_order (context_of smallest)
