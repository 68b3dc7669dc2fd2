-- ===== src/Forensic/Lnk/Tests.antt =====
-- Runs of the Shell Link parser, and the theorems at those inputs.
use dfir_investigation_workb.Prelude.{
  [], false, lit, none, ok, refl, slice, some, starts_with, suc, text_eq, true, zero, ℕ, ◌++◌, ◌∷◌,
  ◌≡◌,
}
use dfir_investigation_workb.Domain.{ParserExecutionStatus}
use dfir_investigation_workb.Forensic.Bytes.{
  Bytes, decode_utf16, filetime, from_bytes, is_scalar, uint16, uint32, uint64, unpack_from,
}
use dfir_investigation_workb.Forensic.Bytes.Cp1252.{c_string, cp1252_character}
use dfir_investigation_workb.Forensic.Parser.{
  ParserContext, ParserResult, source_identifier_of, validate_status_contract,
}
use dfir_investigation_workb.Forensic.Lnk.LinkInfo.{link_info, target_path}
use dfir_investigation_workb.Forensic.Lnk.Blocks.{
  ShellItem, extra_data, id_list, lnk_timestamp, root_folder, string_data,
}
use dfir_investigation_workb.Forensic.Lnk.Record.{ShellLink, parse_link, shell_link_clsid}
use dfir_investigation_workb.Forensic.Lnk.Contract.{parse_link-contract}
use dfir_investigation_workb.Forensic.Lnk.Bounds.{IsBounded, id_list-IsBounded}

abbrev zeros : ℕ → Bytes
zeros zero = []
zeros (suc n) = 0 ∷ zeros n

-- one item, of the root folder, and the terminator
abbrev id_list_bytes : Bytes
id_list_bytes = 3 ∷ 0 ∷ 0x1f ∷ 0 ∷ 0 ∷ []

abbrev root_item : ShellItem
root_item = record {
  index = 0;
  size = 3;
  class_type = some 0x1f;
  class_name = some root_folder;
  bounded_header = 0x1f ∷ [];
}

-- a header with the flags 0x89, the IDList, a relative path in UTF-16, and the end of ExtraData
abbrev link_bytes : Bytes
link_bytes =
    0x4c ∷ 0 ∷ 0 ∷ 0 ∷ shell_link_clsid
    ++ (0x89 ∷ zeros 55)
    ++ (5 ∷ 0 ∷ id_list_bytes)
    ++ (2 ∷ 0 ∷ b'a' ∷ 0 ∷ b'b' ∷ 0 ∷ [])
    ++ zeros 4

abbrev context_of : Bytes → ParserContext
context_of bytes = record { source = bytes; source_name = none; evidence_id = lit "7" }

id_list-run : id_list id_list_bytes [] ≡ ok (root_item ∷ [], [])
unfolding id_list uint16 unpack_from from_bytes slice
id_list-run = refl

id_list-malformed :
    id_list (9 ∷ 0 ∷ []) [] ≡ ok ([], lit "Shell Item IDList contains a malformed item" ∷ [])
unfolding id_list uint16 unpack_from from_bytes slice
id_list-malformed = refl

parse_link-run :
    parse_link (context_of link_bytes)
    ≡ ok (record {
      status = ParserExecutionStatus.completed;
      records =
          record {
            source_identifier = lit "7";
            source_lnk_filename = none;
            target_path = some (lit "ab");
            strings = record {
              description = none;
              relative_path = some (lit "ab");
              working_directory = none;
              command_line_arguments = none;
              icon_location = none;
            };
            link_flags =
                lit "HAS_LINK_TARGET_ID_LIST" ∷ lit "HAS_RELATIVE_PATH" ∷ lit "IS_UNICODE" ∷ [];
            link_flags_raw = 0x89;
            file_attributes = 0;
            creation_time = (none, none);
            access_time = (none, none);
            modification_time = (none, none);
            target_file_size = 0;
            icon_index = 0;
            show_command = 0;
            target_id_list = root_item ∷ [];
            link_info = none;
            tracker_information = none;
          }
          ∷ [];
      warnings = [];
      errors = [];
    })
unfolding parse_link lnk_timestamp id_list link_info string_data extra_data target_path decode_utf16
    is_scalar filetime uint16 uint32 uint64 unpack_from from_bytes slice lit text_eq
    source_identifier_of
parse_link-run = refl

target_path-joined :
    target_path
      (some (record {
        flags = 0;
        local_base_path = some (lit "C:\\a\\");
        common_path_suffix = some (lit "\\b.txt");
        volume_information = none;
        network_information = none;
      }))
      none
    ≡ some (lit "C:\\a\\b.txt")
unfolding target_path lit starts_with
target_path-joined = refl

c_string-replaced :
    c_string (1 ∷ b'a' ∷ 0x81 ∷ 0x80 ∷ 0 ∷ b'z' ∷ []) 1 false
    ≡ ok (some (b'a' ∷ 0xfffd ∷ 0x20ac ∷ []))
unfolding c_string cp1252_character
c_string-replaced = refl

parse_link-contract_example :
    (r : ParserResult ShellLink) × (parse_link (context_of link_bytes) ≡ ok r)
    × (validate_status_contract r ≡ true)
parse_link-contract_example = parse_link-contract (context_of link_bytes)

id_list-IsBounded_example : IsBounded id_list_bytes (root_item ∷ [])
id_list-IsBounded_example = id_list-IsBounded id_list_bytes [] id_list-run
