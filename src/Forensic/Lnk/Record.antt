-- ===== src/Forensic/Lnk/Record.antt =====
-- `_normalize` and `parse` of backend/app/forensic/lnk.py. `warnings` is passed through and returned.
use dfir_investigation_workb.Prelude.{
  Bool, Datetime, List, Option, Text, [], if◌then◌else◌, length, lit, ltb, none, not, ok, slice,
  some, take, text_eq, ℕ, ◌*◌, ◌++◌, ◌+◌, ◌==◌, ◌>>=◌, ◌>>◌, ◌||◌, ◌∷◌,
}
use dfir_investigation_workb.Domain.{ParserExecutionStatus}
use dfir_investigation_workb.Forensic.Bytes.{Bytes, Parse, reject_if, uint16, uint32}
use dfir_investigation_workb.Forensic.Parser.{ParserContext, ParserResult, source_identifier_of}
use dfir_investigation_workb.Forensic.Settle.{refused, settle}
use dfir_investigation_workb.Forensic.Lnk.LinkInfo.{LinkInfo, has_bit, link_info, target_path}
use dfir_investigation_workb.Forensic.Lnk.Blocks.{
  ShellItem, Tracker, extra_data, id_list, lnk_timestamp, string_data,
}

abbrev pub shell_link_clsid : Bytes
shell_link_clsid = 0x01 ∷ 0x14 ∷ 0x02 ∷ 0 ∷ 0 ∷ 0 ∷ 0 ∷ 0 ∷ 0xc0 ∷ 0 ∷ 0 ∷ 0 ∷ 0 ∷ 0 ∷ 0 ∷ 0x46 ∷ []

abbrev pub lnk_header_size : ℕ
lnk_header_size = 0x4c

abbrev pub max_lnk_size : ℕ
max_lnk_size = 64 * 1024 * 1024

abbrev pub flag_names : List (ℕ × Text)
flag_names =
    (0, lit "HAS_LINK_TARGET_ID_LIST")
    ∷ (1, lit "HAS_LINK_INFO")
    ∷ (2, lit "HAS_NAME")
    ∷ (3, lit "HAS_RELATIVE_PATH")
    ∷ (4, lit "HAS_WORKING_DIR")
    ∷ (5, lit "HAS_ARGUMENTS")
    ∷ (6, lit "HAS_ICON_LOCATION")
    ∷ (7, lit "IS_UNICODE")
    ∷ (8, lit "FORCE_NO_LINK_INFO")
    ∷ (9, lit "HAS_EXP_STRING")
    ∷ (10, lit "RUN_IN_SEPARATE_PROCESS")
    ∷ (12, lit "HAS_DARWIN_ID")
    ∷ (13, lit "RUN_AS_USER")
    ∷ (14, lit "HAS_EXP_ICON")
    ∷ (15, lit "NO_PIDL_ALIAS")
    ∷ (17, lit "RUN_WITH_SHIM_LAYER")
    ∷ (18, lit "FORCE_NO_LINK_TRACK")
    ∷ (19, lit "ENABLE_TARGET_METADATA")
    ∷ (20, lit "DISABLE_LINK_PATH_TRACKING")
    ∷ (21, lit "DISABLE_KNOWN_FOLDER_TRACKING")
    ∷ (22, lit "DISABLE_KNOWN_FOLDER_ALIAS")
    ∷ (23, lit "ALLOW_LINK_TO_LINK")
    ∷ (24, lit "UNALIAS_ON_SAVE")
    ∷ (25, lit "PREFER_ENVIRONMENT_PATH")
    ∷ (26, lit "KEEP_LOCAL_ID_LIST_FOR_UNC_TARGET")
    ∷ []

-- `[name for bit, name in FLAG_NAMES.items() if flags & (1 << bit)]`
unfoldable pub names_of_flags : ℕ → List (ℕ × Text) → List Text
names_of_flags flags [] = []
names_of_flags flags ((bit, name) ∷ rest) =
    let others = names_of_flags flags rest in if has_bit flags bit then name ∷ others else others

-- the target of a link as its IDList and its LinkInfo tell it
abbrev pub Located : Type 0
Located = List ShellItem × Option LinkInfo × ℕ × List Text

-- the IDList, if there is one; it returns the offset behind it too
unfoldable pub target_id_list : Bytes → ℕ → ℕ → List Text → Parse (List ShellItem × ℕ × List Text)
target_id_list bytes flags offset warnings =
    if has_bit flags 0
    then (do
      id_list_size ← uint16 bytes offset
      reject_if (ltb (length bytes) (offset + 2 + id_list_size))
          "Shell Link target IDList is truncated"
      found ← id_list (slice (offset + 2) (offset + 2 + id_list_size) bytes) warnings
      ok (found.0, offset + 2 + id_list_size, found.1))
    else ok ([], offset, warnings)

unfoldable pub target_link_info :
    Bytes → ℕ → ℕ → List Text → Parse (Option LinkInfo × ℕ × List Text)
target_link_info bytes flags offset warnings =
    if has_bit flags 1
    then (do found ← link_info bytes offset warnings; ok (some found.0, found.1, found.2))
    else ok (none, offset, warnings)

-- one round of the loop over the five strings
unfoldable pub optional_string : Bytes → ℕ → ℕ → ℕ → Parse (Option Text × ℕ)
optional_string bytes flags bit offset =
    if has_bit flags bit
    then (do found ← string_data bytes offset (has_bit flags 7); ok (some found.0, found.1))
    else ok (none, offset)

pub record Strings : Type 0 where
  pub description : Option Text
  pub relative_path : Option Text
  pub working_directory : Option Text
  pub command_line_arguments : Option Text
  pub icon_location : Option Text

unfoldable pub read_strings : Bytes → ℕ → ℕ → Parse (Strings × ℕ)
unfolding optional_string
read_strings bytes flags offset = do
  description ← optional_string bytes flags 2 offset
  relative_path ← optional_string bytes flags 3 description.1
  working_directory ← optional_string bytes flags 4 relative_path.1
  command_line_arguments ← optional_string bytes flags 5 working_directory.1
  icon_location ← optional_string bytes flags 6 command_line_arguments.1
  ok (
    record {
      description = description.0;
      relative_path = relative_path.0;
      working_directory = working_directory.0;
      command_line_arguments = command_line_arguments.0;
      icon_location = icon_location.0;
    },
    icon_location.1,
  )

pub record ShellLink : Type 0 where
  pub source_identifier : Text
  pub source_lnk_filename : Option Text
  pub target_path : Option Text
  pub strings : Strings
  pub link_flags : List Text
  pub link_flags_raw : ℕ
  pub file_attributes : ℕ
  pub creation_time : Option Datetime × Option ℕ
  pub access_time : Option Datetime × Option ℕ
  pub modification_time : Option Datetime × Option ℕ
  pub target_file_size : ℕ
  pub icon_index : ℕ
  pub show_command : ℕ
  pub target_id_list : List ShellItem
  pub link_info : Option LinkInfo
  pub tracker_information : Option Tracker

-- what stands behind the header, and the header's last fields
unfoldable pub read_body :
    ParserContext
    → Bytes
    → ℕ
    → ℕ
    → Option Datetime × Option ℕ
    → Option Datetime × Option ℕ
    → Option Datetime × Option ℕ
    → List Text
    → Parse (ShellLink × List Text)
unfolding target_id_list target_link_info read_strings names_of_flags
read_body context bytes flags attributes creation access modification warnings = do
  items ← target_id_list bytes flags lnk_header_size warnings
  located ← target_link_info bytes flags items.1 items.2
  strings ← read_strings bytes flags located.1
  extra ← extra_data bytes strings.1
  target_file_size ← uint32 bytes 52
  icon_index ← uint32 bytes 56
  show_command ← uint32 bytes 60
  ok (
    record {
      source_identifier = source_identifier_of context.source_name context.evidence_id;
      source_lnk_filename = context.source_name;
      target_path = target_path located.0 strings.0.relative_path;
      strings = strings.0;
      link_flags = names_of_flags flags flag_names;
      link_flags_raw = flags;
      file_attributes = attributes;
      creation_time = creation;
      access_time = access;
      modification_time = modification;
      target_file_size = target_file_size;
      icon_index = icon_index;
      show_command = show_command;
      target_id_list = items.0;
      link_info = located.0;
      tracker_information = extra.0;
    },
    located.2 ++ extra.1,
  )

-- `_normalize`; the header size is read only if there are enough bytes
unfoldable pub normalize_link : ParserContext → Bytes → Parse (ShellLink × List Text)
unfolding read_body
normalize_link context bytes = do
  reject_if (ltb (length bytes) lnk_header_size) "invalid Shell Link header size"
  declared ← uint32 bytes 0
  reject_if (not (declared == lnk_header_size)) "invalid Shell Link header size"
  flags ← uint32 bytes 20
  attributes ← uint32 bytes 24
  creation ← lnk_timestamp bytes 28 [] "creation"
  access ← lnk_timestamp bytes 36 creation.1 "access"
  modification ← lnk_timestamp bytes 44 access.1 "modification"
  read_body context bytes flags attributes creation.0 access.0 modification.0 modification.1

-- `context.source.read(MAX_LNK_SIZE + 1)`
unfoldable pub read_link : Bytes → Bytes
read_link source = take (max_lnk_size + 1) source

unfoldable pub is_long_link : Bytes → Bool
is_long_link bytes = ltb max_lnk_size (length bytes)

-- the try block of `parse`
unfoldable pub try_link : ParserContext → Bytes → Parse (ShellLink × List Text)
unfolding normalize_link is_long_link
try_link context bytes = do
  reject_if (is_long_link bytes) "Shell Link exceeds the safe structure size limit"
  normalize_link context bytes

-- `LnkParser.parse`
unfoldable pub parse_link : ParserContext → Parse (ParserResult ShellLink)
unfolding try_link settle read_link
parse_link context =
    let bytes = read_link context.source in
    if ltb (length bytes) 20 || not (text_eq (slice 4 20 bytes) shell_link_clsid)
    then ok
        (refused ParserExecutionStatus.unsupported (lit "Input does not have a Shell Link CLSID"))
    else settle (lit "Shell Link parsing failed: ") (try_link context bytes)
