-- ===== src/Forensic/Lnk/Blocks.antt =====
-- `_timestamp`, `_string_data`, `_id_list` and `_extra_data` of backend/app/forensic/lnk.py. Hex
-- digits and UUIDs are kept as the bytes that they print.
use dfir_investigation_workb.Prelude.{
  Bool, Datetime, List, Option, String, Text, [], decimal, err, false, get_elem?, if◌then◌else◌,
  leb, length, lit, ltb, none, not, ok, slice, some, suc, true, zero, ℕ, ◌%◌, ◌&&◌, ◌*◌, ◌++◌, ◌+◌,
  ◌/◌, ◌==◌, ◌>>=◌, ◌>>◌, ◌||◌, ◌∷◌,
}
use dfir_investigation_workb.Forensic.Bytes.{
  Bytes, Parse, decode_utf16, filetime, is_unrepresentable, out_of_fuel, reject_if, uint16, uint32,
  uint64,
}
use dfir_investigation_workb.Forensic.Bytes.Cp1252.{
  decode_cp1252, decode_cp1252_replacing, until_zero,
}

-- `_timestamp`
unfoldable pub lnk_timestamp :
    Bytes → ℕ → List Text → String → Parse ((Option Datetime × Option ℕ) × List Text)
lnk_timestamp bytes offset warnings name = do
  value ← uint64 bytes offset
  let time : Option Datetime × Option ℕ = filetime value
  ok (
    time,
    if is_unrepresentable time
        then warnings
          ++ (lit "Shell Link " ++ (lit name ++ lit " FILETIME could not be represented")) ∷ []
        else warnings,
  )

-- the decoder that `_string_data` chooses
unfoldable pub decode_string : Bool → Bytes → Parse Text
decode_string unicode bytes = if unicode then decode_utf16 bytes else decode_cp1252 bytes

-- `_string_data`
unfoldable pub string_data : Bytes → ℕ → Bool → Parse (Text × ℕ)
unfolding decode_string
string_data bytes offset unicode = do
  characters ← uint16 bytes offset
  let end : ℕ = offset + 2 + (if unicode then characters * 2 else characters)
  reject_if (ltb (length bytes) end) "Shell Link StringData is truncated"
  text ← decode_string unicode (slice (offset + 2) end bytes)
  ok (text, end)

pub data ItemClass : Type 0 where
  root_folder volume file_entry network_location uri : ItemClass

-- `class_names.get(class_type & 0x70)`
unfoldable pub class_name : ℕ → Option ItemClass
class_name class_type =
    let group = (class_type / 16) % 8 in
    if group == 1
    then some root_folder
    else if group == 2
    then some volume
    else if group == 3
    then some file_entry
    else if group == 4
    then some network_location
    else if group == 6
    then some uri
    else none

pub record ShellItem : Type 0 where
  pub index : ℕ
  pub size : ℕ
  pub class_type : Option ℕ
  pub class_name : Option ItemClass
  pub bounded_header : Bytes

abbrev pub max_idlist_items : ℕ
max_idlist_items = 4096

abbrev pub class_of : Option ℕ → Option ItemClass
class_of none = none
class_of (some t) = class_name t

unfoldable pub shell_item : ℕ → ℕ → Bytes → ShellItem
unfolding class_name
shell_item index size item = record {
  index = index;
  size = size;
  class_type = get_elem? item 2;
  class_name = class_of (get_elem? item 2);
  bounded_header = slice 2 18 item;
}

-- The warning counts the items with the new one in.
unfoldable pub class_warnings : ShellItem → List Text → List Text
class_warnings item warnings = elim item.class_name [
  | some c ↦ warnings
  | none ↦
      warnings
      ++ (lit "Shell Item "
          ++ (decimal item.index
              ++ lit " has an unsupported class type; bounded source metadata was preserved"))
        ∷ []
]

abbrev pub Items : Type 0
Items = List ShellItem × List Text

-- The loop of `_id_list` on fuel: each round moves the offset by two bytes at least.
unfoldable pub id_list_loop : Bytes → ℕ → ℕ → Items → Parse Items
unfolding shell_item class_warnings
id_list_loop bytes zero offset found = err out_of_fuel
id_list_loop bytes (suc fuel) offset (items, warnings) = elim (leb (offset + 2) (length bytes)) [
  | false ↦ ok (
    items,
    if not (offset == length bytes)
        then warnings ++ lit "Shell Item IDList has trailing bytes" ∷ []
        else warnings,
  )
  | true ↦ uint16 bytes offset >>= λ size. elim (size == 0) [
    | true ↦ ok (items, warnings)
    | false ↦ elim (ltb size 2 || ltb (length bytes) (offset + size)) [
      | true ↦ ok (items, warnings ++ lit "Shell Item IDList contains a malformed item" ∷ [])
      | false ↦
          let item = shell_item (length items) size (slice offset (offset + size) bytes) in
          let warnings' = class_warnings item warnings in
          elim (leb max_idlist_items (length items + 1)) [
            | true ↦ ok (
              items ++ item ∷ [],
              warnings' ++ lit "Shell Item IDList exceeded the safe item limit" ∷ [],
            )
            | false ↦ id_list_loop bytes fuel (offset + size) (items ++ item ∷ [], warnings')
          ]
    ]
  ]
]

-- `_id_list`
unfoldable pub id_list : Bytes → List Text → Parse Items
unfolding id_list_loop
id_list bytes warnings = id_list_loop bytes (suc (length bytes)) 0 ([], warnings)

-- The UUIDs stand as their sixteen bytes.
pub record Tracker : Type 0 where
  pub machine_id : Text
  pub droid_volume_identifier : Bytes
  pub droid_file_identifier : Bytes
  pub birth_droid_volume_identifier : Bytes
  pub birth_droid_file_identifier : Bytes

unfoldable pub tracker_of : Bytes → Tracker
tracker_of block = record {
  machine_id = decode_cp1252_replacing (until_zero (slice 16 32 block));
  droid_volume_identifier = slice 32 48 block;
  droid_file_identifier = slice 48 64 block;
  birth_droid_volume_identifier = slice 64 80 block;
  birth_droid_file_identifier = slice 80 96 block;
}

-- The loop of `_extra_data` on fuel: each round moves the offset by eight bytes at least.
unfoldable pub extra_data_loop : Bytes → ℕ → ℕ → Option Tracker → Parse (Option Tracker × List Text)
unfolding tracker_of
extra_data_loop bytes zero offset tracker = err out_of_fuel
extra_data_loop bytes (suc fuel) offset tracker = elim (leb (offset + 4) (length bytes)) [
  | false ↦ ok (
    tracker,
    if not (offset == length bytes)
        then lit "Shell Link ExtraData terminator is missing" ∷ []
        else [],
  )
  | true ↦ uint32 bytes offset >>= λ size. elim (size == 0) [
    | true ↦ ok (tracker, [])
    | false ↦ elim (ltb size 8 || ltb (length bytes) (offset + size)) [
      | true ↦ ok (tracker, lit "Shell Link ExtraData contains a malformed block" ∷ [])
      | false ↦ uint32 bytes (offset + 4) >>= λ signature.
          extra_data_loop bytes fuel (offset + size) (
            if (signature == 0xa0000003) && leb 96 size
            then some (tracker_of (slice offset (offset + size) bytes))
            else tracker)
    ]
  ]
]

-- `_extra_data`
unfoldable pub extra_data : Bytes → ℕ → Parse (Option Tracker × List Text)
unfolding extra_data_loop
extra_data bytes offset = extra_data_loop bytes (suc (length bytes)) offset none
