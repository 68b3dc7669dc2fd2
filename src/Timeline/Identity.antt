-- ===== src/Timeline/Identity.antt =====
-- `extract_evtx_process_identity` of backend/app/services/timeline_normalizer.py, and the readers of
-- JSON values there.
use dfir_investigation_workb.Prelude.{
  Bool, List, Option, Text, [], false, if◌then◌else◌, lit, none, pos, some, text_eq, ◌&&◌, ◌||◌,
  ◌∷◌,
}
use dfir_investigation_workb.Json.{
  Dict, Value, array, end, entries, field, get_field, integer, item_list, null, object, string,
}
use dfir_investigation_workb.Correlation.Paths.{
  components, is_empty_text, split_root, strip, to_backslashes,
}
use dfir_investigation_workb.Correlation.Candidates.{is_4688, is_security}

-- `_string`
abbrev pub as_string : Value → Option Text
as_string (string t) = some t
as_string _ = none

-- `_list`
abbrev pub as_list : Value → List Value
as_list (array items) = item_list items
as_list _ = []

-- `_dict`
abbrev pub as_dict : Value → Dict
as_dict (object fields) = entries fields
as_dict _ = []

-- the dictionaries of a list
unfoldable pub only_dicts : List Value → List Dict
only_dicts [] = []
only_dicts (object fields ∷ vs) = entries fields ∷ only_dicts vs
only_dicts (_ ∷ vs) = only_dicts vs

-- `_dict_list`
abbrev pub dict_list : Value → List Dict
dict_list v = only_dicts (as_list v)

-- a string, or None
abbrev pub text_value : Option Text → Value
text_value none = null
text_value (some t) = string t

-- the last of the parts that are neither empty nor `.`
unfoldable pub last_part : Text → List Text → Text
last_part last [] = last
last_part last (part ∷ rest) =
    last_part (if is_empty_text part || text_eq part (lit ".") then last else part) rest

-- `PureWindowsPath(path).name` of a path with no forward slash
unfoldable pub path_name : Text → Text
unfolding last_part components split_root
path_name path = last_part [] (components (split_root path).2)

abbrev pub is_named : Text → Value → Bool
is_named name (string t) = text_eq t name
is_named name _ = false

-- the identity that an item NewProcessName holds
unfoldable pub identity_of_value : Option Text → Dict
unfolding path_name strip to_backslashes
identity_of_value none = []
identity_of_value (some original) =
    let path = to_backslashes (strip original) in
    let name = path_name path in
    if is_empty_text (strip original) || is_empty_text name
    then []
    else (lit "process_path", string path)
      ∷ (lit "process_name", string name)
      ∷ (
        lit "process_identity_source",
        object (
            field (lit "field") (string (lit "NewProcessName")) (
              field (lit "value") (string original)
                (field (lit "event_id") (integer (pos 4688)) end))),
      )
      ∷ []

-- the loop: the first item of the name decides
unfoldable pub identity_of_items : List Dict → Dict
unfolding identity_of_value
identity_of_items [] = []
identity_of_items (item ∷ items) =
    let others = identity_of_items items in
    if is_named (lit "NewProcessName") (get_field "name" item)
    then identity_of_value (as_string (get_field "value" item))
    else others

-- `extract_evtx_process_identity`
unfoldable pub extract_evtx_process_identity : (Text → Text) → Dict → Dict
unfolding identity_of_items
extract_evtx_process_identity casefold d =
    if is_4688 (get_field "event_id" d) && is_security casefold (get_field "channel" d)
    then identity_of_items (dict_list (get_field "event_data" d))
    else []
