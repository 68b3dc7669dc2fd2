-- ===== src/Forensic/Prefetch.antt =====
-- backend/app/forensic/prefetch.py: `PrefetchParser`. `warnings` is passed through and returned.
-- Python's `casefold`, and the order in which a set of texts is iterated, are parameters.
pub mod Contract
mod Tests
use dfir_investigation_workb.Prelude.{
  Bool, Datetime, List, Option, Text, [], decimal, err, false, if◌then◌else◌, leb, length, lit, ltb,
  none, not, ok, slice, some, suc, take, text_eq, true, zero, ℕ, ◌&&◌, ◌*◌, ◌++◌, ◌+◌, ◌==◌, ◌>>=◌,
  ◌>>◌, ◌||◌, ◌∷◌,
}
use dfir_investigation_workb.Domain.{ParserExecutionStatus}
use dfir_investigation_workb.Correlation.Events.{compare_text, not_after}
use dfir_investigation_workb.Forensic.Bytes.{
  Bytes, Parse, decode_utf16, filetime, from_bytes, is_unrepresentable, key_error, reject_if,
  structure_error, uint32, uint64, unicode_error, utf16_fixed,
}
use dfir_investigation_workb.Forensic.Parser.{
  ParserContext, ParserResult, is_empty, source_identifier_of,
}
use dfir_investigation_workb.Forensic.Settle.{refused, settle}

abbrev pub header_size : ℕ
header_size = 84

abbrev pub max_prefetch_size : ℕ
max_prefetch_size = 64 * 1024 * 1024

-- `context.source.read(MAX_PREFETCH_SIZE + 1)`
unfoldable pub read_limited : Bytes → Bytes
read_limited source = take (max_prefetch_size + 1) source

unfoldable pub is_too_large : Bytes → Bool
is_too_large bytes = ltb max_prefetch_size (length bytes)

abbrev pub is_supported : ℕ → Bool
is_supported v = (v == 17) || (v == 23) || (v == 26) || (v == 30) || (v == 31)

pub record Volume : Type 0 where
  pub device_path : Text
  pub creation_time : Option Datetime × Option ℕ
  pub serial_number : ℕ

pub record PrefetchFile : Type 0 where
  pub source_identifier : Text
  pub application_name : Text
  pub executable_hash : ℕ
  pub prefetch_version : ℕ
  pub run_count : Option ℕ
  -- the times that are not zero: as a `datetime` where there is one, and as they stand
  pub execution_times : List (Option Datetime × Option ℕ)
  pub referenced_paths : List Text
  pub volume_information : List Volume
  pub declared_file_size : ℕ

-- `[filetime(uint64(data, offset + index * 8)) for index in range(count)]`
unfoldable pub read_times : Bytes → ℕ → ℕ → Parse (List (Option Datetime × Option ℕ))
read_times bytes zero offset = ok []
read_times bytes (suc count) offset = do
  value ← uint64 bytes offset
  rest ← read_times bytes count (offset + 8)
  ok (filetime value ∷ rest)

abbrev pub any_unrepresentable : List (Option Datetime × Option ℕ) → Bool
any_unrepresentable [] = false
any_unrepresentable (t ∷ ts) = is_unrepresentable t || any_unrepresentable ts

abbrev pub Execution : Type 0
Execution = List (Option Datetime × Option ℕ) × Option ℕ

-- the dictionary of `_execution`: a KeyError for a version that it does not have
unfoldable pub count_offset_of : ℕ → Parse ℕ
count_offset_of version =
    if version == 17
    then ok 144
    else if version == 23
    then ok 152
    else if (version == 26) || (version == 30) || (version == 31)
    then ok 208
    else err key_error

-- the body of the try block of `_execution`
unfoldable pub read_execution : Bytes → ℕ → ℕ → Parse (List (Option Datetime × Option ℕ) × ℕ)
unfolding read_times
read_execution bytes version count_offset = do
  times ←
      read_times bytes (if (version == 17) || (version == 23) then 1 else 8)
        (if version == 17 then 120 else 128)
  run_count ← uint32 bytes count_offset
  ok (times, run_count)

unfoldable pub settle_execution :
    List Text → Parse (List (Option Datetime × Option ℕ) × ℕ) → Parse (Execution × List Text)
settle_execution warnings (err (structure_error m)) =
    ok (([], none), warnings ++ lit "Prefetch execution metadata is truncated" ∷ [])
settle_execution warnings (err e) = err e
settle_execution warnings (ok (times, run_count)) = ok (
  (times, some run_count),
  if any_unrepresentable times
      then warnings ++ lit "One or more Prefetch execution FILETIMEs could not be represented" ∷ []
      else warnings,
)

-- `_execution`
unfoldable pub execution : Bytes → ℕ → List Text → Parse (Execution × List Text)
execution bytes version warnings = do
  count_offset ← count_offset_of version
  settle_execution warnings (read_execution bytes version count_offset)

-- the body of the try block of `_volumes`
unfoldable pub read_volume : Bytes → ℕ → ℕ → Parse Volume
read_volume bytes offset entry = do
  path_offset ← uint32 bytes entry
  path_chars ← uint32 bytes (entry + 4)
  created ← uint64 bytes (entry + 8)
  serial ← uint32 bytes (entry + 16)
  reject_if
      (ltb (offset + path_offset) offset
        || ltb (length bytes) (offset + path_offset + path_chars * 2))
      "volume path is outside Prefetch data"
  path ← decode_utf16 (slice (offset + path_offset) (offset + path_offset + path_chars * 2) bytes)
  ok (record { device_path = path; creation_time = filetime created; serial_number = serial })

unfoldable pub settle_volume :
    ℕ → List Volume → List Text → Parse Volume → Parse (List Volume × List Text)
settle_volume index done warnings (ok v) = ok (done ++ v ∷ [], warnings)
settle_volume index done warnings (err (structure_error m)) = ok (
  done,
  warnings ++ (lit "Prefetch volume entry " ++ (decimal index ++ lit " could not be decoded")) ∷ [],
)
settle_volume index done warnings (err unicode_error) = ok (
  done,
  warnings ++ (lit "Prefetch volume entry " ++ (decimal index ++ lit " could not be decoded")) ∷ [],
)
settle_volume index done warnings (err e) = err e

-- the loop of `_volumes` over what is left of the range
unfoldable pub volumes_loop :
    Bytes → ℕ → ℕ → ℕ → ℕ → List Volume → List Text → Parse (List Volume × List Text)
volumes_loop bytes offset entry_size zero index done warnings = ok (done, warnings)
volumes_loop bytes offset entry_size (suc left) index done warnings =
    settle_volume index done warnings (read_volume bytes offset (offset + index * entry_size))
    >>= λ next. volumes_loop bytes offset entry_size left (index + 1) next.0 next.1

-- the dictionary of `_volumes`
unfoldable pub entry_size_of : ℕ → Parse ℕ
entry_size_of version =
    if version == 17
    then ok 40
    else if version == 23
    then ok 104
    else if (version == 26) || (version == 30) || (version == 31)
    then ok 96
    else err key_error

-- `_volumes`
unfoldable pub volumes : Bytes → ℕ → ℕ → ℕ → List Text → Parse (List Volume × List Text)
volumes bytes offset count version warnings =
    if count == 0
    then ok ([], warnings)
    else if ltb 128 count || (ltb offset header_size || leb (length bytes) offset)
    then ok ([], warnings ++ lit "Prefetch volume section is invalid" ∷ [])
    else entry_size_of version >>= λ entry_size.
        volumes_loop bytes offset entry_size count 0 [] warnings

abbrev prepend_first : ℕ → List Text → List Text
prepend_first c [] = (c ∷ []) ∷ []
prepend_first c (t ∷ ts) = (c ∷ t) ∷ ts

-- `text.split("\x00")`
unfoldable pub split_zero : Text → List Text
split_zero [] = [] ∷ []
split_zero (c ∷ cs) = let rest = split_zero cs in if c == 0 then [] ∷ rest else prepend_first c rest

abbrev pub is_among : Text → List Text → Bool
is_among t [] = false
is_among t (u ∷ us) = text_eq t u || is_among t us

-- the set of the texts that are not empty, in the order of their last occurrence
unfoldable pub distinct : List Text → List Text
distinct [] = []
distinct (t ∷ ts) =
    let rest = distinct ts in if is_empty t || is_among t rest then rest else t ∷ rest

unfoldable pub insert_path : (Text → Text) → Text → List Text → List Text
insert_path key t [] = t ∷ []
insert_path key t (u ∷ us) =
    if not_after (compare_text (key t) (key u)) then t ∷ u ∷ us else u ∷ insert_path key t us

-- `sorted(texts, key=key)`, which is stable
unfoldable pub sort_paths : (Text → Text) → List Text → List Text
unfolding insert_path
sort_paths key [] = []
sort_paths key (t ∷ ts) = insert_path key t (sort_paths key ts)

abbrev pub has_raw : Option Datetime × Option ℕ → Bool
has_raw (_, none) = false
has_raw (_, some raw) = true

-- `observed_times`
unfoldable pub observed : List (Option Datetime × Option ℕ) → List (Option Datetime × Option ℕ)
observed [] = []
observed (t ∷ ts) = let rest = observed ts in if has_raw t then t ∷ rest else rest

-- The outcome of the try block of `parse`.
unfoldable pub settle_file : Parse (PrefetchFile × List Text) → Parse (ParserResult PrefetchFile)
unfolding settle
settle_file m = settle (lit "Prefetch parsing failed: ") m

-- `_unsupported`
abbrev pub unsupported_file : Text → Parse (ParserResult PrefetchFile)
unsupported_file message = ok (refused ParserExecutionStatus.unsupported message)

module _ (casefold : Text → Text) (set_order : List Text → List Text) where
  unfoldable pub settle_paths : List Text → Parse Text → Parse (List Text × List Text)
  unfolding split_zero distinct sort_paths
  settle_paths warnings (ok text) =
      ok (sort_paths casefold (set_order (distinct (split_zero text))), warnings)
  settle_paths warnings (err unicode_error) =
      ok ([], warnings ++ lit "Prefetch referenced-path section is not valid UTF-16LE" ∷ [])
  settle_paths warnings (err e) = err e

  -- `_paths`
  unfoldable pub paths : Bytes → ℕ → ℕ → List Text → Parse (List Text × List Text)
  unfolding settle_paths
  paths bytes offset size warnings =
      if size == 0
      then ok ([], warnings)
      else if ltb offset header_size || ltb (length bytes) (offset + size)
      then ok ([], warnings ++ lit "Prefetch referenced-path section is invalid" ∷ [])
      else settle_paths warnings (decode_utf16 (slice offset (offset + size) bytes))

  -- `_normalize`
  unfoldable pub normalize : ParserContext → Bytes → ℕ → Parse (PrefetchFile × List Text)
  unfolding paths volumes execution observed source_identifier_of
  normalize context bytes version = do
    reject_if (ltb (length bytes) header_size) "Prefetch header is truncated"
    declared_size ← uint32 bytes 12
    reject_if (not (declared_size == 0) && ltb (length bytes) declared_size)
        "Prefetch declared size exceeds available bytes"
    let warnings : List Text =
        if not (declared_size == 0) && not (declared_size == length bytes)
        then lit "Prefetch declared size differs from stored byte count" ∷ []
        else []
    application_name ← utf16_fixed (slice 16 76 bytes)
    executable_hash ← uint32 bytes 76
    filename_offset ← uint32 bytes 100
    filename_size ← uint32 bytes 104
    with_paths ← paths bytes filename_offset filename_size warnings
    volume_offset ← uint32 bytes 108
    volume_count ← uint32 bytes 112
    with_volumes ← volumes bytes volume_offset volume_count version with_paths.1
    executed ← execution bytes version with_volumes.1
    ok (
      record {
        source_identifier = source_identifier_of context.source_name context.evidence_id;
        application_name = application_name;
        executable_hash = executable_hash;
        prefetch_version = version;
        run_count = executed.0.1;
        execution_times = observed executed.0.0;
        referenced_paths = with_paths.0;
        volume_information = with_volumes.0;
        declared_file_size = declared_size;
      },
      executed.1,
    )

  -- the try block of `parse`
  unfoldable pub read_file : ParserContext → ℕ → Parse (PrefetchFile × List Text)
  unfolding normalize read_limited
  read_file context version = do
    let bytes : Bytes = read_limited context.source
    reject_if (is_too_large bytes) "Prefetch input exceeds the safe structure size limit"
    normalize context bytes version

  -- `PrefetchParser.parse`
  unfoldable pub parse_prefetch : ParserContext → Parse (ParserResult PrefetchFile)
  unfolding read_file settle_file
  parse_prefetch context =
      let prefix = take 8 context.source in
      let version = from_bytes (take 4 prefix) in
      if text_eq (take 3 prefix) (lit "MAM")
      then unsupported_file (lit "Compressed Prefetch files are not supported")
      else if ltb (length prefix) 8 || not (text_eq (slice 4 8 prefix) (lit "SCCA"))
      then unsupported_file (lit "Input does not have a Prefetch signature")
      else if not (is_supported version)
      then unsupported_file
          (lit "Prefetch version " ++ (decimal version ++ lit " is not supported"))
      else settle_file (read_file context version)
