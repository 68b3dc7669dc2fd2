-- ===== src/Forensic/Mft/Stream.antt =====
-- `NtfsMftParser.parse` of backend/app/forensic/ntfs_mft.py: the records of a whole source.
use dfir_investigation_workb.Prelude.{
  Bool, List, Option, Text, [], decimal, err, false, if◌then◌else◌, leb, length, lit, ltb, none,
  not, ok, slice, some, starts_with, suc, text_eq, true, zero, ℕ, ◌&&◌, ◌++◌, ◌+◌, ◌==◌, ◌>>=◌, ◌∷◌,
}
use dfir_investigation_workb.Domain.{ParserExecutionStatus}
use dfir_investigation_workb.Forensic.Bytes.{
  Bytes, Parse, out_of_fuel, structure_error, unicode_error,
}
use dfir_investigation_workb.Forensic.Parser.{ParserResult, is_empty}
use dfir_investigation_workb.Forensic.Mft.Layout.{BootMetadata, InputLayout, layout}
use dfir_investigation_workb.Forensic.Mft.Fixup.{apply_fixup}
use dfir_investigation_workb.Forensic.Mft.Table.{MftRecord, read_record}

pub data ParsedRecord : Type 0 where
  -- "NTFS_VOLUME", from `_boot_record`
  volume : BootMetadata → ParsedRecord
  -- "NTFS_MFT_RECORD"
  entry : MftRecord → ParsedRecord

-- `sum(record.record_type == "NTFS_MFT_RECORD" for record in records)`
unfoldable pub mft_count : List ParsedRecord → ℕ
mft_count [] = 0
mft_count (volume b ∷ rest) = mft_count rest
mft_count (entry r ∷ rest) = suc (mft_count rest)

abbrev pub Progress : Type 0
Progress = List ParsedRecord × List Text

-- `f"MFT record at byte offset {offset} ..."`
unfoldable pub record_warning : ℕ → Text → Text
record_warning offset rest = lit "MFT record at byte offset " ++ (decimal offset ++ rest)

-- The outcome of one record: the except clause keeps the scan going for a StructureError or a
-- UnicodeError (whose text from the codec is left out), and lets any other exception through.
unfoldable pub settle : ℕ → Progress → Parse (MftRecord × List Text) → Parse Progress
settle offset (records, warnings) (ok (parsed, record_warnings)) =
    ok (records ++ entry parsed ∷ [], warnings ++ record_warnings)
settle offset (records, warnings) (err (structure_error message)) = ok (
  records,
  warnings ++ record_warning offset (lit " was skipped: StructureError: " ++ message) ∷ [],
)
settle offset (records, warnings) (err unicode_error) =
    ok (records, warnings ++ record_warning offset (lit " was skipped: UnicodeDecodeError: ") ∷ [])
settle offset progress (err e) = err e

unfoldable pub read_at : Bytes → Option ℕ → ℕ → Parse (MftRecord × List Text)
read_at raw bytes_per_sector offset = do
  fixed ← apply_fixup raw bytes_per_sector
  read_record fixed offset

-- The body of the loop for the record at `offset`.
unfoldable pub visit : Bytes → InputLayout → ℕ → Progress → Parse Progress
visit source l offset progress =
    let raw = slice offset (offset + l.record_size) source in
    if text_eq (slice 0 4 raw) (0 ∷ 0 ∷ 0 ∷ 0 ∷ [])
    then ok progress
    else if not (text_eq (slice 0 4 raw) (lit "FILE"))
    then ok (
      progress.0,
      progress.1 ++ record_warning offset (lit " does not have a FILE signature") ∷ [],
    )
    else settle offset progress (read_at raw l.bytes_per_sector offset)

unfoldable pub below_limit : ℕ → Option ℕ → Bool
below_limit examined none = true
below_limit examined (some limit) = ltb examined limit

-- The while loop on fuel; it returns the final offset too.
unfoldable pub scan : Bytes → InputLayout → ℕ → ℕ → ℕ → Progress → Parse (ℕ × Progress)
scan source l zero offset examined progress = err out_of_fuel
scan source l (suc fuel) offset examined progress =
    elim (leb (offset + l.record_size) (length source) && below_limit examined l.record_limit) [
      | true ↦ visit source l offset progress >>= λ progress'.
          scan source l fuel (offset + l.record_size) (examined + 1) progress'
      | false ↦ ok (offset, progress)
    ]

abbrev pub failed_result : ParserExecutionStatus → Text → ParserResult ParsedRecord
failed_result status message = record {
  status = status;
  records = [];
  warnings = [];
  errors = message ∷ [];
}

-- The branch for a layout that was refused: the text of the error decides the status.
unfoldable pub layout_failure : Text → ParserResult ParsedRecord
layout_failure message =
    failed_result
      (if starts_with message (lit "unsupported")
        then ParserExecutionStatus.unsupported
        else ParserExecutionStatus.failed)
      (lit "NTFS/MFT parsing failed: " ++ message)

-- `layout.record_limit is None and offset != source_size`
unfoldable pub has_trailing_bytes : Bytes → ℕ → Option ℕ → Bool
has_trailing_bytes source offset none = not (offset == length source)
has_trailing_bytes source offset (some limit) = false

-- What is built once the loop has ended.
unfoldable pub conclude : Bytes → InputLayout → ℕ × Progress → ParserResult ParsedRecord
conclude source l (offset, (records, warnings)) =
    let trailing = has_trailing_bytes source offset l.record_limit in
    let warnings' : List Text =
      if trailing
      then warnings ++ lit "Trailing bytes do not form a complete MFT record" ∷ []
      else warnings in
    if mft_count records == 0
    then failed_result ParserExecutionStatus.failed
        (lit "NTFS/MFT parsing failed: no valid MFT records were extracted")
    else record {
      status =
          if is_empty warnings'
          then ParserExecutionStatus.completed
          else ParserExecutionStatus.completed_with_warnings;
      records = records;
      warnings = warnings';
      errors = [];
    }

abbrev boot_records : Option BootMetadata → List ParsedRecord
boot_records none = []
boot_records (some b) = volume b ∷ []

unfoldable pub run_layout : Bytes → InputLayout → Parse (ParserResult ParsedRecord)
run_layout source l = do
  done ←
      scan source l (suc (length source)) l.first_record_offset 0 (boot_records l.boot_metadata, [])
  ok (conclude source l done)

-- The outcome of `_layout`: only a StructureError is caught there.
unfoldable pub with_layout : Bytes → Parse InputLayout → Parse (ParserResult ParsedRecord)
with_layout source (ok l) = run_layout source l
with_layout source (err (structure_error message)) = ok (layout_failure message)
with_layout source (err e) = err e

unfoldable pub parse : Bytes → Parse (ParserResult ParsedRecord)
parse source = with_layout source (layout source)
