-- ===== src/Timeline/Samples.antt =====
-- Records that the tests of the normalizer and of the timelines use.
use dfir_investigation_workb.Prelude.{
  String, [], if◌then◌else◌, leb, lit, map, none, some, text_eq, ℕ, ◌&&◌, ◌*◌, ◌+◌, ◌∷◌,
}
use dfir_investigation_workb.Json.{Dict, Fields, array, cons, end, field, nil, object, string}
use dfir_investigation_workb.Timeline.Times.{Python, aware}
use dfir_investigation_workb.Timeline.Normalizer.{ArtifactRecord}

-- enough of Python for the tests: `fromisoformat` knows one text
abbrev pub python : Python
python = record {
  casefold = map (λ (c : ℕ). if leb b'A' c && leb c b'Z' then c + 32 else c);
  is_decimal = λ c. leb b'0' c && leb c b'9';
  fromisoformat = λ t.
      if text_eq t (lit "2024-01-02T03:04:05.123456+00:00")
      then some (aware (738886 * 86400000000))
      else none;
  str = λ v. lit "?";
}

abbrev pub record_of : String → Dict → ArtifactRecord
record_of kind body = record {
  record_type = lit kind;
  event_time = none;
  source_record_identifier = none;
  body = body;
  provenance = [];
}

abbrev pub file_fields : Fields
file_fields =
    field (lit "filename") (string (lit "A.exe"))
      (field (lit "creation_time") (string (lit "2024-01-02T03:04:05.123456Z")) end)

-- a record of an $MFT with one creation time in each family
abbrev pub mft_record : ArtifactRecord
mft_record = record_of "NTFS_MFT_RECORD" (
    (lit "standard_information", object file_fields)
    ∷ (lit "file_names", array (cons (object file_fields) nil))
    ∷ [])
