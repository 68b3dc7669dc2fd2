-- ===== src/Forensic/Mft/MissingParsed.antt =====
-- `item["parsed"]` in `_record` of ntfs_mft.py, where an attribute is not resident.
use dfir_investigation_workb.Prelude.{
  Bool, List, Result-cases, Text, [], arith, err, false, inl, inr, length, lit, ok, refl, slice,
  suc, text_eq, true, ℕ, ◌&&◌, ◌+◌, ◌<◌, ◌==◌, ◌||◌, ◌∷◌, ◌≡◌, ◌≤◌,
}
use dfir_investigation_workb.Forensic.Bytes.{Bytes, ParseError, key_error, uint16, uint32}
use dfir_investigation_workb.Forensic.Mft.Layout.{InputLayout}
use dfir_investigation_workb.Forensic.Mft.Fixup.{apply_fixup}
use dfir_investigation_workb.Forensic.Mft.Attributes.{Attribute, Content, inside, outside}
use dfir_investigation_workb.Forensic.Mft.Table.{
  attributes, file_names, first_standard, parsed_content, read_record,
}
use dfir_investigation_workb.Forensic.Mft.Stream.{
  Progress, below_limit, read_at, scan, settle, visit,
}

abbrev is_outside : Content → Bool
is_outside (outside n) = true
is_outside (inside size p) = false

-- There is a $FILE_NAME attribute that is not resident.
abbrev pub has_outside_name : List Attribute → Bool
has_outside_name [] = false
has_outside_name (item ∷ rest) =
    ((item.type_code == 0x30) && is_outside item.content) || has_outside_name rest

file_names-outside :
    (items : List Attribute) → has_outside_name items ≡ true → file_names items ≡ err key_error
unfolding file_names parsed_content
file_names-outside [] h = cc
file_names-outside (item ∷ rest) h = ground (arith, file_names-outside rest)

-- The only exception of `first_standard` is the KeyError.
first_standard-error :
    (items : List Attribute) (e : ParseError) → first_standard items ≡ err e → e ≡ key_error
unfolding first_standard parsed_content
first_standard-error [] e h = cc
first_standard-error (item ∷ rest) e h = ground (arith, first_standard-error rest e)

read_record-aborts :
    (fixed : Bytes) (offset first used allocated flags number : ℕ) (items : List Attribute)
    (warnings : List Text)
    → uint16 fixed 20 ≡ ok first
    → uint32 fixed 24 ≡ ok used
    → uint32 fixed 28 ≡ ok allocated
    → 48 ≤ first
    → first < used
    → used ≤ length fixed
    → uint16 fixed 22 ≡ ok flags
    → uint32 fixed 44 ≡ ok number
    → attributes fixed first used [] ≡ ok (items, warnings)
    → has_outside_name items ≡ true
    → read_record fixed offset ≡ err key_error
unfolding read_record
read_record-aborts fixed offset first used allocated flags number items warnings h1 h2 h3 h4 h5 h6
      h7 h8 h9 h10 =
    elim (Result-cases (first_standard items)) [
      | inl (p, found) ↦ ground (arith, found, file_names-outside items)
      | inr (e, failed) ↦ ground (arith, failed, first_standard-error items e)
    ]

settle-aborts :
    (offset : ℕ) (progress : Progress) → settle offset progress (err key_error) ≡ err key_error
unfolding settle
settle-aborts offset (records, warnings) = refl

-- A record whose header is in bounds and whose attributes are all well formed, but where a
-- $FILE_NAME attribute is not resident, raises a KeyError, which the except clause of the scan
-- does not catch: the scan of the whole source ends there, with the records before it lost.
pub non_resident_name_aborts :
    (source : Bytes) (l : InputLayout) (offset fuel examined : ℕ) (progress : Progress)
    (fixed : Bytes) (first used allocated flags number : ℕ) (items : List Attribute)
    (warnings : List Text)
    → offset + l.record_size ≤ length source
    → below_limit examined l.record_limit ≡ true
    → text_eq (slice 0 4 (slice offset (offset + l.record_size) source)) (0 ∷ 0 ∷ 0 ∷ 0 ∷ [])
      ≡ false
    → text_eq (slice 0 4 (slice offset (offset + l.record_size) source)) (lit "FILE") ≡ true
    → apply_fixup (slice offset (offset + l.record_size) source) l.bytes_per_sector ≡ ok fixed
    → uint16 fixed 20 ≡ ok first
    → uint32 fixed 24 ≡ ok used
    → uint32 fixed 28 ≡ ok allocated
    → 48 ≤ first
    → first < used
    → used ≤ length fixed
    → uint16 fixed 22 ≡ ok flags
    → uint32 fixed 44 ≡ ok number
    → attributes fixed first used [] ≡ ok (items, warnings)
    → has_outside_name items ≡ true
    → scan source l (suc fuel) offset examined progress ≡ err key_error
unfolding scan visit read_at
non_resident_name_aborts source l offset fuel examined progress fixed first used allocated flags
      number items warnings h1 h2 h3 h4 h5 h6 h7 h8 h9 h10 h11 h12 h13 h14 h15 =
    ground (
      arith,
      h5,
      read_record-aborts fixed offset first used allocated flags number items warnings,
      settle-aborts offset progress,
    )
