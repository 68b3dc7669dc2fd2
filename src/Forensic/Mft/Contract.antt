-- ===== src/Forensic/Mft/Contract.antt =====
-- The whole $MFT parser of ntfs_mft.py: what may escape from it, and that its results meet the
-- contract of forensic/parser.py.
use dfir_investigation_workb.Prelude.{Text, arith, err, ok, refl, true, ℕ, ◌<◌, ◌≡◌, ◌≢◌, ◌≤◌}
use dfir_investigation_workb.Forensic.Bytes.{
  Bytes, Parse, ParseError, byte_at, divide, index_error, key_error, modulo, out_of_fuel,
  structure_error, uint16, uint32, uint64, unicode_error, unpack_from, zero_division,
}
use dfir_investigation_workb.Forensic.Raises.{handled}
use dfir_investigation_workb.Forensic.Parser.{ParserResult, contract, validate_status_contract}
use dfir_investigation_workb.Forensic.Mft.Layout.{
  InputLayout, has_remainder, layout, max_record_size, stream_layout, volume_layout,
}
use dfir_investigation_workb.Forensic.Mft.Stream.{
  ParsedRecord, Progress, conclude, layout_failure, parse, run_layout, with_layout,
}
use dfir_investigation_workb.Forensic.Mft.DataRunFailures.{layout-handled}
use dfir_investigation_workb.Forensic.Mft.Failures.{scan-escapes}

-- A layout that is accepted has records of 512 to 65536 bytes.
pub layout-record_size :
    (source : Bytes) (l : InputLayout)
    → layout source ≡ ok l
    → (512 ≤ l.record_size) × (l.record_size ≤ max_record_size)
unfolding layout volume_layout stream_layout has_remainder modulo divide
layout-record_size source l h = ground arith

run_layout-escapes :
    (source : Bytes) (l : InputLayout) (e : ParseError)
    → 0 < l.record_size
    → run_layout source l ≡ err e
    → e ≡ key_error
unfolding run_layout
run_layout-escapes source l e positive h = grind (arith, scan-escapes source l positive)

with_layout-escapes :
    (source : Bytes) (m : Parse InputLayout) (e : ParseError)
    → ((l : InputLayout) → m ≡ ok l → 0 < l.record_size)
    → ((e' : ParseError) → m ≡ err e' → handled e' ≡ true)
    → (m ≢ err unicode_error)
    → with_layout source m ≡ err e
    → e ≡ key_error
unfolding with_layout
with_layout-escapes source (ok l) e size safe plain h =
    run_layout-escapes source l e (size l refl) h
with_layout-escapes source (err (structure_error m)) e size safe plain h = cc
with_layout-escapes source (err unicode_error) e size safe plain h = absurd (plain refl)
with_layout-escapes source (err key_error) e size safe plain h = cc (safe key_error refl)
with_layout-escapes source (err index_error) e size safe plain h = cc (safe index_error refl)
with_layout-escapes source (err zero_division) e size safe plain h = cc (safe zero_division refl)
with_layout-escapes source (err out_of_fuel) e size safe plain h = cc (safe out_of_fuel refl)

layout-ne-unicode : (source : Bytes) → layout source ≢ err unicode_error
unfolding layout volume_layout stream_layout has_remainder modulo divide byte_at uint16 uint32
    uint64 unpack_from
layout-ne-unicode source h = ground arith

-- Whatever bytes it is given, the parser of the model does not run out of fuel, indexes no byte
-- out of range, divides by no zero and decodes no text outside its except clause: the one exception that can escape
-- from `parse` is the KeyError of `item["parsed"]`.
pub parse-escapes : (source : Bytes) (e : ParseError) → parse source ≡ err e → e ≡ key_error
unfolding parse
parse-escapes source e h =
    with_layout-escapes source (layout source) e
      (λ l q. omega (arith, layout-record_size source l q)) (layout-handled source)
      (layout-ne-unicode source) h

conclude-contract :
    (source : Bytes) (l : InputLayout) (done : ℕ × Progress)
    → validate_status_contract (conclude source l done) ≡ true
unfolding validate_status_contract contract conclude
conclude-contract source l (offset, (records, warnings)) = ground arith

layout_failure-contract :
    (message : Text) → validate_status_contract (layout_failure message) ≡ true
unfolding validate_status_contract contract layout_failure
layout_failure-contract message = ground arith

with_layout-contract :
    (source : Bytes) (m : Parse InputLayout) (r : ParserResult ParsedRecord)
    → with_layout source m ≡ ok r
    → validate_status_contract r ≡ true
unfolding with_layout run_layout
with_layout-contract source (ok l) r h = grind (arith, conclude-contract source l)
with_layout-contract source (err (structure_error m)) r h =
    ground (arith, layout_failure-contract m)
with_layout-contract source (err unicode_error) r h = cc
with_layout-contract source (err key_error) r h = cc
with_layout-contract source (err index_error) r h = cc
with_layout-contract source (err zero_division) r h = cc
with_layout-contract source (err out_of_fuel) r h = cc

-- Every result that the parser returns passes the validator of `ParserResult`: its status is
-- terminal and agrees with its warnings, errors and records.
pub parse-contract :
    (source : Bytes) (r : ParserResult ParsedRecord)
    → parse source ≡ ok r
    → validate_status_contract r ≡ true
unfolding parse
parse-contract source r h = with_layout-contract source (layout source) r h
