-- ===== src/Forensic/Parser.antt =====
-- backend/app/forensic/parser.py and registry.py: the contract between parsers and the services.
use dfir_investigation_workb.Prelude.{
  Bool, List, Option, Text, [], false, if◌then◌else◌, none, not, some, true, ◌&&◌, ◌∷◌,
}
use dfir_investigation_workb.Domain.{ParserExecutionStatus}
use dfir_investigation_workb.Forensic.Bytes.{Bytes}

-- `ParserResult`. `Record` stands for `ParsedRecord`, whose data each parser shapes itself; the
-- free-form `metadata` and `statistics` have no part in the contract and are left out.
pub record ParserResult (Record : Type 0) : Type 0 where
  pub status : ParserExecutionStatus
  pub records : List Record
  pub warnings : List Text
  pub errors : List Text

abbrev pub is_empty {ℓ} : {A : Type ℓ} → List A → Bool
is_empty [] = true
is_empty (x ∷ xs) = false

-- The cases of the contract, on whether there are warnings, errors and records.
unfoldable pub contract : ParserExecutionStatus → Bool → Bool → Bool → Bool
contract ParserExecutionStatus.pending no_warnings no_errors no_records = false
contract ParserExecutionStatus.running no_warnings no_errors no_records = false
contract ParserExecutionStatus.completed no_warnings no_errors no_records = no_warnings && no_errors
contract ParserExecutionStatus.completed_with_warnings no_warnings no_errors no_records =
    not no_warnings && no_errors
contract ParserExecutionStatus.failed no_warnings no_errors no_records = not no_errors && no_records
contract ParserExecutionStatus.unsupported no_warnings no_errors no_records =
    not no_errors && no_records

-- `ParserResult.validate_status_contract`: whether the validator lets the result through
unfoldable pub validate_status_contract : {R : Type 0} → ParserResult R → Bool
validate_status_contract r =
    contract r.status (is_empty r.warnings) (is_empty r.errors) (is_empty r.records)

-- What a parser is given: the bytes of the evidence file, read from the start.
pub record ParserContext : Type 0 where
  pub source : Bytes
  pub source_name : Option Text
  pub evidence_id : Text

-- `context.source_name or evidence_identifier`
unfoldable pub source_identifier_of : Option Text → Text → Text
source_identifier_of none evidence = evidence
source_identifier_of (some name) evidence = if is_empty name then evidence else name
