-- ===== src/Forensic/Settle.antt =====
-- The try statement that backend/app/forensic/prefetch.py and lnk.py end `parse` with: the result
-- of a file that was read, and of one that was not.
use dfir_investigation_workb.Prelude.{
  Bool, List, String, Text, [], arith, err, false, if◌then◌else◌, lit, not, ok, refl, true, ◌++◌,
  ◌>>◌, ◌∷◌, ◌≡◌,
}
use dfir_investigation_workb.Domain.{ParserExecutionStatus}
use dfir_investigation_workb.Forensic.Bytes.{
  Parse, ParseError, index_error, key_error, out_of_fuel, reject_if, structure_error, unicode_error,
  zero_division,
}
use dfir_investigation_workb.Forensic.Raises.{handled}
use dfir_investigation_workb.Forensic.Parser.{
  ParserResult, contract, is_empty, validate_status_contract,
}

module _ {R : Type 0} where
  -- a result with one error and no record
  abbrev pub refused : ParserExecutionStatus → Text → ParserResult R
  refused status message = record {
    status = status;
    records = [];
    warnings = [];
    errors = message ∷ [];
  }

  -- The class of the exception is named behind `failure`.
  unfoldable pub settle : Text → Parse (R × List Text) → Parse (ParserResult R)
  settle failure (ok (one, warnings)) = ok (record {
    status =
        if is_empty warnings
        then ParserExecutionStatus.completed
        else ParserExecutionStatus.completed_with_warnings;
    records = one ∷ [];
    warnings = warnings;
    errors = [];
  })
  settle failure (err (structure_error m)) =
      ok (refused ParserExecutionStatus.failed (failure ++ lit "StructureError"))
  settle failure (err unicode_error) =
      ok (refused ParserExecutionStatus.failed (failure ++ lit "UnicodeDecodeError"))
  settle failure (err e) = err e

  -- A call returns, and what it returns passes the validator.
  abbrev pub Accepted : Parse (ParserResult R) → Type 0
  Accepted m = (r : ParserResult R) × (m ≡ ok r) × (validate_status_contract r ≡ true)

  pub if-Accepted :
      (b : Bool) (m k : Parse (ParserResult R))
      → Accepted m
      → Accepted k
      → Accepted (if b then m else k)
  if-Accepted true m k hm hk = hm
  if-Accepted false m k hm hk = hk

  -- Behind a refusal the test is known to hold.
  pub unless-Accepted :
      (b : Bool) (m k : Parse (ParserResult R))
      → Accepted m
      → (b ≡ true → Accepted k)
      → Accepted (if not b then m else k)
  unless-Accepted true m k hm hk = hk refl
  unless-Accepted false m k hm hk = hm

  pub unsupported-Accepted :
      (message : Text) → Accepted (ok (refused ParserExecutionStatus.unsupported message))
  unfolding validate_status_contract contract
  unsupported-Accepted message = (_, refl, refl)

  -- No other exception than those of the except clause comes out of the body.
  pub settle-Accepted :
      (failure : Text) (m : Parse (R × List Text))
      → ((e : ParseError) → m ≡ err e → handled e ≡ true)
      → Accepted (settle failure m)
  unfolding settle validate_status_contract contract
  settle-Accepted failure (ok (file, [])) h = (_, refl, refl)
  settle-Accepted failure (ok (file, w ∷ ws)) h = (_, refl, refl)
  settle-Accepted failure (err (structure_error m)) h = (_, refl, refl)
  settle-Accepted failure (err unicode_error) h = (_, refl, refl)
  settle-Accepted failure (err index_error) h = cc (h index_error refl)
  settle-Accepted failure (err key_error) h = cc (h key_error refl)
  settle-Accepted failure (err zero_division) h = cc (h zero_division refl)
  settle-Accepted failure (err out_of_fuel) h = cc (h out_of_fuel refl)

pub reject_if-handled :
    {A : Type 0} (b : Bool) (message : String) (m : Parse A)
    → ((e : ParseError) → m ≡ err e → handled e ≡ true)
    → (e : ParseError) → (reject_if b message >> m) ≡ err e
    → handled e ≡ true
reject_if-handled true message m each e h = ground arith
reject_if-handled false message m each e h = each e h
