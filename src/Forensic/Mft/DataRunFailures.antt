-- ===== src/Forensic/Mft/DataRunFailures.antt =====
-- The exceptions of the $MFT parser: none leaves a record but the KeyError of `parsed`.
use dfir_investigation_workb.Prelude.{
  List, Option, Option-cases, Result-cases, [], arith, err, get_elem?, inl, inr, length, ok, pos,
  slice, suc, true, zero, ℕ, ℤ, ◌++◌, ◌+◌, ◌<◌, ◌∷◌, ◌≡◌, ◌≤◌,
}
use dfir_investigation_workb.Forensic.Bytes.{Bytes, ParseError, divide, modulo}
use dfir_investigation_workb.Forensic.Raises.{
  byte_at-in_range, handled, uint16-handled, uint32-handled, uint64-handled,
}
use dfir_investigation_workb.Forensic.Mft.Layout.{
  has_remainder, layout, stream_layout, volume_layout,
}
use dfir_investigation_workb.Forensic.Mft.Fixup.{apply_fixup, derived_sector_size, fixup_sectors}
use dfir_investigation_workb.Forensic.Mft.Runs.{DataRun, data_runs, data_runs_loop, read_run}

volume_layout-handled :
    (prefix : Bytes) (e : ParseError)
    → 72 ≤ length prefix
    → volume_layout prefix ≡ err e
    → handled e ≡ true
unfolding volume_layout
volume_layout-handled prefix e long h = ground (
  arith,
  uint16-handled prefix 11 e,
  byte_at-in_range prefix 13 e,
  uint64-handled prefix 48 e,
  uint64-handled prefix 72 e,
)

stream_layout-handled :
    (prefix : Bytes) (e : ParseError) → stream_layout prefix ≡ err e → handled e ≡ true
unfolding stream_layout has_remainder modulo divide
stream_layout-handled prefix e h =
    ground (arith, uint32-handled prefix 28 e, uint16-handled prefix 6 e)

pub layout-handled : (source : Bytes) (e : ParseError) → layout source ≡ err e → handled e ≡ true
unfolding layout
layout-handled source e h = ground (
  arith,
  volume_layout-handled (slice 0 512 source) e,
  stream_layout-handled (slice 0 512 source) e,
)

fixup_sectors-handled :
    (rec : Bytes) (usa_offset sector_size : ℕ) (sequence : Bytes) (rounds index : ℕ) (fixed : Bytes)
    (e : ParseError)
    → fixup_sectors rec usa_offset sector_size sequence rounds index fixed ≡ err e
    → handled e ≡ true
unfolding fixup_sectors
fixup_sectors-handled rec usa_offset sector_size sequence zero index fixed e h = cc
fixup_sectors-handled rec usa_offset sector_size sequence (suc rounds) index fixed e h =
    grind (arith, fixup_sectors-handled rec usa_offset sector_size sequence rounds (index + 1))

pub apply_fixup-handled :
    (rec : Bytes) (sector_size : Option ℕ) (e : ParseError)
    → apply_fixup rec sector_size ≡ err e
    → handled e ≡ true
unfolding apply_fixup derived_sector_size modulo divide
apply_fixup-handled rec sector_size e h =
    grind (arith, uint16-handled rec 4 e, uint16-handled rec 6 e, fixup_sectors-handled)

read_run-handled :
    (bytes : Bytes) (offset : ℕ) (current : ℤ) (header : ℕ) (e : ParseError)
    → read_run bytes offset current header ≡ err e
    → handled e ≡ true
unfolding read_run
read_run-handled bytes offset current header e h = ground arith

-- a run takes its header byte and one more at least
read_run-advances :
    (bytes : Bytes) (offset : ℕ) (current : ℤ) (header : ℕ) (step : DataRun × ℕ × ℤ)
    → read_run bytes offset current header ≡ ok step
    → (offset + 2 ≤ step.1) × (step.1 ≤ length bytes)
unfolding read_run
read_run-advances bytes offset current header step h = ground arith

module _ (bytes : Bytes) where
  data_runs_loop-handled :
      (fuel offset : ℕ) (current : ℤ) (runs : List DataRun) (e : ParseError)
      → offset ≤ length bytes
      → length bytes < fuel + offset
      → data_runs_loop bytes fuel offset current runs ≡ err e
      → handled e ≡ true
  unfolding data_runs_loop
  data_runs_loop-handled zero offset current runs e fits enough h = absurd (omega arith)
  data_runs_loop-handled (suc fuel) offset current runs e fits enough h =
      elim (Option-cases (get_elem? bytes offset)) [
        | inl stop ↦ ground (arith, stop)
        | inr (header, found) ↦ elim (Result-cases (read_run bytes offset current header)) [
          | inl ((run, offset', current'), read) ↦ ground (
            arith,
            found,
            read,
            read_run-advances bytes offset current header (run, offset', current') read,
            data_runs_loop-handled fuel offset' current' (runs ++ run ∷ []) e,
          )
          | inr (e', failed) ↦
              ground (arith, found, failed, read_run-handled bytes offset current header e' failed)
        ]
      ]

-- The fuel of `data_runs` is enough, and no index is out of range.
pub data_runs-handled :
    (bytes : Bytes) (e : ParseError) → data_runs bytes ≡ err e → handled e ≡ true
unfolding data_runs
data_runs-handled bytes e h =
    data_runs_loop-handled bytes (suc (length bytes)) 0 (pos 0) [] e (omega arith) (omega arith) h
