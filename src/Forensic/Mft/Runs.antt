-- ===== src/Forensic/Mft/Runs.antt =====
-- `NtfsMftParser._data_runs` of backend/app/forensic/ntfs_mft.py: the runs of a non-resident
-- attribute, each with its length and its place relative to the run before it.

use dfir_investigation_workb.Prelude.{
  Bool, List, Option, [], err, false, get_elem?, if◌then◌else◌, length, ltb, none, ok, pos, slice,
  some, suc, true, zero, ℕ, ℤ, ◌%◌, ◌++◌, ◌+ℤ◌, ◌+◌, ◌/◌, ◌==◌, ◌>>=◌, ◌>>◌, ◌||◌, ◌∷◌,
}
use dfir_investigation_workb.Forensic.Bytes.{
  Bytes, Parse, from_bytes, from_bytes_signed, out_of_fuel, reject_if,
}

abbrev pub max_data_runs : ℕ
max_data_runs = 16384

pub record DataRun : Type 0 where
  pub cluster_count : ℕ
  pub lcn : Option ℤ
  pub lcn_delta : Option ℤ
  pub sparse : Bool

-- The delta, and the position after it; a run without an offset is sparse and keeps the position.
unfoldable pub run_position : Bytes → ℕ → ℕ → ℤ → Option ℤ × ℤ
run_position bytes offset offset_size current_lcn =
    if offset_size == 0
    then (none, current_lcn)
    else let delta = from_bytes_signed (slice offset (offset + offset_size) bytes) in
      (some delta, current_lcn +ℤ delta)

abbrev pub make_run : ℕ → Option ℤ × ℤ → DataRun
make_run count (none, current) = record {
  cluster_count = count;
  lcn = none;
  lcn_delta = none;
  sparse = true;
}
make_run count (some delta, current) = record {
  cluster_count = count;
  lcn = some current;
  lcn_delta = some delta;
  sparse = false;
}

-- One run at `offset`, the position of its header byte: the run, the next offset and position.
unfoldable pub read_run : Bytes → ℕ → ℤ → ℕ → Parse (DataRun × ℕ × ℤ)
read_run bytes offset current_lcn header = do
  let length_size = header % 16
  let offset_size = header / 16
  reject_if ((length_size == 0) || (ltb 8 length_size || ltb 8 offset_size))
      "invalid NTFS data-run header"
  reject_if (ltb (length bytes) (offset + 1 + length_size + offset_size))
      "NTFS data run is truncated"
  let cluster_count = from_bytes (slice (offset + 1) (offset + 1 + length_size) bytes)
  reject_if (cluster_count == 0) "NTFS data run has zero clusters"
  let position = run_position bytes (offset + 1 + length_size) offset_size current_lcn
  ok (make_run cluster_count position, offset + 1 + length_size + offset_size, position.1)

-- The loop on fuel: each round moves the offset by two bytes at least.
unfoldable pub data_runs_loop : Bytes → ℕ → ℕ → ℤ → List DataRun → Parse (List DataRun)
data_runs_loop bytes zero offset current_lcn runs = err out_of_fuel
data_runs_loop bytes (suc fuel) offset current_lcn runs = elim (get_elem? bytes offset) [
  | none ↦ ok runs
  | some header ↦ elim (header == 0) [
    | true ↦ ok runs
    | false ↦ read_run bytes offset current_lcn header >>= λ step.
        reject_if (ltb max_data_runs (length runs + 1)) "NTFS data-run count exceeds safe limit"
        >> data_runs_loop bytes fuel step.1 step.2 (runs ++ step.0 ∷ [])
  ]
]

unfoldable pub data_runs : Bytes → Parse (List DataRun)
data_runs bytes = data_runs_loop bytes (suc (length bytes)) 0 (pos 0) []
