-- ===== src/Forensic/Mft/RunList.antt =====
-- The writer that `_data_runs` of ntfs_mft.py undoes: a run list in its on-disk form.
use mathlib.Core.List.{append_assoc}
use dfir_investigation_workb.Prelude.{
  List, [], arith, drop-length-append, false, if◌then◌else◌, length, negsuc, none, pos, refl, slice,
  some, take-length-append, true, ℕ, ℤ, ◌%◌, ◌*◌, ◌++◌, ◌+ℤ◌, ◌+◌, ◌-◌, ◌/◌, ◌<◌, ◌==◌, ◌∷◌, ◌≡◌,
  ◌≤◌,
}
use dfir_investigation_workb.Forensic.Bytes.{Bytes, byte_limit, from_bytes_signed}
use dfir_investigation_workb.Forensic.Bytes.Words.{from_bytes-to_bytes, length-to_bytes, to_bytes}
use dfir_investigation_workb.Forensic.Mft.Runs.{DataRun}

-- A run as the volume driver knows it: its length, and the distance to the run before it, or none
-- for a sparse run. The sizes are those of the two fields.
pub record Extent : Type 0 where
  pub length_size : ℕ
  pub cluster_count : ℕ
  pub offset_size : ℕ
  pub delta : ℤ

-- two's complement
abbrev pub signed_word : ℕ → ℤ → ℕ
signed_word size (pos n) = n
signed_word size (negsuc n) = byte_limit size - 1 - n

-- Half of the words of a size are negative.
abbrev pub FitsSigned : ℕ → ℤ → Type 0
FitsSigned size (pos n) = 2 * n < byte_limit size
FitsSigned size (negsuc n) = 2 * n + 2 ≤ byte_limit size

pub record IsExtent (x : Extent) : Type 0 where
  pub length_some : 0 < x.length_size
  pub length_small : x.length_size ≤ 8
  pub offset_small : x.offset_size ≤ 8
  pub count_some : 0 < x.cluster_count
  pub count_fits : x.cluster_count < byte_limit x.length_size
  pub delta_fits : FitsSigned x.offset_size x.delta

abbrev pub encode_run : Extent → Bytes
encode_run x =
    (x.length_size + 16 * x.offset_size)
    ∷ (to_bytes x.length_size x.cluster_count
        ++ to_bytes x.offset_size (signed_word x.offset_size x.delta))

abbrev pub encode_runs : List Extent → Bytes
encode_runs [] = []
encode_runs (x ∷ xs) = encode_run x ++ encode_runs xs

-- The position after a run; one with no offset field is sparse and does not move it.
abbrev pub after_run : ℤ → Extent → ℤ
after_run current x = if x.offset_size == 0 then current else current +ℤ x.delta

abbrev pub run_of : ℤ → Extent → DataRun
run_of current x =
    if x.offset_size == 0
    then record { cluster_count = x.cluster_count; lcn = none; lcn_delta = none; sparse = true }
    else record {
      cluster_count = x.cluster_count;
      lcn = some (current +ℤ x.delta);
      lcn_delta = some x.delta;
      sparse = false;
    }

abbrev pub runs_of : ℤ → List Extent → List DataRun
runs_of current [] = []
runs_of current (x ∷ xs) = run_of current x ∷ runs_of (after_run current x) xs

signed_word-lt : (size : ℕ) (z : ℤ) → FitsSigned size z → signed_word size z < byte_limit size
signed_word-lt size (pos n) h = omega arith
signed_word-lt size (negsuc n) h = omega arith

pub from_bytes_signed-to_bytes :
    (size : ℕ) (z : ℤ)
    → FitsSigned size z
    → from_bytes_signed (to_bytes size (signed_word size z)) ≡ z
unfolding from_bytes_signed
from_bytes_signed-to_bytes size (pos n) h =
    ground (arith, length-to_bytes size n, from_bytes-to_bytes size n)
from_bytes_signed-to_bytes size (negsuc n) h = ground (
  arith,
  length-to_bytes size (byte_limit size - 1 - n),
  from_bytes-to_bytes size (byte_limit size - 1 - n),
)

-- What stands between a prefix and a rest is cut out whole.
pub slice-middle :
    (pre xs rest : Bytes) (start stop : ℕ)
    → start ≡ length pre
    → stop ≡ start + length xs
    → slice start stop (pre ++ (xs ++ rest)) ≡ xs
unfolding slice
slice-middle pre xs rest start stop h1 h2 =
    let width : stop - start ≡ length xs = omega arith in
    rw (width, h1, drop-length-append, take-length-append) refl

-- The header byte of a run, taken apart again.
pub header_parts : (a b : ℕ) → a ≤ 8 → ((a + 16 * b) % 16 ≡ a) × ((a + 16 * b) / 16 ≡ b)
header_parts a b h = omega arith

pub append_head :
    (pre : Bytes) (h : ℕ) (xs ys rest : Bytes)
    → pre ++ ((h ∷ (xs ++ ys)) ++ rest) ≡ (pre ++ h ∷ []) ++ (xs ++ (ys ++ rest))
append_head pre h xs ys rest = simp append_assoc

pub append_both :
    (pre : Bytes) (h : ℕ) (xs ys rest : Bytes)
    → pre ++ ((h ∷ (xs ++ ys)) ++ rest) ≡ ((pre ++ h ∷ []) ++ xs) ++ (ys ++ rest)
append_both pre h xs ys rest = simp append_assoc
