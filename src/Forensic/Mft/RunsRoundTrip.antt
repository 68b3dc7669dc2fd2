-- ===== src/Forensic/Mft/RunsRoundTrip.antt =====
-- Reading back a run list that was written in its on-disk form: `_data_runs` of ntfs_mft.py.
use mathlib.Core.List.{append_assoc, append-nil}
use dfir_investigation_workb.Prelude.{
  All, List, [], ap, arith, get_elem?, get_elem?-append, length, length-append, ok, pos, slice,
  some, suc, zero, ℕ, ℤ, ◌*◌, ◌++◌, ◌+◌, ◌<◌, ◌∙◌, ◌∷◌, ◌≡◌, ◌≤◌,
}
use dfir_investigation_workb.Forensic.Bytes.{Bytes}
use dfir_investigation_workb.Forensic.Bytes.Words.{from_bytes-to_bytes, length-to_bytes, to_bytes}
use dfir_investigation_workb.Forensic.Mft.Runs.{
  DataRun, data_runs, data_runs_loop, max_data_runs, read_run, run_position,
}
use dfir_investigation_workb.Forensic.Mft.RunList.{
  Extent, IsExtent, after_run, append_both, append_head, encode_run, encode_runs,
  from_bytes_signed-to_bytes, header_parts, run_of, runs_of, signed_word, slice-middle,
}

-- One run is read back where its two fields stand.
read_run-fields :
    (bytes : Bytes) (offset : ℕ) (current : ℤ) (x : Extent)
    → IsExtent x
    → slice (offset + 1) (offset + 1 + x.length_size) bytes ≡ to_bytes x.length_size x.cluster_count
    → slice (offset + 1 + x.length_size) (offset + 1 + x.length_size + x.offset_size) bytes
      ≡ to_bytes x.offset_size (signed_word x.offset_size x.delta)
    → offset + 1 + x.length_size + x.offset_size ≤ length bytes
    → read_run bytes offset current (x.length_size + 16 * x.offset_size)
      ≡ ok (run_of current x, offset + 1 + x.length_size + x.offset_size, after_run current x)
unfolding read_run run_position
read_run-fields bytes offset current x valid count word fits =
    let parts = header_parts x.length_size x.offset_size valid.length_small in
    let c = from_bytes-to_bytes x.length_size x.cluster_count valid.count_fits in
    let d = from_bytes_signed-to_bytes x.offset_size x.delta valid.delta_fits in
    rw (parts.0, parts.1, count, word, c, d) (ground arith)

module _ (pre rest : Bytes) (x : Extent) where
  abbrev count_bytes : Bytes
  count_bytes = to_bytes x.length_size x.cluster_count

  abbrev word_bytes : Bytes
  word_bytes = to_bytes x.offset_size (signed_word x.offset_size x.delta)

  abbrev header : ℕ
  header = x.length_size + 16 * x.offset_size

  abbrev bytes : Bytes
  bytes = pre ++ (encode_run x ++ rest)

  count-slice : slice (length pre + 1) (length pre + 1 + x.length_size) bytes ≡ count_bytes
  count-slice = rw (append_head pre header count_bytes word_bytes rest) (
      slice-middle (pre ++ header ∷ []) count_bytes (word_bytes ++ rest) _ _
        (omega (arith, length-append pre (header ∷ [])))
        (omega (arith, length-to_bytes x.length_size x.cluster_count)))

  word-slice :
      slice (length pre + 1 + x.length_size) (length pre + 1 + x.length_size + x.offset_size) bytes
      ≡ word_bytes
  word-slice = rw (append_both pre header count_bytes word_bytes rest) (
      slice-middle ((pre ++ header ∷ []) ++ count_bytes) word_bytes rest _ _
        (omega (
          arith,
          length-append (pre ++ header ∷ []) count_bytes,
          length-append pre (header ∷ []),
          length-to_bytes x.length_size x.cluster_count,
        ))
        (omega (arith, length-to_bytes x.offset_size (signed_word x.offset_size x.delta))))

  length-encode_run : length (encode_run x) ≡ 1 + x.length_size + x.offset_size
  length-encode_run = omega (
    arith,
    length-append count_bytes word_bytes,
    length-to_bytes x.length_size x.cluster_count,
    length-to_bytes x.offset_size (signed_word x.offset_size x.delta),
  )

  length-bytes : length bytes ≡ length pre + (1 + x.length_size + x.offset_size) + length rest
  length-bytes = omega (
    arith,
    length-append pre (encode_run x ++ rest),
    length-append (encode_run x) rest,
    length-encode_run,
  )

  header-at : get_elem? bytes (length pre) ≡ some header
  header-at = ground (arith, get_elem?-append pre (encode_run x ++ rest) (length pre))

  read_run-encode :
      IsExtent x
      → (current : ℤ)
      → read_run bytes (length pre) current header
        ≡ ok (run_of current x, length (pre ++ encode_run x), after_run current x)
  read_run-encode valid current =
      read_run-fields bytes (length pre) current x valid count-slice word-slice
        (omega (arith, length-bytes))
      ∙ ap (λ (n : ℕ). ok (run_of current x, n, after_run current x))
          (omega (arith, length-append pre (encode_run x), length-encode_run))

-- one round of the loop
data_runs_loop-step :
    (bytes : Bytes) (fuel offset : ℕ) (current : ℤ) (runs : List DataRun) (header : ℕ)
    (run : DataRun) (offset' : ℕ) (current' : ℤ)
    → get_elem? bytes offset ≡ some header
    → 0 < header
    → read_run bytes offset current header ≡ ok (run, offset', current')
    → length runs + 1 ≤ max_data_runs
    → data_runs_loop bytes (suc fuel) offset current runs
      ≡ data_runs_loop bytes fuel offset' current' (runs ++ run ∷ [])
unfolding data_runs_loop
data_runs_loop-step bytes fuel offset current runs header run offset' current' h1 h2 h3 h4 =
    ground (arith, h1, h3)

data_runs_loop-stop :
    (bytes : Bytes) (fuel offset : ℕ) (current : ℤ) (runs : List DataRun)
    → get_elem? bytes offset ≡ some 0
    → data_runs_loop bytes (suc fuel) offset current runs ≡ ok runs
unfolding data_runs_loop
data_runs_loop-stop bytes fuel offset current runs h = ground (arith, h)

length-le_encode : (xs : List Extent) → length xs ≤ length (encode_runs xs)
length-le_encode [] = omega arith
length-le_encode (x ∷ xs) =
    omega (arith, length-append (encode_run x) (encode_runs xs), length-le_encode xs)

module _ (rest : Bytes) where
  data_runs_loop-encode :
      (xs : List Extent) (pre : Bytes) (fuel : ℕ) (current : ℤ) (runs : List DataRun)
      → All IsExtent xs
      → length xs < fuel
      → length runs + length xs ≤ max_data_runs
      → data_runs_loop (pre ++ (encode_runs xs ++ 0 ∷ rest)) fuel (length pre) current runs
        ≡ ok (runs ++ runs_of current xs)
  data_runs_loop-encode xs pre zero current runs valid enough small = absurd (omega arith)
  data_runs_loop-encode [] pre (suc fuel) current runs valid enough small = rw append-nil (
      data_runs_loop-stop (pre ++ 0 ∷ rest) fuel (length pre) current runs
        (ground (arith, get_elem?-append pre (0 ∷ rest) (length pre))))
  data_runs_loop-encode (x ∷ xs) pre (suc fuel) current runs valid enough small =
      let tail = encode_runs xs ++ 0 ∷ rest in
      let run = run_of current x in
      let current' = after_run current x in
      let joined : pre ++ (encode_run x ++ tail) ≡ (pre ++ encode_run x) ++ tail =
        simp append_assoc in
      let step =
        data_runs_loop-step (pre ++ (encode_run x ++ tail)) fuel (length pre) current runs
          (x.length_size + 16 * x.offset_size) run (length (pre ++ encode_run x)) current'
          (header-at pre tail x) (omega (arith, valid.0.length_some))
          (read_run-encode pre tail x valid.0 current) (omega arith) in
      let ih =
        data_runs_loop-encode xs (pre ++ encode_run x) fuel current' (runs ++ run ∷ []) valid.1
          (omega arith) (omega (arith, length-append runs (run ∷ []))) in
      let moved =
        ap
          (λ (b : Bytes).
            data_runs_loop b fuel (length (pre ++ encode_run x)) current' (runs ++ run ∷ []))
          joined in
      rw (append_assoc (encode_run x) (encode_runs xs) (0 ∷ rest)) (
        step
        ∙ (moved
            ∙ (ih
                ∙ ap (λ (l : List DataRun). ok l)
                    (append_assoc runs (run ∷ []) (runs_of current' xs)))))

-- A run list that is written in its on-disk form and closed by a zero byte is read back exactly,
-- whatever stands behind it: the counts, the sparse runs, and the positions as sums of the signed
-- distances. The fields must fit their sizes, and the list the limit of 16384 runs.
pub data_runs-encode :
    (xs : List Extent) (rest : Bytes)
    → All IsExtent xs
    → length xs ≤ max_data_runs
    → data_runs (encode_runs xs ++ 0 ∷ rest) ≡ ok (runs_of (pos 0) xs)
unfolding data_runs
data_runs-encode xs rest valid small =
    data_runs_loop-encode rest xs [] (suc (length (encode_runs xs ++ 0 ∷ rest))) (pos 0) [] valid
      (omega (arith, length-le_encode xs, length-append (encode_runs xs) (0 ∷ rest))) (omega arith)
