-- ===== src/Forensic/Prefetch/Contract.antt =====
-- The exceptions and the results of the Prefetch parser.
use dfir_investigation_workb.Prelude.{
  List, Text, arith, err, length, lit, ltb, not, ok, slice, suc, take, text_eq, true, zero, ℕ, ◌+◌,
  ◌||◌, ◌≡◌,
}
use dfir_investigation_workb.Forensic.Bytes.{Bytes, ParseError, from_bytes, utf16_fixed}
use dfir_investigation_workb.Forensic.Raises.{
  decode_utf16-handled, handled, uint32-handled, uint64-handled,
}
use dfir_investigation_workb.Forensic.Parser.{ParserContext, ParserResult, validate_status_contract}
use dfir_investigation_workb.Forensic.Settle.{
  if-Accepted, reject_if-handled, settle-Accepted, unless-Accepted, unsupported-Accepted,
}
use dfir_investigation_workb.Forensic.Prefetch.{
  PrefetchFile, Volume, count_offset_of, entry_size_of, execution, is_supported, is_too_large,
  normalize, parse_prefetch, paths, read_execution, read_file, read_limited, read_times,
  read_volume, settle_execution, settle_file, settle_paths, settle_volume, volumes, volumes_loop,
}

read_times-handled :
    (bytes : Bytes) (count offset : ℕ) (e : ParseError)
    → read_times bytes count offset ≡ err e
    → handled e ≡ true
unfolding read_times
read_times-handled bytes zero offset e h = cc
read_times-handled bytes (suc count) offset e h =
    ground (arith, uint64-handled bytes offset e, read_times-handled bytes count (offset + 8) e)

-- The versions that are supported are those of both dictionaries.
count_offset_of-handled :
    (version : ℕ) (e : ParseError)
    → is_supported version ≡ true
    → count_offset_of version ≡ err e
    → handled e ≡ true
unfolding count_offset_of
count_offset_of-handled version e known h = ground (arith, known)

entry_size_of-handled :
    (version : ℕ) (e : ParseError)
    → is_supported version ≡ true
    → entry_size_of version ≡ err e
    → handled e ≡ true
unfolding entry_size_of
entry_size_of-handled version e known h = ground (arith, known)

execution-handled :
    (bytes : Bytes) (version : ℕ) (warnings : List Text) (e : ParseError)
    → is_supported version ≡ true
    → execution bytes version warnings ≡ err e
    → handled e ≡ true
unfolding execution settle_execution read_execution
execution-handled bytes version warnings e known h =
    grind (arith, count_offset_of-handled version, read_times-handled, uint32-handled)

read_volume-handled :
    (bytes : Bytes) (offset entry : ℕ) (e : ParseError)
    → read_volume bytes offset entry ≡ err e
    → handled e ≡ true
unfolding read_volume
read_volume-handled bytes offset entry e h =
    grind (arith, uint32-handled, uint64-handled, decode_utf16-handled)

volumes_loop-handled :
    (bytes : Bytes) (offset entry_size left index : ℕ) (done : List Volume) (warnings : List Text)
    (e : ParseError)
    → volumes_loop bytes offset entry_size left index done warnings ≡ err e
    → handled e ≡ true
unfolding volumes_loop settle_volume
volumes_loop-handled bytes offset entry_size zero index done warnings e h = cc
volumes_loop-handled bytes offset entry_size (suc left) index done warnings e h =
    grind (arith, read_volume-handled, volumes_loop-handled bytes offset entry_size left)

volumes-handled :
    (bytes : Bytes) (offset count version : ℕ) (warnings : List Text) (e : ParseError)
    → is_supported version ≡ true
    → volumes bytes offset count version warnings ≡ err e
    → handled e ≡ true
unfolding volumes
volumes-handled bytes offset count version warnings e known h =
    grind (arith, entry_size_of-handled version, volumes_loop-handled)

module _ (casefold : Text → Text) (set_order : List Text → List Text) where
  paths-handled :
      (bytes : Bytes) (offset size : ℕ) (warnings : List Text) (e : ParseError)
      → paths casefold set_order bytes offset size warnings ≡ err e
      → handled e ≡ true
  unfolding paths settle_paths
  paths-handled bytes offset size warnings e h = grind (arith, decode_utf16-handled)

  normalize-handled :
      (context : ParserContext) (bytes : Bytes) (version : ℕ) (e : ParseError)
      → is_supported version ≡ true
      → normalize casefold set_order context bytes version ≡ err e
      → handled e ≡ true
  unfolding normalize utf16_fixed
  normalize-handled context bytes version e known h = grind (
    arith, uint32-handled, decode_utf16-handled, paths-handled, volumes-handled, execution-handled,
  )

  read_file-handled :
      (context : ParserContext) (version : ℕ) (e : ParseError)
      → is_supported version ≡ true
      → read_file casefold set_order context version ≡ err e
      → handled e ≡ true
  unfolding read_file
  read_file-handled context version e known h =
      reject_if-handled (is_too_large (read_limited context.source))
        "Prefetch input exceeds the safe structure size limit"
        (normalize casefold set_order context (read_limited context.source) version)
        (λ e'. normalize-handled context (read_limited context.source) version e' known) e h

-- Whatever the bytes, the Prefetch parser returns a result, and the result passes the validator of
-- `ParserResult`.
pub parse_prefetch-contract :
    (casefold : Text → Text) (set_order : List Text → List Text) (context : ParserContext)
    → (r : ParserResult PrefetchFile) × (parse_prefetch casefold set_order context ≡ ok r)
      × (validate_status_contract r ≡ true)
unfolding parse_prefetch settle_file
parse_prefetch-contract casefold set_order context =
    let prefix = take 8 context.source in
    let version = from_bytes (take 4 prefix) in
    if-Accepted (text_eq (take 3 prefix) (lit "MAM")) _ _ (unsupported-Accepted _) (
      if-Accepted (ltb (length prefix) 8 || not (text_eq (slice 4 8 prefix) (lit "SCCA"))) _ _
        (unsupported-Accepted _)
        (unless-Accepted (is_supported version) _ _ (unsupported-Accepted _) (λ known.
          settle-Accepted _ (read_file casefold set_order context version)
            (λ e. read_file-handled casefold set_order context version e known))))
