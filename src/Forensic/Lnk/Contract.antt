-- ===== src/Forensic/Lnk/Contract.antt =====
-- The exceptions and the results of the Shell Link parser.
use dfir_investigation_workb.Forensic.Lnk.Record.{
  ShellLink, is_long_link, lnk_header_size, normalize_link, optional_string, parse_link, read_body,
  read_link, read_strings, shell_link_clsid, target_id_list, target_link_info, try_link,
}
use dfir_investigation_workb.Forensic.Settle.{
  if-Accepted, reject_if-handled, settle-Accepted, unsupported-Accepted,
}
use dfir_investigation_workb.Forensic.Parser.{ParserContext, ParserResult, validate_status_contract}
use dfir_investigation_workb.Forensic.Lnk.Blocks.{
  Items, Tracker, decode_string, extra_data, extra_data_loop, id_list, id_list_loop, lnk_timestamp,
  string_data,
}
use dfir_investigation_workb.Prelude.{
  Bool, Datetime, List, Option, String, Text, [], arith, drop, err, false, length, ltb, none, not,
  ok, refl, slice, suc, text_eq, true, zero, ℕ, ◌+◌, ◌<◌, ◌||◌, ◌∷◌, ◌≡◌,
}
use dfir_investigation_workb.Forensic.Bytes.{
  Bytes, Parse, ParseError, index_error, key_error, out_of_fuel, structure_error, unicode_error,
  zero_division,
}
use dfir_investigation_workb.Forensic.Bytes.Cp1252.{c_string, decode_cp1252, pairs_until_zero}
use dfir_investigation_workb.Forensic.Raises.{
  bind-handled, decode_utf16-handled, handled, uint16-handled, uint32-handled, uint64-handled,
}
use dfir_investigation_workb.Forensic.Lnk.LinkInfo.{
  link_info, optional_part, part_if, read_link_info, read_network, read_volume_id, uint32_if,
}

c_string-handled :
    (bytes : Bytes) (offset : ℕ) (unicode : Bool) (e : ParseError)
    → c_string bytes offset unicode ≡ err e
    → handled e ≡ true
unfolding c_string
c_string-handled bytes offset unicode e h =
    ground (arith, decode_utf16-handled (pairs_until_zero (drop offset bytes)) e)

decode_cp1252-handled :
    (bytes : Bytes) (e : ParseError) → decode_cp1252 bytes ≡ err e → handled e ≡ true
unfolding decode_cp1252
decode_cp1252-handled [] e h = cc
decode_cp1252-handled (b ∷ bs) e h = ground (arith, decode_cp1252-handled bs e)

uint32_if-handled :
    (b : Bool) (bytes : Bytes) (offset : ℕ) (e : ParseError)
    → uint32_if b bytes offset ≡ err e
    → handled e ≡ true
unfolding uint32_if
uint32_if-handled true bytes offset e h = uint32-handled bytes offset e h
uint32_if-handled false bytes offset e h = cc

ruleset reads =
    (arith, uint16-handled, uint32-handled, uint64-handled, uint32_if-handled, c_string-handled)

read_volume_id-handled :
    (block : Bytes) (offset : ℕ) (e : ParseError)
    → read_volume_id block offset ≡ err e
    → handled e ≡ true
unfolding read_volume_id
read_volume_id-handled block offset e h = grind reads

read_network-handled :
    (block : Bytes) (offset : ℕ) (e : ParseError)
    → read_network block offset ≡ err e
    → handled e ≡ true
unfolding read_network
read_network-handled block offset e h = grind reads

-- An optional part raises nothing that its except clause catches, and the rest is not raised.
optional_part-handled :
    {A : Type 0} (message : String) (warnings : List Text) (m : Parse A)
    → ((e : ParseError) → m ≡ err e → handled e ≡ true)
    → (e : ParseError) → optional_part message warnings m ≡ err e
    → handled e ≡ true
unfolding optional_part
optional_part-handled message warnings (ok a) each e h = cc
optional_part-handled message warnings (err (structure_error m)) each e h = cc
optional_part-handled message warnings (err unicode_error) each e h = cc
optional_part-handled message warnings (err index_error) each e h = cc (each index_error refl)
optional_part-handled message warnings (err key_error) each e h = cc (each key_error refl)
optional_part-handled message warnings (err zero_division) each e h = cc (each zero_division refl)
optional_part-handled message warnings (err out_of_fuel) each e h = cc (each out_of_fuel refl)

volume-handled :
    (b : Bool) (message : String) (warnings : List Text) (block : Bytes) (offset : ℕ)
    (e : ParseError)
    → part_if b message warnings (read_volume_id block offset) ≡ err e
    → handled e ≡ true
unfolding part_if
volume-handled true message warnings block offset e h =
    optional_part-handled message warnings _ (read_volume_id-handled block offset) e h
volume-handled false message warnings block offset e h = cc

network-handled :
    (b : Bool) (message : String) (warnings : List Text) (block : Bytes) (offset : ℕ)
    (e : ParseError)
    → part_if b message warnings (read_network block offset) ≡ err e
    → handled e ≡ true
unfolding part_if
network-handled true message warnings block offset e h =
    optional_part-handled message warnings _ (read_network-handled block offset) e h
network-handled false message warnings block offset e h = cc

read_link_info-handled :
    (block : Bytes) (header_size flags : ℕ) (warnings : List Text) (e : ParseError)
    → read_link_info block header_size flags warnings ≡ err e
    → handled e ≡ true
unfolding read_link_info
read_link_info-handled block header_size flags warnings e h =
    grind
      (arith, uint32-handled, uint32_if-handled, c_string-handled, volume-handled, network-handled)

link_info-handled :
    (bytes : Bytes) (offset : ℕ) (warnings : List Text) (e : ParseError)
    → link_info bytes offset warnings ≡ err e
    → handled e ≡ true
unfolding link_info
link_info-handled bytes offset warnings e h = grind (arith, uint32-handled, read_link_info-handled)

id_list_loop-handled :
    (bytes : Bytes) (fuel offset : ℕ) (found : Items) (e : ParseError)
    → 0 < fuel
    → length bytes < fuel + offset
    → id_list_loop bytes fuel offset found ≡ err e
    → handled e ≡ true
unfolding id_list_loop
id_list_loop-handled bytes zero offset found e some_left enough h = absurd (omega arith)
id_list_loop-handled bytes (suc fuel) offset (items, warnings) e some_left enough h =
    grind (arith, uint16-handled, id_list_loop-handled bytes fuel)

id_list-handled :
    (bytes : Bytes) (warnings : List Text) (e : ParseError)
    → id_list bytes warnings ≡ err e
    → handled e ≡ true
unfolding id_list
id_list-handled bytes warnings e h =
    id_list_loop-handled bytes (suc (length bytes)) 0 ([], warnings) e (omega arith) (omega arith) h

extra_data_loop-handled :
    (bytes : Bytes) (fuel offset : ℕ) (tracker : Option Tracker) (e : ParseError)
    → 0 < fuel
    → length bytes < fuel + offset
    → extra_data_loop bytes fuel offset tracker ≡ err e
    → handled e ≡ true
unfolding extra_data_loop
extra_data_loop-handled bytes zero offset tracker e some_left enough h = absurd (omega arith)
extra_data_loop-handled bytes (suc fuel) offset tracker e some_left enough h =
    grind (arith, uint32-handled, extra_data_loop-handled bytes fuel)

extra_data-handled :
    (bytes : Bytes) (offset : ℕ) (e : ParseError)
    → extra_data bytes offset ≡ err e
    → handled e ≡ true
unfolding extra_data
extra_data-handled bytes offset e h =
    extra_data_loop-handled bytes (suc (length bytes)) offset none e (omega arith) (omega arith) h

lnk_timestamp-handled :
    (bytes : Bytes) (offset : ℕ) (warnings : List Text) (name : String) (e : ParseError)
    → lnk_timestamp bytes offset warnings name ≡ err e
    → handled e ≡ true
unfolding lnk_timestamp
lnk_timestamp-handled bytes offset warnings name e h = ground (arith, uint64-handled bytes offset e)

decode_string-handled :
    (unicode : Bool) (bytes : Bytes) (e : ParseError)
    → decode_string unicode bytes ≡ err e
    → handled e ≡ true
unfolding decode_string
decode_string-handled unicode bytes e h =
    ground (arith, decode_utf16-handled bytes e, decode_cp1252-handled bytes e)

string_data-handled :
    (bytes : Bytes) (offset : ℕ) (unicode : Bool) (e : ParseError)
    → string_data bytes offset unicode ≡ err e
    → handled e ≡ true
unfolding string_data
string_data-handled bytes offset unicode e h = grind (arith, uint16-handled, decode_string-handled)

optional_string-handled :
    (bytes : Bytes) (flags bit offset : ℕ) (e : ParseError)
    → optional_string bytes flags bit offset ≡ err e
    → handled e ≡ true
unfolding optional_string
optional_string-handled bytes flags bit offset e h = grind (arith, string_data-handled)

read_strings-handled :
    (bytes : Bytes) (flags offset : ℕ) (e : ParseError)
    → read_strings bytes flags offset ≡ err e
    → handled e ≡ true
unfolding read_strings
read_strings-handled bytes flags offset =
    let next =
      λ (bit : ℕ) (found : Option Text × ℕ). optional_string-handled bytes flags bit found.1 in
    bind-handled _ _ (optional_string-handled bytes flags 2 offset) (λ a.
      bind-handled _ _ (next 3 a) (λ b.
        bind-handled _ _ (next 4 b)
          (λ c. bind-handled _ _ (next 5 c) (λ d. bind-handled _ _ (next 6 d) (λ l e h. cc)))))

target_id_list-handled :
    (bytes : Bytes) (flags offset : ℕ) (warnings : List Text) (e : ParseError)
    → target_id_list bytes flags offset warnings ≡ err e
    → handled e ≡ true
unfolding target_id_list
target_id_list-handled bytes flags offset warnings e h =
    grind (arith, uint16-handled, id_list-handled)

target_link_info-handled :
    (bytes : Bytes) (flags offset : ℕ) (warnings : List Text) (e : ParseError)
    → target_link_info bytes flags offset warnings ≡ err e
    → handled e ≡ true
unfolding target_link_info
target_link_info-handled bytes flags offset warnings e h = grind (arith, link_info-handled)

read_body-handled :
    (context : ParserContext) (bytes : Bytes) (flags attributes : ℕ)
    (creation access modification : Option Datetime × Option ℕ) (warnings : List Text)
    (e : ParseError)
    → read_body context bytes flags attributes creation access modification warnings ≡ err e
    → handled e ≡ true
unfolding read_body
read_body-handled context bytes flags attributes creation access modification warnings =
    bind-handled _ _ (target_id_list-handled bytes flags lnk_header_size warnings) (λ items.
      bind-handled _ _ (target_link_info-handled bytes flags items.1 items.2) (λ located.
        bind-handled _ _ (read_strings-handled bytes flags located.1) (λ strings.
          bind-handled _ _ (extra_data-handled bytes strings.1) (λ extra.
            bind-handled _ _ (uint32-handled bytes 52) (λ size.
              bind-handled _ _ (uint32-handled bytes 56)
                (λ icon. bind-handled _ _ (uint32-handled bytes 60) (λ show e h. cc)))))))

normalize_link-handled :
    (context : ParserContext) (bytes : Bytes) (e : ParseError)
    → normalize_link context bytes ≡ err e
    → handled e ≡ true
unfolding normalize_link
normalize_link-handled context bytes e h =
    grind (arith, uint32-handled, lnk_timestamp-handled, read_body-handled)

try_link-handled :
    (context : ParserContext) (bytes : Bytes) (e : ParseError)
    → try_link context bytes ≡ err e
    → handled e ≡ true
unfolding try_link
try_link-handled context bytes e h =
    reject_if-handled (is_long_link bytes) "Shell Link exceeds the safe structure size limit"
      (normalize_link context bytes) (normalize_link-handled context bytes) e h

-- Whatever the bytes, the Shell Link parser returns a result, and the result passes the validator
-- of `ParserResult`: its loops end, and every exception is caught.
pub parse_link-contract :
    (context : ParserContext)
    → (r : ParserResult ShellLink) × (parse_link context ≡ ok r)
      × (validate_status_contract r ≡ true)
unfolding parse_link
parse_link-contract context =
    let bytes = read_link context.source in
    if-Accepted (ltb (length bytes) 20 || not (text_eq (slice 4 20 bytes) shell_link_clsid)) _ _
      (unsupported-Accepted _)
      (settle-Accepted _ (try_link context bytes) (try_link-handled context bytes))
