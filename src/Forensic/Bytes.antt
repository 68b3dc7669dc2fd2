-- ===== src/Forensic/Bytes.antt =====
-- backend/app/forensic/windows_binary.py, and the parts of Python's `bytes` that the parsers use.
-- A byte string is the list of its bytes; an offset is never negative in the callers.
pub mod Words
pub mod Cp1252
use dfir_investigation_workb.Prelude.{
  Bool, Datetime, List, Option, Result, String, Text, [], err, false, get_elem?, if◌then◌else◌, leb,
  length, lit, ltb, negsuc, none, ok, pos, raise_if, slice, some, suc, true, zero, ℕ, ℤ, ◌%◌, ◌&&◌,
  ◌*◌, ◌+◌, ◌-◌, ◌/◌, ◌<◌, ◌==◌, ◌>>=◌, ◌>>◌, ◌||◌, ◌∷◌,
}

abbrev pub Bytes : Type 0
Bytes = List ℕ

abbrev pub IsByte : ℕ → Type 0
IsByte b = b < 256

-- What a parser's code may raise. `out_of_fuel` is no exception of Python: it marks a loop of the
-- model that was given too few rounds.
pub data ParseError : Type 0 where
  structure_error : Text → ParseError
  unicode_error : ParseError
  index_error key_error : ParseError
  -- ZeroDivisionError
  zero_division : ParseError
  out_of_fuel : ParseError

abbrev pub Parse {ℓ} : Type ℓ → Type ℓ
Parse A = Result ParseError A

-- `raise StructureError(message)` behind a test
abbrev pub reject_if : Bool → String → Parse (Unit {0})
reject_if b message = raise_if b (structure_error (lit message))

-- `a % b` and `a // b`
unfoldable pub modulo : ℕ → ℕ → Parse ℕ
modulo a b = if b == 0 then err zero_division else ok (a % b)

unfoldable pub divide : ℕ → ℕ → Parse ℕ
divide a b = if b == 0 then err zero_division else ok (a / b)

-- `int.from_bytes(data, "little")`
unfoldable pub from_bytes : Bytes → ℕ
from_bytes [] = 0
from_bytes (b ∷ bs) = b + 256 * from_bytes bs

-- `data[index]`
unfoldable pub byte_at : Bytes → ℕ → Parse ℕ
byte_at data' index = elim (get_elem? data' index) [ none ↦ err index_error | some b ↦ ok b ]

-- `unpack_from` at a format of one unsigned little-endian word of `size` bytes
unfoldable pub unpack_from : ℕ → Bytes → ℕ → Parse ℕ
unpack_from size data' offset = do
  reject_if (ltb (length data') (offset + size)) "structure extends beyond available bytes"
  ok (from_bytes (slice offset (offset + size) data'))

unfoldable pub uint16 : Bytes → ℕ → Parse ℕ
uint16 data' offset = unpack_from 2 data' offset

unfoldable pub uint32 : Bytes → ℕ → Parse ℕ
uint32 data' offset = unpack_from 4 data' offset

unfoldable pub uint64 : Bytes → ℕ → Parse ℕ
uint64 data' offset = unpack_from 8 data' offset

-- 1601-01-01, and 9999-12-31T23:59:59.999999, the last `datetime`
abbrev pub windows_epoch : Datetime
windows_epoch = 584388 * 86400000000

abbrev pub max_datetime : Datetime
max_datetime = 3652059 * 86400000000 - 1

-- `filetime`: the raw value stands for its own decimal text.
unfoldable pub filetime : ℕ → Option Datetime × Option ℕ
filetime value =
    if value == 0
    then (none, none)
    else if ltb max_datetime (windows_epoch + value / 10)
    then (none, some value)
    else (some (windows_epoch + value / 10), some value)

-- `parsed is None and raw is not None` of what `filetime` returns
abbrev pub is_unrepresentable : Option Datetime × Option ℕ → Bool
is_unrepresentable (none, some raw) = true
is_unrepresentable _ = false

-- a code unit that is no surrogate
unfoldable pub is_scalar : ℕ → Bool
is_scalar unit = ltb unit 0xd800 || leb 0xe000 unit

-- a high surrogate before a low one, and the code point that they stand for
unfoldable pub is_pair : ℕ → ℕ → Bool
is_pair high low = leb 0xd800 high && ltb high 0xdc00 && (leb 0xdc00 low && ltb low 0xe000)

unfoldable pub pair_code : ℕ → ℕ → ℕ
pair_code high low = 0x10000 + (high - 0xd800) * 0x400 + (low - 0xdc00)

abbrev pub code_unit : ℕ → ℕ → ℕ
code_unit a b = a + 256 * b

abbrev pub prepend : ℕ → Parse Text → Parse Text
prepend c (ok tail) = ok (c ∷ tail)
prepend c (err e) = err e

-- `.decode("utf-16-le")` with strict errors: a lone surrogate or an odd byte is a UnicodeError.
unfoldable pub decode_utf16 : Bytes → Parse Text
decode_utf16 [] = ok []
decode_utf16 (a ∷ []) = err unicode_error
decode_utf16 (a ∷ b ∷ []) =
    if is_scalar (code_unit a b) then ok (code_unit a b ∷ []) else err unicode_error
decode_utf16 (a ∷ b ∷ c ∷ []) = err unicode_error
decode_utf16 (a ∷ b ∷ c ∷ d ∷ rest) =
    let single = prepend (code_unit a b) (decode_utf16 (c ∷ d ∷ rest)) in
    let pair = prepend (pair_code (code_unit a b) (code_unit c d)) (decode_utf16 rest) in
    if is_scalar (code_unit a b)
    then single
    else if is_pair (code_unit a b) (code_unit c d)
    then pair
    else err unicode_error

-- `utf16_fixed`: the text up to the first aligned pair of zero bytes
unfoldable pub until_zero_pair : Bytes → Bytes
until_zero_pair [] = []
until_zero_pair (a ∷ []) = a ∷ []
until_zero_pair (a ∷ b ∷ rest) = if (a == 0) && (b == 0) then [] else a ∷ b ∷ until_zero_pair rest

unfoldable pub utf16_fixed : Bytes → Parse Text
utf16_fixed data' = decode_utf16 (until_zero_pair data')

abbrev pub byte_limit : ℕ → ℕ
byte_limit zero = 1
byte_limit (suc size) = 256 * byte_limit size

-- `int.from_bytes(data, "little", signed=True)`: two's complement
unfoldable pub from_bytes_signed : Bytes → ℤ
from_bytes_signed bs =
    let u = from_bytes bs in
    let limit = byte_limit (length bs) in
    if ltb (2 * u) limit then pos u else negsuc (limit - 1 - u)
