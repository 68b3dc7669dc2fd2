-- ===== src/Forensic/Bytes/Cp1252.antt =====
-- `c_string` of backend/app/forensic/windows_binary.py, and Python's cp1252 codec.
use dfir_investigation_workb.Prelude.{
  Bool, List, Option, Text, [], drop, err, get_elem?, if◌then◌else◌, leb, length, ltb, none, ok,
  some, ℕ, ◌&&◌, ◌-◌, ◌==◌, ◌>>=◌, ◌||◌, ◌∷◌,
}
use dfir_investigation_workb.Forensic.Bytes.{Bytes, Parse, decode_utf16, prepend, unicode_error}

-- the characters of the bytes 0x80 to 0x9f; 0 stands for a byte that the codec does not know
abbrev high_characters : List ℕ
high_characters =
    0x20ac ∷ 0 ∷ 0x201a ∷ 0x192 ∷ 0x201e ∷ 0x2026 ∷ 0x2020 ∷ 0x2021 ∷ 0x2c6 ∷ 0x2030 ∷ 0x160
    ∷ 0x2039 ∷ 0x152 ∷ 0 ∷ 0x17d ∷ 0 ∷ 0 ∷ 0x2018 ∷ 0x2019 ∷ 0x201c ∷ 0x201d ∷ 0x2022 ∷ 0x2013
    ∷ 0x2014 ∷ 0x2dc ∷ 0x2122 ∷ 0x161 ∷ 0x203a ∷ 0x153 ∷ 0 ∷ 0x17e ∷ 0x178 ∷ []

unfoldable pub cp1252_character : ℕ → Option ℕ
cp1252_character b =
    if leb 0x80 b && ltb b 0xa0
    then elim (get_elem? high_characters (b - 0x80)) [
      | none ↦ none
      | some c ↦ if c == 0 then none else some c
    ]
    else some b

-- `.decode("cp1252")`
unfoldable pub decode_cp1252 : Bytes → Parse Text
decode_cp1252 [] = ok []
decode_cp1252 (b ∷ bs) =
    let rest = decode_cp1252 bs in
    elim (cp1252_character b) [ none ↦ err unicode_error | some c ↦ prepend c rest ]

-- `.decode("cp1252", errors="replace")`
unfoldable pub decode_cp1252_replacing : Bytes → Text
decode_cp1252_replacing [] = []
decode_cp1252_replacing (b ∷ bs) =
    elim (cp1252_character b) [ none ↦ 0xfffd | some c ↦ c ] ∷ decode_cp1252_replacing bs

-- the bytes before the first zero byte
unfoldable pub until_zero : Bytes → Bytes
until_zero [] = []
until_zero (b ∷ bs) = if b == 0 then [] else b ∷ until_zero bs

-- The pairs before the first pair of zero bytes; an odd last byte is left out.
unfoldable pub pairs_until_zero : Bytes → Bytes
pairs_until_zero [] = []
pairs_until_zero (a ∷ []) = []
pairs_until_zero (a ∷ b ∷ rest) = if (a == 0) && (b == 0) then [] else a ∷ b ∷ pairs_until_zero rest

-- `c_string`
unfoldable pub c_string : Bytes → ℕ → Bool → Parse (Option Text)
unfolding pairs_until_zero until_zero decode_cp1252_replacing
c_string bytes offset unicode =
    if (offset == 0) || leb (length bytes) offset
    then ok none
    else if unicode
    then (do text ← decode_utf16 (pairs_until_zero (drop offset bytes)); ok (some text))
    else ok (some (decode_cp1252_replacing (until_zero (drop offset bytes))))
