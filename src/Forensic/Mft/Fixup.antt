-- ===== src/Forensic/Mft/Fixup.antt =====
-- `NtfsMftParser._apply_fixup` of backend/app/forensic/ntfs_mft.py: the last two bytes of each
-- sector are checked against the update sequence number and replaced from the array.

use dfir_investigation_workb.Prelude.{
  Bool, Option, decimal, if◌then◌else◌, length, lit, ltb, none, not, ok, raise_if, slice, some,
  splice, suc, text_eq, zero, ℕ, ◌*◌, ◌++◌, ◌+◌, ◌-◌, ◌==◌, ◌>>=◌, ◌>>◌, ◌||◌,
}
use dfir_investigation_workb.Forensic.Bytes.{
  Bytes, Parse, divide, modulo, reject_if, structure_error, uint16,
}

-- The sectors from `index` on. `sector_size` is at least 2 behind the guards of `apply_fixup`,
-- so the subtraction is the source's.
unfoldable pub fixup_sectors : Bytes → ℕ → ℕ → Bytes → ℕ → ℕ → Bytes → Parse Bytes
fixup_sectors rec usa_offset sector_size sequence zero index fixed = ok fixed
fixup_sectors rec usa_offset sector_size sequence (suc rounds) index fixed = do
  let end = (index + 1) * sector_size - 2
  raise_if (not (text_eq (slice end (end + 2) rec) sequence))
      (structure_error (lit "update sequence mismatch in sector " ++ decimal index))
  let replacement = slice (usa_offset + 2 + index * 2) (usa_offset + 4 + index * 2) rec
  fixup_sectors rec usa_offset sector_size sequence rounds (index + 1)
      (splice end (end + 2) replacement fixed)

-- 0 where the record is no whole number of sectors
unfoldable pub derived_sector_size : ℕ → ℕ → Parse ℕ
derived_sector_size size sectors = do
  rest ← modulo size sectors
  if rest == 0 then divide size sectors else ok 0

unfoldable pub geometry_differs : ℕ → Option ℕ → Bool
geometry_differs derived none = derived == 0
geometry_differs derived (some expected) = (derived == 0) || not (derived == expected)

unfoldable pub apply_fixup : Bytes → Option ℕ → Parse Bytes
apply_fixup rec sector_size = do
  usa_offset ← uint16 rec 4
  usa_count ← uint16 rec 6
  reject_if (ltb usa_count 2 || (ltb usa_offset 8 || ltb (length rec) (usa_offset + usa_count * 2)))
      "invalid update sequence array"
  let sectors = usa_count - 1
  derived ← derived_sector_size (length rec) sectors
  reject_if (geometry_differs derived sector_size)
      "update sequence geometry does not match record size"
  let sequence = slice usa_offset (usa_offset + 2) rec
  fixup_sectors rec usa_offset derived sequence sectors 0 rec
