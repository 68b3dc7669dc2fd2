-- ===== src/Forensic/Mft/Restores.antt =====
-- What `_apply_fixup` of ntfs_mft.py returns, byte by byte.
use native.Mathlib.Nat.{div-add-mod}
use dfir_investigation_workb.Forensic.Mft.Fixup.{
  apply_fixup, derived_sector_size, fixup_sectors, geometry_differs,
}
use dfir_investigation_workb.Prelude.{
  ==→eq, Option, arith, get_elem?, get_elem?-slice, get_elem?-splice, if◌then◌else◌, leb, length,
  length-slice, length-splice, ok, slice, splice, suc, true, zero, ℕ, ◌%◌, ◌&&◌, ◌*◌, ◌+◌, ◌-◌, ◌/◌,
  ◌<◌, ◌==◌, ◌≡◌, ◌≤◌,
}
use dfir_investigation_workb.Forensic.Bytes.{Bytes, divide, modulo, uint16}

-- a sector that comes earlier ends before the last two bytes of a later one begin
before : (i index sector r : ℕ) → i < index → r < sector → i * sector + r < index * sector
before i index sector r h1 h2 = grind arith

after : (i index sector : ℕ) → index ≤ i → index * sector ≤ i * sector
after i index sector h = grind arith

-- Byte `r` of sector `i`, where the sectors from `index` on are restored over `fixed`.
abbrev restored : Bytes → ℕ → ℕ → Bytes → ℕ → ℕ → ℕ → Option ℕ
restored rec usa sector fixed index i r =
    if leb index i && leb sector (r + 2)
    then get_elem? rec (usa + 2 + i * 2 + (r + 2 - sector))
    else get_elem? fixed (i * sector + r)

abbrev end : ℕ → ℕ → ℕ
end sector index = (index + 1) * sector - 2

end-le :
    (sector sectors size index : ℕ)
    → sectors * sector ≡ size
    → 2 ≤ sector
    → index < sectors
    → end sector index + 2 ≤ size
end-le sector sectors size index h1 h2 h3 =
    omega (arith, after sectors (index + 1) sector (omega arith))

length-replacement :
    (rec : Bytes) (usa sectors index : ℕ)
    → usa + 2 + sectors * 2 ≤ length rec
    → index < sectors
    → length (slice (usa + 2 + index * 2) (usa + 4 + index * 2) rec) ≡ 2
length-replacement rec usa sectors index h1 h2 =
    omega (arith, length-slice (usa + 2 + index * 2) (usa + 4 + index * 2) rec (omega arith))

-- one round, at a byte of one sector
splice-restored :
    (rec : Bytes) (usa sector sectors index : ℕ) (fixed : Bytes) (i r : ℕ)
    → sectors * sector ≡ length rec
    → usa + 2 + sectors * 2 ≤ length rec
    → 2 ≤ sector
    → index < sectors
    → length fixed ≡ length rec
    → r < sector
    → restored rec usa sector
        (splice
          (end sector index)
          (end sector index + 2)
          (slice (usa + 2 + index * 2) (usa + 4 + index * 2) rec)
          fixed)
        (index + 1)
        i
        r
      ≡ restored rec usa sector fixed index i r
splice-restored rec usa sector sectors index fixed i r h1 h2 h3 h4 h5 h6 = ground (
  arith,
  before i index sector r,
  after i (index + 1) sector,
  end-le sector sectors (length rec) index h1 h3 h4,
  length-replacement rec usa sectors index h2 h4,
  get_elem?-splice (end sector index) (end sector index + 2)
      (slice (usa + 2 + index * 2) (usa + 4 + index * 2) rec) fixed (i * sector + r),
  get_elem?-slice (usa + 2 + index * 2) (usa + 4 + index * 2) rec
      (i * sector + r - end sector index),
)

module _ (rec : Bytes) (usa sector sectors : ℕ) (sequence : Bytes) where
  -- The rounds from `index` on keep the length and restore the sectors from there on.
  fixup_sectors-restored :
      (rounds index : ℕ) (fixed out : Bytes) (i r : ℕ)
      → sectors * sector ≡ length rec
      → usa + 2 + sectors * 2 ≤ length rec
      → 2 ≤ sector
      → index + rounds ≡ sectors
      → length fixed ≡ length rec
      → fixup_sectors rec usa sector sequence rounds index fixed ≡ ok out
      → r < sector
      → i < sectors
      → (length out ≡ length rec)
        × (get_elem? out (i * sector + r) ≡ restored rec usa sector fixed index i r)
  unfolding fixup_sectors
  fixup_sectors-restored zero index fixed out i r h1 h2 h3 h4 h5 h6 h7 h8 = ground arith
  fixup_sectors-restored (suc rounds) index fixed out i r h1 h2 h3 h4 h5 h6 h7 h8 =
      let fixed' =
        splice (end sector index) (end sector index + 2)
          (slice (usa + 2 + index * 2) (usa + 4 + index * 2) rec) fixed in
      ground (
        arith,
        end-le sector sectors (length rec) index h1 h3 (omega arith),
        length-replacement rec usa sectors index h2 (omega arith),
        length-splice (end sector index) (end sector index + 2)
            (slice (usa + 2 + index * 2) (usa + 4 + index * 2) rec) fixed,
        splice-restored rec usa sector sectors index fixed i r,
        fixup_sectors-restored rounds (index + 1) fixed' out i r,
      )

-- a product that exceeds twice its first factor has a second factor of 2 or more
wider_than_one : (sector sectors : ℕ) → sectors * 2 ≤ sectors * sector → 0 < sectors → 2 ≤ sector
wider_than_one zero sectors h1 h2 = absurd (omega arith)
wider_than_one (suc zero) sectors h1 h2 = absurd (omega arith)
wider_than_one (suc (suc n)) sectors h1 h2 = omega arith

sector_width :
    (size usa sectors : ℕ)
    → 0 < sectors
    → (size % sectors == 0) ≡ true
    → usa + 2 + sectors * 2 ≤ size
    → (sectors * (size / sectors) ≡ size) × (2 ≤ size / sectors)
sector_width size usa sectors h1 h2 h3 =
    let whole : size % sectors ≡ 0 = ==→eq _ _ h2 in
    let product : sectors * (size / sectors) ≡ size = grind (arith, div-add-mod size sectors) in
    (product, wider_than_one (size / sectors) sectors (omega arith) h1)

-- After a fixup that is accepted the record has its length, and byte `r` of sector `i` is the
-- record's own byte, but for the last two bytes of each sector, which are the two bytes of entry
-- `i` of the update sequence array. The array's place and count are the record's words at 4 and 6,
-- and a sector is the record's size divided by the entries after the first.
pub apply_fixup-restored :
    (rec : Bytes) (sector_size : Option ℕ) (fixed : Bytes) (usa count i r : ℕ)
    → uint16 rec 4 ≡ ok usa
    → uint16 rec 6 ≡ ok count
    → apply_fixup rec sector_size ≡ ok fixed
    → i < count - 1
    → r < length rec / (count - 1)
    → (length fixed ≡ length rec)
      × (get_elem? fixed (i * (length rec / (count - 1)) + r) ≡ (
          if leb (length rec / (count - 1)) (r + 2)
          then get_elem? rec (usa + 2 + i * 2 + (r + 2 - length rec / (count - 1)))
          else get_elem? rec (i * (length rec / (count - 1)) + r)))
unfolding apply_fixup derived_sector_size geometry_differs modulo divide
apply_fixup-restored rec sector_size fixed usa count i r h1 h2 h3 h4 h5 = ground (
  arith,
  h1,
  sector_width (length rec) usa (count - 1),
  fixup_sectors-restored rec usa (length rec / (count - 1)) (count - 1) (slice usa (usa + 2) rec)
      (count - 1) 0 rec fixed i r,
)
