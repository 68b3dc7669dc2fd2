-- ===== src/Forensic/Mft/Layout.antt =====
-- `InputLayout` and `NtfsMftParser._layout` of backend/app/forensic/ntfs_mft.py.
use Prim.Native.Nat.{bit_and}
use dfir_investigation_workb.Prelude.{
  Bool, Option, if◌then◌else◌, leb, length, lit, ltb, none, not, ok, slice, some, text_eq, true, ℕ,
  ◌&&◌, ◌*◌, ◌-◌, ◌==◌, ◌>>=◌, ◌>>◌, ◌^◌, ◌||◌,
}
use dfir_investigation_workb.Forensic.Bytes.{
  Bytes, Parse, byte_at, divide, from_bytes, modulo, reject_if, uint16, uint32, uint64,
}

abbrev pub max_record_size : ℕ
max_record_size = 64 * 1024

pub record BootMetadata : Type 0 where
  pub bytes_per_sector : ℕ
  pub sectors_per_cluster : ℕ
  pub cluster_size : ℕ
  pub mft_logical_cluster_number : ℕ
  pub mft_byte_offset : ℕ
  pub mft_record_size : ℕ
  -- the number that the source prints in hexadecimal
  pub volume_serial_number : ℕ

pub data InputKind : Type 0 where
  ntfs_volume mft_stream : InputKind

pub record InputLayout : Type 0 where
  pub kind : InputKind
  pub first_record_offset : ℕ
  pub record_size : ℕ
  pub bytes_per_sector : Option ℕ
  pub record_limit : Option ℕ
  pub boot_metadata : Option BootMetadata

-- A signed byte: a negative one is the exponent of the record size, any other counts clusters.
unfoldable pub decode_record_size : ℕ → ℕ → ℕ
decode_record_size encoded cluster_size =
    if ltb encoded 128 then encoded * cluster_size else 2 ^ (256 - encoded)

unfoldable pub not_power_of_two : ℕ → Bool
not_power_of_two n = not (bit_and n (n - 1) == 0)

-- The branch of `_layout` for a boot sector.
unfoldable pub volume_layout : Bytes → Parse InputLayout
volume_layout prefix = do
  bytes_per_sector ← uint16 prefix 11
  sectors_per_cluster ← byte_at prefix 13
  reject_if (ltb bytes_per_sector 256 || not_power_of_two bytes_per_sector)
      "invalid NTFS bytes-per-sector value"
  reject_if ((sectors_per_cluster == 0) || not_power_of_two sectors_per_cluster)
      "invalid NTFS sectors-per-cluster value"
  let cluster_size = bytes_per_sector * sectors_per_cluster
  mft_lcn ← uint64 prefix 48
  let encoded_record_size = from_bytes (slice 64 65 prefix)
  let record_size = decode_record_size encoded_record_size cluster_size
  reject_if (ltb record_size 512 || ltb max_record_size record_size) "invalid NTFS MFT record size"
  serial ← uint64 prefix 72
  ok (record {
    kind = ntfs_volume;
    first_record_offset = mft_lcn * cluster_size;
    record_size = record_size;
    bytes_per_sector = some bytes_per_sector;
    record_limit = some 1;
    boot_metadata = some (record {
      bytes_per_sector = bytes_per_sector;
      sectors_per_cluster = sectors_per_cluster;
      cluster_size = cluster_size;
      mft_logical_cluster_number = mft_lcn;
      mft_byte_offset = mft_lcn * cluster_size;
      mft_record_size = record_size;
      volume_serial_number = serial;
    });
  })

-- the truth of `size % sectors`
unfoldable pub has_remainder : ℕ → ℕ → Parse Bool
has_remainder size sectors = do rest ← modulo size sectors; ok (not (rest == 0))

-- The branch for a stream of MFT records. The truncated `usa_count - 1` is 0 exactly where the
-- source's `sectors` is at most 0.
unfoldable pub stream_layout : Bytes → Parse InputLayout
stream_layout prefix = do
  reject_if (not (text_eq (slice 0 4 prefix) (lit "FILE")))
      "unsupported input: neither NTFS boot sector nor MFT record stream"
  allocated_size ← uint32 prefix 28
  reject_if (ltb allocated_size 512 || ltb max_record_size allocated_size)
      "invalid allocated MFT record size"
  usa_count ← uint16 prefix 6
  let sectors = usa_count - 1
  uneven ← (if sectors == 0 then ok true else has_remainder allocated_size sectors)
  reject_if uneven "invalid MFT update sequence geometry"
  sector_size ← divide allocated_size sectors
  ok (record {
    kind = mft_stream;
    first_record_offset = 0;
    record_size = allocated_size;
    bytes_per_sector = some sector_size;
    record_limit = none;
    boot_metadata = none;
  })

-- `_layout`: `source` is the whole evidence file.
unfoldable pub layout : Bytes → Parse InputLayout
layout source =
    let prefix = slice 0 512 source in
    if leb 72 (length prefix) && text_eq (slice 3 11 prefix) (lit "NTFS    ")
    then volume_layout prefix
    else stream_layout prefix
