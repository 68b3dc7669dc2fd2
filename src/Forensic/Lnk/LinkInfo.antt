-- ===== src/Forensic/Lnk/LinkInfo.antt =====
-- `_link_info`, `_volume`, `_network` and `_target_path` of backend/app/forensic/lnk.py.
use mathlib.Core.List.{reverse}
use dfir_investigation_workb.Prelude.{
  Bool, List, Option, String, Text, [], err, false, if◌then◌else◌, leb, length, lit, ltb, none, not,
  ok, slice, some, starts_with, true, ℕ, ◌%◌, ◌&&◌, ◌++◌, ◌+◌, ◌/◌, ◌==◌, ◌>>=◌, ◌>>◌, ◌^◌, ◌||◌,
  ◌∷◌,
}
use dfir_investigation_workb.Forensic.Bytes.{
  Bytes, Parse, reject_if, structure_error, uint32, unicode_error,
}
use dfir_investigation_workb.Forensic.Bytes.Cp1252.{c_string}
use dfir_investigation_workb.Forensic.Parser.{is_empty}

-- `flags & (1 << bit)`
abbrev pub has_bit : ℕ → ℕ → Bool
has_bit flags bit = (flags / 2 ^ bit) % 2 == 1

-- `a or b` on numbers
abbrev pub or_number : ℕ → ℕ → ℕ
or_number a b = if a == 0 then b else a

-- `bool(a)`
abbrev pub is_set : ℕ → Bool
is_set a = not (a == 0)

-- the read is made only if the test holds
unfoldable pub uint32_if : Bool → Bytes → ℕ → Parse ℕ
uint32_if true bytes offset = uint32 bytes offset
uint32_if false bytes offset = ok 0

pub record Volume : Type 0 where
  pub drive_type : ℕ
  pub drive_serial_number : ℕ
  pub volume_label : Option Text

pub record Network : Type 0 where
  pub flags : ℕ
  pub network_share_name : Option Text
  pub device_name : Option Text
  pub network_provider_type : ℕ

pub record LinkInfo : Type 0 where
  pub flags : ℕ
  pub local_base_path : Option Text
  pub common_path_suffix : Option Text
  pub volume_information : Option Volume
  pub network_information : Option Network

-- `_volume`
unfoldable pub read_volume_id : Bytes → ℕ → Parse Volume
unfolding uint32_if
read_volume_id block offset = do
  size ← uint32 block offset
  reject_if (ltb size 16 || ltb (length block) (offset + size)) "VolumeID is invalid"
  let volume : Bytes = slice offset (offset + size) block
  label_offset ← uint32 volume 12
  unicode_offset ← uint32_if (label_offset == 0x14) volume 16
  drive_type ← uint32 volume 4
  drive_serial_number ← uint32 volume 8
  volume_label ← c_string volume (or_number unicode_offset label_offset) (is_set unicode_offset)
  ok (record {
    drive_type = drive_type;
    drive_serial_number = drive_serial_number;
    volume_label = volume_label;
  })

-- `_network`
unfoldable pub read_network : Bytes → ℕ → Parse Network
unfolding uint32_if
read_network block offset = do
  size ← uint32 block offset
  reject_if (ltb size 20 || ltb (length block) (offset + size))
      "CommonNetworkRelativeLink is invalid"
  let network : Bytes = slice offset (offset + size) block
  net_offset ← uint32 network 8
  device_offset ← uint32 network 12
  unicode_net ← uint32_if (ltb 0x14 net_offset && leb 28 size) network 20
  unicode_device ← uint32_if (ltb 0x14 net_offset && leb 28 size) network 24
  flags ← uint32 network 4
  network_share_name ← c_string network (or_number unicode_net net_offset) (is_set unicode_net)
  device_name ← c_string network (or_number unicode_device device_offset) (is_set unicode_device)
  network_provider_type ← uint32 network 16
  ok (record {
    flags = flags;
    network_share_name = network_share_name;
    device_name = device_name;
    network_provider_type = network_provider_type;
  })

-- A part that could not be decoded is left out with a warning.
unfoldable pub optional_part :
    {A : Type 0} → String → List Text → Parse A → Parse (Option A × List Text)
optional_part message warnings (ok a) = ok (some a, warnings)
optional_part message warnings (err (structure_error m)) = ok (none, warnings ++ lit message ∷ [])
optional_part message warnings (err unicode_error) = ok (none, warnings ++ lit message ∷ [])
optional_part message warnings (err e) = err e

unfoldable pub part_if :
    {A : Type 0} → Bool → String → List Text → Parse A → Parse (Option A × List Text)
unfolding optional_part
part_if true message warnings part = optional_part message warnings part
part_if false message warnings part = ok (none, warnings)

-- the part of `_link_info` behind the header size
unfoldable pub read_link_info : Bytes → ℕ → ℕ → List Text → Parse (LinkInfo × List Text)
unfolding uint32_if part_if
read_link_info block header_size flags warnings = do
  local_offset ← uint32 block 16
  network_offset ← uint32 block 20
  suffix_offset ← uint32 block 24
  local_unicode ← uint32_if (leb 0x24 header_size) block 28
  suffix_unicode ← uint32_if (leb 0x24 header_size) block 32
  local_base_path ← c_string block (or_number local_unicode local_offset) (is_set local_unicode)
  common_path_suffix ←
      c_string block (or_number suffix_unicode suffix_offset) (is_set suffix_unicode)
  volume_offset ← uint32 block 12
  with_volume ←
      part_if (has_bit flags 0 && is_set volume_offset)
        "Shell Link volume information could not be decoded" warnings
        (read_volume_id block volume_offset)
  with_network ←
      part_if (has_bit flags 1 && is_set network_offset)
        "Shell Link network information could not be decoded" with_volume.1
        (read_network block network_offset)
  ok (
    record {
      flags = flags;
      local_base_path = local_base_path;
      common_path_suffix = common_path_suffix;
      volume_information = with_volume.0;
      network_information = with_network.0;
    },
    with_network.1,
  )

-- `_link_info`: it returns the offset behind the block too
unfoldable pub link_info : Bytes → ℕ → List Text → Parse (LinkInfo × ℕ × List Text)
unfolding read_link_info
link_info bytes offset warnings = do
  size ← uint32 bytes offset
  reject_if (ltb size 0x1c || ltb (length bytes) (offset + size)) "Shell Link LinkInfo is invalid"
  let block : Bytes = slice offset (offset + size) bytes
  header_size ← uint32 block 4
  flags ← uint32 block 8
  reject_if (ltb header_size 0x1c || ltb size header_size) "Shell Link LinkInfo header is invalid"
  info ← read_link_info block header_size flags warnings
  ok (info.0, offset + size, info.1)

-- `text.lstrip("\\")`
unfoldable pub strip_separators : Text → Text
strip_separators [] = []
strip_separators (c ∷ cs) = if c == b'\\' then strip_separators cs else c ∷ cs

-- `text.rstrip("\\")`
unfoldable pub strip_separators_right : Text → Text
unfolding strip_separators
strip_separators_right t = reverse (strip_separators (reverse t))

-- `text.endswith(suffix)`
unfoldable pub ends_with : Text → Text → Bool
ends_with text suffix = starts_with (reverse text) (reverse suffix)

-- `f"{base.rstrip('\\')}\\{suffix.lstrip('\\')}"`
unfoldable pub join_path : Text → Text → Text
unfolding strip_separators strip_separators_right
join_path base suffix = strip_separators_right base ++ (b'\\' ∷ strip_separators suffix)

-- `_target_path` where there is a local path
unfoldable pub local_target : Text → Option Text → Text
unfolding join_path ends_with
local_target base none = base
local_target base (some suffix) =
    if not (is_empty suffix) && not (ends_with base suffix) then join_path base suffix else base

unfoldable pub share_target : Text → Option Text → Text
unfolding join_path
share_target share none = share
share_target share (some suffix) = if not (is_empty suffix) then join_path share suffix else share

-- `_target_path` where there is none
unfoldable pub network_target : Option Text → Option Network → Option Text → Option Text
unfolding share_target
network_target suffix none relative_path = relative_path
network_target suffix (some network) relative_path = elim network.network_share_name [
  | none ↦ relative_path
  | some share ↦ some (share_target share suffix)
]

-- `_target_path`
unfoldable pub target_path : Option LinkInfo → Option Text → Option Text
unfolding local_target network_target
target_path none relative_path = relative_path
target_path (some info) relative_path = elim info.local_base_path [
  | some base ↦ some (local_target base info.common_path_suffix)
  | none ↦ network_target info.common_path_suffix info.network_information relative_path
]
