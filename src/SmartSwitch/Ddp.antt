-- ===== src/SmartSwitch/Ddp.antt =====
-- D-Link's DDP reports (src/engine/smart_switch_pipeline.py, step 30).
use net_lanvas.Base.{
  ℕ, String, Option, none, some, List, [], ◌∷◌, not, ltb, nat_eq, eq_String, ◌||◌, length,
  if◌then◌else◌,
}
use net_lanvas.Base.Bytes.{slice, join_hex, join_dec}
use net_lanvas.Base.Utf8.{decode_ascii}
use net_lanvas.Base.Text.{strip, codes_eq, is_blank}
use net_lanvas.SmartSwitch.{Device, heard_from, read_new}
use Prim.Native.Char.{code}

abbrev pub dlink_ddp_magic : List ℕ
dlink_ddp_magic = 0xee ∷ 0xfe ∷ []

abbrev pub dlink_ddp_report_opcode : List ℕ
dlink_ddp_report_opcode = 0xa0 ∷ 0x00 ∷ []

-- raw.split(b"\x00", 1)[0]
unfoldable pub until_nul : List ℕ → List ℕ
until_nul [] = []
until_nul (b ∷ rest) = let more = until_nul rest in if nat_eq b 0 then [] else b ∷ more

-- _CONTROL_CHARS_RE.sub("", s)
unfoldable pub without_controls : String → String
without_controls String.[] = String.[]
without_controls (String.◌∷◌ c s) =
    let rest = without_controls s in
    if ltb (code c) 0x20 || nat_eq (code c) 0x7f then rest else String.◌∷◌ c rest

unfoldable pub ascii_field : ℕ → ℕ → List ℕ → Option String
ascii_field start end bytes =
    let text = strip (without_controls (decode_ascii (until_nul (slice start end bytes)))) in
    if is_blank text then none else some text

unfoldable pub parse_ddp_report : List ℕ → Option Device
parse_ddp_report bytes =
    if ltb (length bytes) 156 || not (codes_eq (slice 0 2 bytes) dlink_ddp_magic)
    then none
    else if not (codes_eq (slice 4 6 bytes) dlink_ddp_report_opcode)
    then none
    else some (record {
      mac = join_hex ":" (slice 6 12 bytes);
      vendor = "D-Link";
      model = ascii_field 22 86 bytes;
      name = none;
      ip = some (join_dec (slice 12 16 bytes));
      protocol = "DDP";
      firmware = ascii_field 118 150 bytes;
      raw_strings = [];
      location = none;
      source_ip = none;
    })

-- a report with its sender as source_ip
abbrev pub ddp_device : List ℕ → String → Option Device
ddp_device bytes src_ip = elim (parse_ddp_report bytes) [
  | none ↦ none
  | some d ↦ some (heard_from src_ip d)
]

unfoldable pub step_30_dlink_ddp : List (List ℕ × String) → List Device
step_30_dlink_ddp packets = read_new ddp_device [] packets
