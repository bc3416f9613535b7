-- ===== src/SmartSwitch/Nsdp.antt =====
-- Netgear's NSDP (src/engine/smart_switch_pipeline.py, step 10).
pub mod Replies
use net_lanvas.Base.{
  ℕ, suc, String, Option, none, some, List, [], ◌∷◌, ◌++◌, Bool, not, elem, ltb, nat_eq, eq_ℕ,
  eq_String, ◌==◌, ◌&&◌, ◌||◌, length, if◌then◌else◌,
}
use net_lanvas.Base.Bytes.{skip, slice, at, pack_u16, join_hex, join_dec}
use net_lanvas.Base.Utf8.{decode_ascii}
use net_lanvas.Base.Split.{strip_char}
use net_lanvas.Base.Text.{strip, codes_eq}
use net_lanvas.Base.Dict.{Dict, get, put}
use net_lanvas.SmartSwitch.{Device, walk, read_all}

-- b"NSDP"
abbrev pub nsdp_signature : List ℕ
nsdp_signature = 0x4e ∷ 0x53 ∷ 0x44 ∷ 0x50 ∷ []

abbrev pub nsdp_field_types : Dict ℕ String
nsdp_field_types =
    (0x0001, "model")
    ∷ (0x0003, "name")
    ∷ (0x0004, "mac")
    ∷ (0x0006, "ip")
    ∷ (0x0007, "netmask")
    ∷ (0x0008, "gateway")
    ∷ (0x000d, "firmware")
    ∷ []

-- struct.pack(">HH", field_type, 0) for each field type
abbrev pub ask_fields : Dict ℕ String → List ℕ
ask_fields [] = []
ask_fields ((field_type, name) ∷ rest) = pack_u16 field_type ++ (pack_u16 0 ++ ask_fields rest)

unfoldable pub build_nsdp_request : List ℕ → List ℕ
build_nsdp_request client_mac =
    (1 ∷ 1 ∷ 0 ∷ 0 ∷ 0 ∷ 0 ∷ 0 ∷ 0 ∷ [])
    ++ (client_mac
        ++ ((0 ∷ 0 ∷ 0 ∷ 0 ∷ 0 ∷ 0 ∷ 0 ∷ 0 ∷ 0 ∷ 0 ∷ [])
            ++ (nsdp_signature
                ++ ((0 ∷ 0 ∷ 0 ∷ 0 ∷ [])
                    ++ (ask_fields nsdp_field_types ++ (pack_u16 0xffff ++ pack_u16 0))))))

abbrev pub Fields : Type 0
Fields = Dict String String

-- value.decode("ascii", errors="replace").strip("\x00").strip()
abbrev pub field_text : List ℕ → String
field_text value = strip (strip_char 0 (decode_ascii value))

abbrev pub named_field : String → List ℕ → Fields → Fields
named_field name value fields =
    if name == "mac" && nat_eq (length value) 6
    then put name (join_hex ":" value) fields
    else if elem name ("ip" ∷ "netmask" ∷ "gateway" ∷ []) && nat_eq (length value) 4
    then put name (join_dec value) fields
    else if elem name ("model" ∷ "name" ∷ "firmware" ∷ [])
    then put name (field_text value) fields
    else fields

-- what the loop does with one field
unfoldable pub nsdp_field : ℕ → List ℕ → Fields → Fields
nsdp_field field_type value fields = elim (get field_type nsdp_field_types) [
  | none ↦ fields
  | some name ↦ named_field name value fields
]

-- The MAC address is that of the fields, if they have one, or else that of the header.
unfoldable pub nsdp_device : List ℕ → Fields → Device
nsdp_device device_mac_bytes fields = record {
  mac = elim (get "mac" fields) [ none ↦ join_hex ":" device_mac_bytes | some mac ↦ mac ];
  vendor = "Netgear";
  model = get "model" fields;
  name = get "name" fields;
  ip = get "ip" fields;
  protocol = "NSDP";
  firmware = none;
  raw_strings = [];
  location = none;
  source_ip = none;
}

unfoldable pub is_nsdp_response : List ℕ → Bool
is_nsdp_response bytes =
    not (ltb (length bytes) 32 || not (codes_eq (slice 24 28 bytes) nsdp_signature))
    && nat_eq (at 1 bytes) 2

unfoldable pub parse_nsdp_response : List ℕ → Option Device
parse_nsdp_response bytes =
    if not (is_nsdp_response bytes)
    then none
    else elim (walk (λ n. n) nsdp_field (suc (length bytes)) (skip 32 bytes) []) [
      | none ↦ none
      | some fields ↦ some (nsdp_device (slice 14 20 bytes) fields)
    ]

unfoldable pub step_10_nsdp : List (List ℕ × String) → List Device
step_10_nsdp replies = read_all parse_nsdp_response replies
