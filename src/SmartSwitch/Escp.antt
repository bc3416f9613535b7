-- ===== src/SmartSwitch/Escp.antt =====
-- TP-Link's ESCP and the login page of its switches (src/engine/smart_switch_pipeline.py, steps
-- 20 and 25).
use net_lanvas.Base.{
  ℕ, suc, max, String, Option, none, some, List, [], ◌∷◌, ◌++◌, Bool, false, not, all, ltb, leb,
  nat_eq, eq_String, ◌==◌, ◌&&◌, ◌||◌, length, is_empty, is_some, if◌then◌else◌,
}
use net_lanvas.Base.Bytes.{skip, slice, at, pack_u16, join_hex}
use net_lanvas.Base.Utf8.{decode_ascii}
use net_lanvas.Base.Split.{after_text}
use net_lanvas.SmartSwitch.{Device, walk, read_all}

unfoldable pub build_tplink_probe : List ℕ → List ℕ
build_tplink_probe client_mac =
    (1 ∷ 0 ∷ 0 ∷ 0 ∷ 0 ∷ 0 ∷ 0 ∷ 0 ∷ [])
    ++ (client_mac
        ++ (pack_u16 0
            ++ ((0 ∷ 0 ∷ 0 ∷ 0 ∷ [])
                ++ (pack_u16 0x0024
                    ++ (pack_u16 0
                        ++ (pack_u16 0
                            ++ (pack_u16 0
                                ++ ((0 ∷ 0 ∷ 0 ∷ 0 ∷ []) ++ (pack_u16 0xffff ++ pack_u16 0)))))))))

-- all(32 <= b < 127 for b in value)
abbrev pub is_printable_ascii : List ℕ → Bool
is_printable_ascii value = all (λ b. leb 32 b && ltb b 127) value

-- what the loop does with one field
unfoldable pub tplink_field : ℕ → List ℕ → List String → List String
tplink_field field_type value strings =
    if not (is_empty value) && is_printable_ascii value
    then strings ++ decode_ascii value ∷ []
    else strings

-- strings_found[0] and strings_found[1], where they are there
abbrev pub first : List String → Option String
first [] = none
first (s ∷ rest) = some s

abbrev pub second : List String → Option String
second [] = none
second (s ∷ rest) = first rest

abbrev pub tplink_device : String → List String → Device
tplink_device mac strings = record {
  mac = mac;
  vendor = "TP-Link";
  model = first strings;
  name = second strings;
  ip = none;
  protocol = "ESCP";
  firmware = none;
  raw_strings = strings;
  location = none;
  source_ip = none;
}

unfoldable pub parse_tplink_response : List ℕ → Option Device
parse_tplink_response bytes =
    let mac = join_hex ":" (slice 2 8 bytes) in
    if ltb (length bytes) 32 || not (nat_eq (at 1 bytes) 2)
    then none
    else if mac == "00:00:00:00:00:00"
    then none
    else elim (walk (λ n. max n 1) tplink_field (suc (length bytes)) (skip 32 bytes) []) [
      | none ↦ none
      | some strings ↦ some (tplink_device mac strings)
    ]

unfoldable pub step_20_tplink : List (List ℕ × String) → List Device
step_20_tplink replies = read_all parse_tplink_response replies

abbrev pub tplink_http_signature_markers : List String
tplink_http_signature_markers =
    "logon.cgi" ∷ "doPrintfTableHeadBorder" ∷ "TP-Link Technologies Co., Ltd." ∷ []

-- `body` is the page at http://{ip}/, `none` where requests raises.
unfoldable pub check_tplink_http_signature : Option String → Bool
check_tplink_http_signature none = false
check_tplink_http_signature (some body) =
    all (λ marker. is_some (after_text marker body)) tplink_http_signature_markers

abbrev pub http_device : String → String → Device
http_device ip mac = record {
  mac = mac;
  vendor = "TP-Link";
  model = none;
  name = none;
  ip = some ip;
  protocol = "HTTP";
  firmware = none;
  raw_strings = [];
  location = none;
  source_ip = some ip;
}

-- The candidates are the bindings' (ip, mac), and `page` answers the request to an address.
unfoldable pub step_25_tplink_http : (String → Option String) → List (String × String) → List Device
step_25_tplink_http page [] = []
step_25_tplink_http page ((ip, mac) ∷ candidates) =
    let rest = step_25_tplink_http page candidates in
    if check_tplink_http_signature (page ip) then http_device ip mac ∷ rest else rest
