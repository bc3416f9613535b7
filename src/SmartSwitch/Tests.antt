-- ===== src/SmartSwitch/Tests.antt =====
-- Runs of the discovery of smart switches.
use net_lanvas.Base.{ℕ, String, none, some, List, [], ◌∷◌, ◌≡◌, refl, arith, eq_String, eq_ℕ}
use net_lanvas.Base.Bytes.{join_hex, join_dec}
use net_lanvas.Base.Number.{show}
use net_lanvas.Base.Utf8.{decode_ascii, encode_ascii, decode_replace}
use net_lanvas.Base.Split.{strip_char, split_crlf, words, cut_at, after_text}
use net_lanvas.Base.Text.{strip, lstrip, rstrip, split_on, differ, starts_with, drop}
use net_lanvas.Base.Dict.{get, put}
use net_lanvas.Base.Table.{find}
use net_lanvas.SmartSwitch.{Device}
use net_lanvas.SmartSwitch.Walk.{fold}
use net_lanvas.SmartSwitch.Nsdp.{
  nsdp_device, nsdp_field, parse_nsdp_response, build_nsdp_request, is_nsdp_response,
}
use net_lanvas.SmartSwitch.Nsdp.Replies.{Header, IsHeader, reply, parse_nsdp_response-reply}
use net_lanvas.SmartSwitch.Escp.{build_tplink_probe, parse_tplink_response}
use net_lanvas.SmartSwitch.Ssdp.{
  parse_ssdp_response, read_headers, vendor_of, mac_of_usn, upper, lower_text, contains,
}
use net_lanvas.SmartSwitch.Pipeline.{
  Heard, run_smart_switch_pipeline, step_results, all_entries, has_mac,
  run_smart_switch_pipeline_first,
}

abbrev client_mac : List ℕ
client_mac = 2 ∷ 0 ∷ 0 ∷ 0 ∷ 0 ∷ 1 ∷ []

-- A socket that hears its own request takes it for no switch.
own_request : parse_nsdp_response (build_nsdp_request client_mac) ≡ none
unfolding parse_nsdp_response build_nsdp_request is_nsdp_response
own_request = refl

own_probe : parse_tplink_response (build_tplink_probe client_mac) ≡ none
unfolding parse_tplink_response build_tplink_probe
own_probe = refl

abbrev header : Header
header = record {
  head = 1 ∷ 2 ∷ 0 ∷ 0 ∷ 0 ∷ 0 ∷ 0 ∷ 0 ∷ client_mac;
  mac = 0x28 ∷ 0x80 ∷ 0x88 ∷ 1 ∷ 2 ∷ 3 ∷ [];
  middle = 0 ∷ 0 ∷ 0 ∷ 0 ∷ [];
  trailer = 0 ∷ 0 ∷ 0 ∷ 0 ∷ [];
}

header-IsHeader : IsHeader header
header-IsHeader = record { head = refl; opcode = refl; mac = refl; middle = refl; trailer = refl }

abbrev fields : List (ℕ × List ℕ)
fields = (1, encode_ascii "GS308E\0") ∷ (6, 192 ∷ 168 ∷ 0 ∷ 9 ∷ []) ∷ (0x1234, 7 ∷ []) ∷ []

abbrev netgear : Device
netgear = record {
  mac = "28:80:88:01:02:03";
  vendor = "Netgear";
  model = some "GS308E";
  name = none;
  ip = some "192.168.0.9";
  protocol = "NSDP";
  firmware = none;
  raw_strings = [];
  location = none;
  source_ip = none;
}

read_back : nsdp_device (header.mac) (fold nsdp_field fields []) ≡ netgear
unfolding nsdp_device nsdp_field get put decode_ascii strip_char strip join_dec show join_hex
read_back = refl

parse_nsdp_response-reply_example : parse_nsdp_response (reply header fields []) ≡ some netgear
unfolding nsdp_device nsdp_field get put decode_ascii strip_char strip join_dec show join_hex
parse_nsdp_response-reply_example =
    parse_nsdp_response-reply header fields [] header-IsHeader
      (omega arith, (omega arith, (omega arith, tt)))

abbrev broken : List ℕ
broken = 0 ∷ 5 ∷ 0 ∷ 0 ∷ 0 ∷ 6 ∷ 255 ∷ 255 ∷ 65 ∷ []

abbrev heard : Heard
heard = record {
  ssdp = none;
  nsdp = some ((reply header fields [], "192.168.0.9") ∷ []);
  tplink = some [];
  candidates = ("192.168.0.9", "28:80:88:01:02:03") ∷ [];
  page = some (λ ip. some "logon.cgi doPrintfTableHeadBorder TP-Link Technologies Co., Ltd.");
  ddp = some [];
}

run_smart_switch_pipeline_first_example :
    get "28:80:88:01:02:03" (run_smart_switch_pipeline heard)
    ≡ find (has_mac "28:80:88:01:02:03") (all_entries (step_results heard))
run_smart_switch_pipeline_first_example =
    run_smart_switch_pipeline_first "28:80:88:01:02:03"
      (differ "28:80:88:01:02:03" "" (λ e. omega (arith, e))) heard

abbrev answer : String
answer =
    "HTTP/1.1 200 OK\r\nServer: Unix/4.0 UPnP/1.0 NETGEAR_Switch GS308Ev4/V1.0.1.3\r\nusn: uuid:4D696E69-444C-164E-9D41-28808801020A::upnp:rootdevice\r\n\r\n"

reads_ssdp :
    parse_ssdp_response (encode_ascii answer) "192.168.0.9"
    ≡ some (record netgear {
      mac = "28:80:88:01:02:0a";
      model = some "GS308Ev4";
      protocol = "SSDP";
      firmware = some "V1.0.1.3";
      source_ip = some "192.168.0.9";
    })
unfolding parse_ssdp_response read_headers vendor_of mac_of_usn upper lower_text contains get put
    decode_replace split_crlf words cut_at after_text strip lstrip rstrip split_on starts_with drop
reads_ssdp = refl
