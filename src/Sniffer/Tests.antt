-- ===== src/Sniffer/Tests.antt =====
-- Runs of the DHCP sniffer.
use net_lanvas.Base.{
  ℕ, zero, suc, ◌+◌, ◌≤◌, ◌<◌, none, some, List, [], ◌∷◌, Bool, false, ltb, leb, ◌&&◌, ◌≡◌, refl,
  arith, eq_ℕ,
}
use net_lanvas.Base.Bytes.{join_hex}
use net_lanvas.Base.Utf8.{decode_utf8, encode_ascii}
use net_lanvas.Base.Text.{strip, lstrip, rstrip, split_on}
use net_lanvas.Base.Dict.{get_or, put}
use net_lanvas.Base.Keyed.{find_key, update_key}
use net_lanvas.Base.Table.{find, update, select, count}
use net_lanvas.RateLimit.{is_rate_limited, record_attempt}
use net_lanvas.RateLimit.Counts.{fresh_at}
use net_lanvas.Net.{Net}
use net_lanvas.Hostname.{
  is_usable_hostname, set_hostname_by_mac, set_hostname_by_node_id, write_hostname, is_ignored,
}
use net_lanvas.Hostname.Tests.{node, net}
use net_lanvas.Sniffer.{
  Sniffer, Options, parse_options, parse_bootp_dhcp, hostname_of, handle_packet, admit_name,
  chaddr_of, rate_bucket, global_window_seconds,
}
use net_lanvas.Sniffer.Options.{parse_options_total, put_all}
use net_lanvas.Sniffer.Packet.{Header, IsHeader, packet, parse_bootp_dhcp-packet}
use net_lanvas.Sniffer.Caps.{names_written, names_written_le, handle_all}
use net_lanvas.Sniffer.Names.{row, handle_all-row}
use Prim.Native.Char.{Char, code}

abbrev is_ascii_printable : Char → Bool
is_ascii_printable c = leb 0x20 (code c) && ltb (code c) 0x7f

abbrev zeros : ℕ → List ℕ
zeros zero = []
zeros (suc n) = 0 ∷ zeros n

abbrev header : Header
header = record {
  head = 1 ∷ 1 ∷ 6 ∷ zeros 25;
  chaddr = 0xb8 ∷ 0x27 ∷ 0xeb ∷ 0x0a ∷ 0x0b ∷ 0x0c ∷ [];
  padding = zeros 10;
  middle = zeros 192;
}

header-IsHeader : IsHeader header
header-IsHeader = record { head = refl; hlen = refl; chaddr = refl; padding = refl; middle = refl }

-- a DHCPREQUEST with a hostname, and one with a client FQDN
abbrev options : List (ℕ × List ℕ)
options = (53, 3 ∷ []) ∷ (12, encode_ascii "printer ") ∷ []

abbrev fqdn_options : List (ℕ × List ℕ)
fqdn_options = (81, 1 ∷ 0 ∷ 0 ∷ encode_ascii "desk.lan") ∷ []

reads_fqdn : hostname_of is_ascii_printable (put_all fqdn_options []) ≡ some "desk"
unfolding hostname_of put get_or decode_utf8 strip split_on
reads_fqdn = refl

parse_options_total_example :
    (after : Options) × ((fuel : ℕ)
      → 4 < fuel
      → parse_options fuel (12 ∷ 200 ∷ 97 ∷ 98 ∷ []) [] ≡ some after)
parse_options_total_example = parse_options_total (12 ∷ 200 ∷ 97 ∷ 98 ∷ []) []

parse_bootp_dhcp-packet_example :
    parse_bootp_dhcp is_ascii_printable (packet header options (0 ∷ 0 ∷ []))
    ≡ some ("b8:27:eb:0a:0b:0c", some "printer")
unfolding hostname_of put get_or decode_utf8 strip lstrip rstrip join_hex
parse_bootp_dhcp-packet_example =
    parse_bootp_dhcp-packet header options (0 ∷ 0 ∷ []) header-IsHeader is_ascii_printable
      (
        (λ e. omega (arith, e), λ e. omega (arith, e)),
        ((λ e. omega (arith, e), λ e. omega (arith, e)), tt),
      )
      refl

-- A node whose name has priority 30, behind the hardware address of the packet.
abbrev known : Net
known = record net {
  l2_interfaces =
      record {
        mac_address = "b8:27:eb:0a:0b:0c";
        node_id = some 3;
        vendor = none;
        is_virtual = false;
        category = none;
        market_segment = none;
      }
      ∷ [];
}

abbrev unnamed : Net
unnamed = record known {
  logical_nodes = record node { hostname = none; hostname_source_priority = 0 } ∷ [];
}

abbrev sniffer : Sniffer
sniffer = record { attempts = []; network = some known }

abbrev request : List ℕ
request = packet header options []

-- The first of two equal packets writes the name.
writes_once :
    names_written is_ascii_printable
      ((100, request) ∷ (101, request) ∷ [])
      (record { attempts = []; network = some unnamed })
    ≡ 1
unfolding names_written handle_packet parse_bootp_dhcp chaddr_of parse_options put hostname_of
    get_or decode_utf8 strip lstrip rstrip join_hex is_usable_hostname admit_name is_rate_limited
    record_attempt select set_hostname_by_mac set_hostname_by_node_id find_key find update_key
    update write_hostname is_ignored
writes_once = refl

names_written_le_example :
    names_written is_ascii_printable ((100, request) ∷ (101, request) ∷ []) sniffer
      + fresh_at "global" rate_bucket global_window_seconds 105 sniffer.attempts
    ≤ 50
unfolding fresh_at get_or count
names_written_le_example =
    names_written_le is_ascii_printable 100 105 ((100, request) ∷ (101, request) ∷ []) sniffer
      (omega arith) (omega arith, omega arith, (omega arith, omega arith, tt)) (omega arith)

handle_all-row_example :
    row 3 (handle_all is_ascii_printable ((100, request) ∷ (101, request) ∷ []) sniffer) ≡ some node
unfolding find_key find
handle_all-row_example =
    handle_all-row 3 node (omega arith) is_ascii_printable ((100, request) ∷ (101, request) ∷ [])
      sniffer refl
