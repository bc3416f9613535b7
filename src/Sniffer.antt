-- ===== src/Sniffer.antt =====
-- The DHCP sniffer (src/pollers/dhcp_sniffer.py): a packet is the list of its bytes, and the
-- capture thread handles one packet after the other. `str.isprintable` on one character, which is
-- a table of Unicode, is a parameter.
pub mod Options
pub mod Packet
pub mod Caps
pub mod Names
mod Tests
use net_lanvas.Base.{
  ℕ, zero, suc, ◌+◌, String, Option, none, some, List, [], ◌∷◌, ◌++◌, Bool, true, false, not, ltb,
  leb, ◌&&◌, ◌||◌, nat_eq, if◌then◌else◌, eq_ℕ, length, take, all, is_empty,
}
use net_lanvas.Base.Bytes.{skip, slice, at, join_hex}
use net_lanvas.Base.Utf8.{decode_utf8}
use net_lanvas.Base.Text.{strip, split_on, is_blank, codes_eq}
use net_lanvas.Base.Dict.{Dict, get_or, put}
use net_lanvas.RateLimit.{Attempts, is_rate_limited, record_attempt}
use net_lanvas.Net.{Net}
use net_lanvas.Hostname.{is_usable_hostname, set_hostname_by_mac, priority_dhcp}
use Prim.Native.Char.{Char}

abbrev pub dhcp_magic_cookie : List ℕ
dhcp_magic_cookie = 99 ∷ 130 ∷ 83 ∷ 99 ∷ []

abbrev pub rate_bucket : String
rate_bucket = "dhcp_sniffer"

abbrev pub per_mac_window_seconds : ℕ
per_mac_window_seconds = 30

abbrev pub global_window_seconds : ℕ
global_window_seconds = 10

abbrev pub global_max_per_window : ℕ
global_max_per_window = 50

abbrev pub Options : Type 0
Options = Dict ℕ (List ℕ)

-- The loop over the options, where `bytes` is data[i:]. `none` is the end of the fuel.
unfoldable pub parse_options : ℕ → List ℕ → Options → Option Options
parse_options zero bytes options = none
parse_options (suc fuel) [] options = some options
parse_options (suc fuel) (opt_type ∷ rest) options = elim (nat_eq opt_type 255) [
  | true ↦ some options
  | false ↦ elim (nat_eq opt_type 0) [
    | true ↦ parse_options fuel rest options
    | false ↦ elim rest [
      | [] ↦ some options
      | opt_len ∷ body ↦
          parse_options fuel (skip opt_len body) (put opt_type (take opt_len body) options)
    ]
  ]
]

-- `text or None`
abbrev pub or_none : String → Option String
or_none text = if is_blank text then none else some text

-- "".join(ch for ch in text if p(ch))
abbrev pub keep_chars : (Char → Bool) → String → String
keep_chars p String.[] = String.[]
keep_chars p (String.◌∷◌ c s) = let rest = keep_chars p s in if p c then String.◌∷◌ c rest else rest

-- xs[0] of a list that split() returns
abbrev pub head_text : List String → String
head_text [] = ""
head_text (s ∷ rest) = s

abbrev pub fqdn_name : (Char → Bool) → List ℕ → Option String
fqdn_name is_printable value =
    let raw = if ltb 3 (length value) then skip 3 value else value in
    or_none (strip (head_text (split_on b'.' (keep_chars is_printable (decode_utf8 raw)))))

-- An option that is not there and one of no bytes are handled alike.
unfoldable pub hostname_of : (Char → Bool) → Options → Option String
hostname_of is_printable options =
    if not (is_empty (get_or 12 [] options))
    then or_none (strip (decode_utf8 (get_or 12 [] options)))
    else if not (is_empty (get_or 81 [] options))
    then fqdn_name is_printable (get_or 81 [] options)
    else none

unfoldable pub chaddr_of : List ℕ → List ℕ
chaddr_of bytes =
    let hlen = at 2 bytes in
    take (if ltb 0 hlen && leb hlen 16 then hlen else 6) (slice 28 44 bytes)

unfoldable pub parse_bootp_dhcp : (Char → Bool) → List ℕ → Option (String × Option String)
parse_bootp_dhcp is_printable bytes =
    let chaddr = chaddr_of bytes in
    if ltb (length bytes) 240
    then none
    else if is_empty chaddr || all (λ b. nat_eq b 0) chaddr
    then none
    else if not (codes_eq (slice 236 240 bytes) dhcp_magic_cookie)
    then none
    else elim (parse_options (suc (length bytes)) (skip 240 bytes) []) [
      | none ↦ none
      | some options ↦ some (join_hex ":" (take 6 chaddr), hostname_of is_printable options)
    ]

-- `network` is `none` where sqlite3.connect raises.
pub record Sniffer : Type 0 where
  pub attempts : Attempts
  pub network : Option Net

abbrev pub store_name : String → String → Attempts → Option Net → Bool × Sniffer
store_name mac hostname attempts none = (false, record { attempts = attempts; network = none })
store_name mac hostname attempts (some net) =
    let (wrote, after) = set_hostname_by_mac mac hostname priority_dhcp net in
    (wrote, record { attempts = attempts; network = some after })

-- From the first is_rate_limited on, for a packet with a usable hostname. The Boolean is `wrote`.
unfoldable pub admit_name : ℕ → String → String → Sniffer → Bool × Sniffer
admit_name now mac hostname s =
    let (is_full, checked) =
      is_rate_limited "global" rate_bucket global_max_per_window global_window_seconds now
        s.attempts in
    let (is_repeat, passed) =
      is_rate_limited mac rate_bucket 1 per_mac_window_seconds now checked in
    let counted = record_attempt "global" rate_bucket global_window_seconds now passed in
    if is_full
    then (false, record s { attempts = checked })
    else if is_repeat
    then (false, record s { attempts = passed })
    else store_name mac hostname (record_attempt mac rate_bucket per_mac_window_seconds now counted)
        s.network

-- the handler once the packet is parsed
abbrev pub handle_parsed : ℕ → Option (String × Option String) → Sniffer → Bool × Sniffer
handle_parsed now none s = (false, s)
handle_parsed now (some (mac, none)) s = (false, s)
handle_parsed now (some (mac, some hostname)) s =
    if not (is_usable_hostname hostname) then (false, s) else admit_name now mac hostname s

unfoldable pub handle_packet : (Char → Bool) → ℕ → List ℕ → Sniffer → Bool × Sniffer
handle_packet is_printable now bytes s = handle_parsed now (parse_bootp_dhcp is_printable bytes) s
