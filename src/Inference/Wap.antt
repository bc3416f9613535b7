-- ===== src/Inference/Wap.antt =====
-- Access points that are inferred from their clients (src/engine/inference_engine.py:
-- _segment_for_ip, run_wap_inference). Subnets are IPv4 in CIDR form.
pub mod Pass
pub mod Rows
use net_lanvas.Base.{
  ℕ, zero, suc, ◌+◌, ◌*◌, ◌-◌, ◌/◌, ◌%◌, ◌^◌, String, Option, none, some, List, [], ◌∷◌, ◌++◌, Bool,
  true, false, not, ◌&&◌, ◌||◌, leb, ltb, nat_eq, any, elem, map, if◌then◌else◌, eq_ℕ, eq_String,
  Eq, ◌==◌, is_some, length, ◌≡◌, ◌↔◌, refl, arith, eq_iff, nat_eq_iff,
}
use net_lanvas.Base.Table.{select, update}
use net_lanvas.Base.Keyed.{find_key, update_key, delete_key, has_key}
use net_lanvas.Base.Dict.{Dict, get_or, put}
use net_lanvas.Base.Bytes.{hex_byte}
use net_lanvas.Base.Crc.{crc32}
use net_lanvas.Base.Utf8.{encode_ascii}
use net_lanvas.Base.Text.{append, codes, split_on, starts_with, is_blank, lower}
use net_lanvas.Base.Number.{Ipv4, show, parse_int, parse_ipv4}
use net_lanvas.Net.{Node, Interface, Binding, Net}
use net_lanvas.Hostname.{is_one_of, is_text, is_ignored}
use net_lanvas.Unification.{of_node, delete_node}
use net_lanvas.Unification.Classify.{is_none_of, is_prefix, has_part}
use net_lanvas.Unification.Consolidation.{delete_interface}

abbrev pub wap_pseudo_mac_prefix : String
wap_pseudo_mac_prefix = "02:fe:"

-- a VLAN, or the text of a subnet
pub data Segment : Type 0 where
  vlan : ℕ → Segment
  subnet : String → Segment

abbrev pub segment_eq : Segment → Segment → Bool
segment_eq (vlan j) (vlan k) = nat_eq j k
segment_eq (subnet s) (subnet t) = s == t
segment_eq _ _ = false

pub segment_eq_iff : (x y : Segment) → (segment_eq x y ≡ true) ↔ (x ≡ y)
segment_eq_iff (vlan j) (vlan k) = ground (arith, nat_eq_iff j k)
segment_eq_iff (vlan j) (subnet t) = ground arith
segment_eq_iff (subnet s) (vlan k) = ground arith
segment_eq_iff (subnet s) (subnet t) =
    (λ h. ground (arith, eq_iff s t), λ h. ground (arith, eq_iff s t))

instance abbrev pub eq_Segment : Eq Segment
eq_Segment = record { beq = segment_eq; beq_iff = segment_eq_iff }

abbrev pub number_of : Ipv4 → ℕ
number_of ip = ((ip.a * 256 + ip.b) * 256 + ip.c) * 256 + ip.d

-- an IPv4 network by its first address and its number of fixed bits
pub record Subnet : Type 0 where
  pub address : ℕ
  pub prefix_length : ℕ

abbrev pub subnet_from : List String → Option Subnet
subnet_from (ip ∷ []) = elim (parse_ipv4 ip) [
  | none ↦ none
  | some x ↦ some (record { address = number_of x; prefix_length = 32 })
]
subnet_from (ip ∷ bits ∷ []) = elim (parse_ipv4 ip) [
  | none ↦ none
  | some x ↦ elim (parse_int bits) [
    | none ↦ none
    | some n ↦ if ltb 32 n then none else some (record { address = number_of x; prefix_length = n })
  ]
]
subnet_from _ = none

-- ipaddress.ip_network(text, strict=False); `none` stands for ValueError
unfoldable pub parse_subnet : String → Option Subnet
parse_subnet text = subnet_from (split_on b'/' text)

abbrev pub contains : Subnet → Ipv4 → Bool
contains s ip =
    nat_eq (number_of ip / 2 ^ (32 - s.prefix_length)) (s.address / 2 ^ (32 - s.prefix_length))

-- a row of router_subnets
abbrev pub SubnetRow : Type 0
SubnetRow = String × Option ℕ

abbrev pub segment_key : SubnetRow → Segment
segment_key (text, none) = subnet text
segment_key (text, some vlan_id) = vlan vlan_id

unfoldable pub subnets_of : List SubnetRow → List (Subnet × Segment)
subnets_of [] = []
subnets_of (row ∷ rows) = elim (parse_subnet row.0) [
  | none ↦ subnets_of rows
  | some s ↦ (s, segment_key row) ∷ subnets_of rows
]

-- str(ipaddress.ip_network(f"{ip}/24", strict=False))
abbrev pub around : Ipv4 → String
around ip =
    append (show ip.a) (append "." (append (show ip.b) (append "." (append (show ip.c) ".0/24"))))

unfoldable pub first_segment : Ipv4 → List (Subnet × Segment) → Segment
first_segment ip [] = subnet (around ip)
first_segment ip ((s, key) ∷ subnets) =
    let rest = first_segment ip subnets in if contains s ip then key else rest

unfoldable pub segment_for_ip : String → List (Subnet × Segment) → Option Segment
segment_for_ip ip_str subnets = elim (parse_ipv4 ip_str) [
  | none ↦ none
  | some ip ↦ some (first_segment ip subnets)
]

-- What the pass takes from elsewhere: which code points from 128 on match \w, and the vendor of
-- an address in engine/oui_manager.py.
pub record Lookups : Type 0 where
  pub is_word_beyond : ℕ → Bool
  pub vendor_of : String → Option String

abbrev pub is_word : Lookups → ℕ → Bool
is_word look k =
    if ltb k 128
    then (leb b'0' k && leb k b'9')
      || (leb b'A' k && leb k b'Z')
      || (leb b'a' k && leb k b'z')
      || nat_eq k b'_'
    else look.is_word_beyond k

-- re.IGNORECASE, for the letters of the pattern
abbrev pub fold : ℕ → ℕ
fold k =
    if leb b'A' k && leb k b'Z'
    then k + 32
    else if nat_eq k 0x130 || nat_eq k 0x131
    then b'i'
    else k

-- the code points after a word, if the text begins with it
unfoldable pub after_word : List ℕ → List ℕ → Option (List ℕ)
after_word [] rest = some rest
after_word (w ∷ word) [] = none
after_word (w ∷ word) (k ∷ rest) =
    let more = after_word word rest in if nat_eq (fold k) w then more else none

abbrev pub ends_here : Lookups → Option (List ℕ) → Bool
ends_here look none = false
ends_here look (some []) = true
ends_here look (some (k ∷ rest)) = not (is_word look k)

abbrev pub mobile_words : List String
mobile_words = "iphone" ∷ "ipad" ∷ "tablet" ∷ "phone" ∷ "watch" ∷ []

abbrev pub word_here : Lookups → List ℕ → Bool
word_here look text = any (λ word. ends_here look (after_word (codes word) text)) mobile_words

-- _MOBILE_HOSTNAME_PATTERN.search, after a character that is part of a word or not
unfoldable pub search_mobile : Lookups → Bool → List ℕ → Bool
search_mobile look inside [] = false
search_mobile look inside (k ∷ rest) =
    (not inside && word_here look (k ∷ rest)) || search_mobile look (is_word look k) rest

abbrev pub is_mobile : Lookups → String → Bool
is_mobile look hostname = search_mobile look false (codes hostname)

abbrev pub mobile_vendor_keywords : List String
mobile_vendor_keywords =
    "apple" ∷ "samsung" ∷ "huawei" ∷ "xiaomi" ∷ "oneplus" ∷ "google" ∷ "lg electronics" ∷ "motorola"
    ∷ "garmin" ∷ "fitbit" ∷ "oppo" ∷ "vivo" ∷ "sony mobile" ∷ "nokia" ∷ "honor device" ∷ []

abbrev pub is_mobile_vendor : Option String → Bool
is_mobile_vendor none = false
is_mobile_vendor (some vendor) =
    any (λ keyword. has_part (codes keyword) (lower vendor)) mobile_vendor_keywords
