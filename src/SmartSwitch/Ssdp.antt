-- ===== src/SmartSwitch/Ssdp.antt =====
-- The answers to an SSDP search (src/engine/smart_switch_pipeline.py, step 5).
use net_lanvas.Base.{
  ℕ, ◌-◌, String, Option, none, some, List, [], ◌∷◌, Bool, true, false, not, leb, nat_eq, eq_String,
  ◌&&◌, ◌||◌, if◌then◌else◌,
}
use net_lanvas.Base.Text.{strip, split_on, len, codes, lower, lower_code, any_char, append}
use net_lanvas.Base.Split.{first_text, last_text, split_crlf, words, cut_at, after_text}
use net_lanvas.Base.Utf8.{decode_replace, cons_chr}
use net_lanvas.Base.Dict.{Dict, get, put}
use net_lanvas.SmartSwitch.{Device, read_new}
use Prim.Native.Char.{Char, code}

-- the vendor of the pattern that lower-case text contains
abbrev pub ssdp_switch_vendor_patterns : Dict String String
ssdp_switch_vendor_patterns = ("netgear_switch", "Netgear") ∷ []

-- The code point of ch.upper(), where it is below 128.
abbrev upper_code : ℕ → ℕ
upper_code k =
    if leb b'a' k && leb k b'z'
    then k - 32
    else if nat_eq k 0x131
    then b'I'
    else if nat_eq k 0x17f
    then b'S'
    else k

-- s.upper(). The result is exact where it is ASCII with no two letters that one character stands
-- for, as in the three keys that are read.
unfoldable pub upper : String → String
upper String.[] = String.[]
upper (String.◌∷◌ c s) = cons_chr (upper_code (code c)) (upper s)

-- s.lower() of an ASCII text
unfoldable pub lower_text : String → String
lower_text String.[] = String.[]
lower_text (String.◌∷◌ c s) = cons_chr (lower_code (code c)) (lower_text s)

abbrev begins : List ℕ → List ℕ → Bool
begins xs [] = true
begins [] (y ∷ ys) = false
begins (x ∷ xs) (y ∷ ys) = nat_eq x y && begins xs ys

-- pattern in text
unfoldable pub contains : List ℕ → List ℕ → Bool
contains pattern [] = begins [] pattern
contains pattern (x ∷ xs) = begins (x ∷ xs) pattern || contains pattern xs

abbrev pub Headers : Type 0
Headers = Dict String String

unfoldable pub read_headers : List String → Headers → Headers
read_headers [] headers = headers
read_headers (line ∷ lines) headers = elim (cut_at b':' line) [
  | none ↦ read_headers lines headers
  | some (key, value) ↦ read_headers lines (put (upper (strip key)) (strip value) headers)
]

-- headers.get(key, "")
abbrev pub header : String → Headers → String
header key headers = elim (get key headers) [ none ↦ "" | some value ↦ value ]

unfoldable pub vendor_of : Dict String String → String → Option String
vendor_of [] server = none
vendor_of ((pattern, name) ∷ patterns) server =
    if contains (codes pattern) (lower server) then some name else vendor_of patterns server

abbrev is_hex : Char → Bool
is_hex c =
    let k = code c in
    (leb b'0' k && leb k b'9') || (leb b'a' k && leb k b'f') || (leb b'A' k && leb k b'F')

-- ":".join(candidate[i:i + 2] for i in range(0, 12, 2)) of a text of even length
abbrev pub in_pairs : String → String
in_pairs String.[] = ""
in_pairs (String.◌∷◌ c String.[]) = String.◌∷◌ c String.[]
in_pairs (String.◌∷◌ c (String.◌∷◌ d String.[])) = String.◌∷◌ c (String.◌∷◌ d String.[])
in_pairs (String.◌∷◌ c (String.◌∷◌ d (String.◌∷◌ e s))) =
    String.◌∷◌ c (String.◌∷◌ d (append ":" (in_pairs (String.◌∷◌ e s))))

unfoldable pub mac_of_usn : String → Option String
mac_of_usn usn = elim (after_text "uuid:" usn) [
  | none ↦ none
  | some rest ↦
      let candidate = last_text (split_on b'-' (first_text (split_on b':' rest))) in
      if nat_eq (len candidate) 12 && not (any_char (λ c. not (is_hex c)) candidate)
      then some (lower_text (in_pairs candidate))
      else none
]

-- lines[1:]
abbrev pub tail_texts : List String → List String
tail_texts [] = []
tail_texts (line ∷ lines) = lines

unfoldable pub parse_ssdp_response : List ℕ → String → Option Device
parse_ssdp_response bytes src_ip =
    let headers = read_headers (tail_texts (split_crlf (decode_replace bytes))) [] in
    let server = header "SERVER" headers in
    let product = cut_at b'/' (last_text (words server)) in
    elim (vendor_of ssdp_switch_vendor_patterns server) [
      | none ↦ none
      | some vendor ↦ elim (mac_of_usn (header "USN" headers)) [
        | none ↦ none
        | some mac ↦ some (record {
          mac = mac;
          vendor = vendor;
          model = elim product [ none ↦ none | some (model, firmware) ↦ some model ];
          name = none;
          ip = some src_ip;
          protocol = "SSDP";
          firmware = elim product [ none ↦ none | some (model, firmware) ↦ some firmware ];
          raw_strings = [];
          location = get "LOCATION" headers;
          source_ip = some src_ip;
        })
      ]
    ]

-- The replies come as (src_ip, data) there.
unfoldable pub step_05_ssdp : List (List ℕ × String) → List Device
step_05_ssdp replies = read_new parse_ssdp_response [] replies
