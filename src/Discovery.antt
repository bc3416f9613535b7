-- ===== src/Discovery.antt =====
-- Hostnames by reverse mDNS and by NetBIOS (src/pollers/hostname_discovery.py). What the sockets
-- give for an address is an argument. A parser's `none` is its `return None`, which is also what
-- an exception in it becomes.
pub mod Ends
pub mod Names
mod Tests
use net_lanvas.Base.{
  ℕ, zero, suc, ◌+◌, ◌-◌, ◌*◌, ◌%◌, String, Option, none, some, List, [], ◌∷◌, ◌++◌, Bool, true,
  false, not, ltb, leb, nat_eq, ◌&&◌, ◌||◌, if◌then◌else◌, length, eq_ℕ,
}
use net_lanvas.Base.Bytes.{slice, u16}
use net_lanvas.Base.Utf8.{decode_utf8, decode_ascii, cons_chr}
use net_lanvas.Base.Text.{strip, is_blank}
use net_lanvas.Net.{Net}
use net_lanvas.Hostname.{set_hostname_by_ip, priority_mdns, priority_netbios}

-- data[pos], or IndexError
unfoldable pub byte_at : ℕ → List ℕ → Option ℕ
byte_at pos [] = none
byte_at zero (b ∷ rest) = some b
byte_at (suc pos) (b ∷ rest) = byte_at pos rest

-- struct.unpack(">H", data[pos:pos + 2])[0], or struct.error
abbrev pub u16_at : ℕ → List ℕ → Option ℕ
u16_at pos bytes = elim (byte_at pos bytes) [
  | none ↦ none
  | some high ↦ elim (byte_at (pos + 1) bytes) [ none ↦ none | some low ↦ some (u16 high low) ]
]

-- b & 0xC0 == 0xC0
abbrev pub is_pointer : ℕ → Bool
is_pointer b = leb 0xc0 (b % 256)

-- text.decode("ascii", errors="ignore")
unfoldable pub decode_known : List ℕ → String
decode_known [] = String.[]
decode_known (b ∷ rest) =
    let text = decode_known rest in if ltb b 128 then cons_chr b text else text

-- How a loop comes out: with a result, with an exception, or not within its fuel.
pub data Looped {ℓ} (A : Type ℓ) : Type ℓ where
  returned : A → Looped A
  raised out_of_fuel : Looped A

-- `except Exception: return None`
abbrev pub result {ℓ} : {A : Type ℓ} → Looped A → Option A
result (returned a) = some a
result raised = none
result out_of_fuel = none

-- The loop over the labels of a name that is not a pointer, to the position after it.
unfoldable pub skip_name : ℕ → ℕ → List ℕ → Looped ℕ
skip_name zero pos bytes = out_of_fuel
skip_name (suc fuel) pos bytes = elim (byte_at pos bytes) [
  | none ↦ raised
  | some b ↦ elim (nat_eq b 0) [
    | true ↦ returned (pos + 1)
    | false ↦ skip_name fuel (pos + b + 1) bytes
  ]
]

-- the position of what follows the answer's name
abbrev pub after_name : List ℕ → Option ℕ
after_name bytes = elim (byte_at 12 bytes) [
  | none ↦ none
  | some b ↦ if is_pointer b then some 14 else result (skip_name (suc (length bytes)) 12 bytes)
]

-- _read_labels_at, where `left` is 20 - seen
unfoldable pub read_labels_at : ℕ → ℕ → List ℕ → Option (List String)
read_labels_at zero pos bytes = some []
read_labels_at (suc left) pos bytes = elim (byte_at pos bytes) [
  | none ↦ some []
  | some b ↦ elim (nat_eq b 0) [
    | true ↦ some []
    | false ↦ elim (is_pointer b) [
      | true ↦ elim (u16_at pos bytes) [
        | none ↦ none
        | some n ↦ read_labels_at left (n % 0x4000) bytes
      ]
      | false ↦ elim (read_labels_at left (pos + 1 + b) bytes) [
        | none ↦ none
        | some labels ↦ some (decode_utf8 (slice (pos + 1) (pos + 1 + b) bytes) ∷ labels)
      ]
    ]
  ]
]

abbrev pub looped {ℓ} : {A : Type ℓ} → Option A → Looped A
looped none = raised
looped (some a) = returned a

abbrev pub add_label : String → Looped (List String) → Looped (List String)
add_label label (returned labels) = returned (label ∷ labels)
add_label label raised = raised
add_label label out_of_fuel = out_of_fuel

-- The loop over the labels of the answer's data, which ends before `rdata_end`.
unfoldable pub read_rdata : ℕ → ℕ → ℕ → List ℕ → Looped (List String)
read_rdata zero pos rdata_end bytes = out_of_fuel
read_rdata (suc fuel) pos rdata_end bytes = elim (ltb pos rdata_end) [
  | false ↦ returned []
  | true ↦ elim (byte_at pos bytes) [
    | none ↦ raised
    | some b ↦ elim (nat_eq b 0) [
      | true ↦ returned []
      | false ↦ elim (is_pointer b) [
        | true ↦ elim (u16_at pos bytes) [
          | none ↦ raised
          | some n ↦ looped (read_labels_at 20 (n % 0x4000) bytes)
        ]
        | false ↦
            add_label (decode_utf8 (slice (pos + 1) (pos + 1 + b) bytes))
              (read_rdata fuel (pos + 1 + b) rdata_end bytes)
      ]
    ]
  ]
]

-- labels[0] if labels[0] else None
abbrev pub first_label : Option (List String) → Option String
first_label none = none
first_label (some []) = none
first_label (some (label ∷ labels)) = if is_blank label then none else some label

unfoldable pub parse_ptr_hostname : List ℕ → Option String
parse_ptr_hostname bytes = elim (u16_at 6 bytes) [
  | none ↦ none
  | some ancount ↦ if ltb ancount 1 then none else elim (after_name bytes) [
    | none ↦ none
    | some pos ↦ elim (u16_at (pos + 8) bytes) [
      | none ↦ none
      | some rdlength ↦
          first_label
            (result (read_rdata (suc (length bytes)) (pos + 10) (pos + 10 + rdlength) bytes))
    ]
  ]
]

abbrev pub nbstat_wildcard_length : ℕ
nbstat_wildcard_length = 34

-- `for _ in range(num_names)`
unfoldable pub first_nbstat_name : ℕ → ℕ → List ℕ → Option String
first_nbstat_name zero pos bytes = none
first_nbstat_name (suc count) pos bytes = elim (byte_at (pos + 15) bytes) [
  | none ↦ none
  | some suffix ↦ elim (u16_at (pos + 16) bytes) [
    | none ↦ none
    | some flags ↦
        let name = strip (decode_known (slice pos (pos + 15) bytes)) in
        let rest = first_nbstat_name count (pos + 18) bytes in
        if leb 0x8000 flags || not (nat_eq suffix 0) || is_blank name then rest else some name
  ]
]

unfoldable pub parse_nbstat_name : List ℕ → Option String
parse_nbstat_name bytes = elim (byte_at 12 bytes) [
  | none ↦ none
  | some b ↦
      let pos = (if is_pointer b then 14 else 12 + nbstat_wildcard_length) + 8 in
      elim (u16_at pos bytes) [
        | none ↦ none
        | some rdlength ↦ elim (byte_at (pos + 2) bytes) [
          | none ↦ none
          | some num_names ↦ first_nbstat_name num_names (pos + 3) bytes
        ]
      ]
]

-- What a probe of an address gives: its two names.
pub record Probe : Type 0 where
  pub ip : String
  pub mdns_name : Option String
  pub nb_name : Option String

-- `if name and set_hostname_by_ip(...)`, where an empty name is no usable one either
abbrev pub offer_name : String → ℕ → Option String → Net → Net
offer_name ip priority none net = net
offer_name ip priority (some name) net = (set_hostname_by_ip ip name priority net).1

-- the loop over the results; a probe that raised has none
unfoldable pub write_results : List (Option Probe) → Net → Net
write_results [] net = net
write_results (none ∷ results) net = write_results results net
write_results (some r ∷ results) net =
    write_results results
      (offer_name r.ip priority_netbios r.nb_name (offer_name r.ip priority_mdns r.mdns_name net))
