-- ===== src/SmartSwitch.antt =====
-- Smart switches that answer on their vendors' own protocols
-- (src/engine/smart_switch_pipeline.py). What a socket received in a step is the list of the
-- packets with their senders, and the children read them.
pub mod Walk
pub mod Nsdp
pub mod Escp
pub mod Ddp
pub mod Ssdp
pub mod Pipeline
mod Tests
use net_lanvas.Base.{
  ℕ, zero, suc, String, Option, none, some, List, [], ◌∷◌, Bool, true, false, nat_eq, elem,
  eq_String, ◌==◌, ◌||◌, take, if◌then◌else◌,
}
use net_lanvas.Base.Bytes.{skip, u16, join_hex}
use net_lanvas.Base.Text.{is_blank}

-- The dict of a found device. A key that it does not have is `none` here.
pub record Device : Type 0 where
  pub mac : String
  pub vendor : String
  pub model : Option String
  pub name : Option String
  pub ip : Option String
  pub protocol : String
  pub firmware : Option String
  pub raw_strings : List String
  pub location : Option String
  pub source_ip : Option String

abbrev pub heard_from : String → Device → Device
heard_from src_ip d = record d { source_ip = some src_ip }

-- The devices of a step that reads each packet on its own.
unfoldable pub read_all : (List ℕ → Option Device) → List (List ℕ × String) → List Device
read_all parse [] = []
read_all parse ((bytes, src_ip) ∷ replies) =
    let rest = read_all parse replies in
    elim (parse bytes) [ none ↦ rest | some d ↦ heard_from src_ip d ∷ rest ]

-- The devices of a step that takes each MAC address once. `seen` are those taken so far.
unfoldable pub read_new :
    (List ℕ → String → Option Device) → List String → List (List ℕ × String) → List Device
read_new parse seen [] = []
read_new parse seen ((bytes, src_ip) ∷ packets) = elim (parse bytes src_ip) [
  | none ↦ read_new parse seen packets
  | some d ↦ elim (elem d.mac seen) [
    | true ↦ read_new parse seen packets
    | false ↦ d ∷ read_new parse (d.mac ∷ seen) packets
  ]
]

-- The loop over fields of a 2-byte type, a 2-byte length and a value, where `bytes` is
-- data[offset:], `advance` is what is added to the offset beside the 4 of type and length, and
-- `body` is done for each field. `none` is the end of the fuel.
unfoldable pub walk {ℓ} : {S : Type ℓ} → (ℕ → ℕ) → (ℕ → List ℕ → S → S) → ℕ → List ℕ → S → Option S
walk advance body zero bytes s = none
walk advance body (suc fuel) (a ∷ b ∷ c ∷ d ∷ rest) s = elim (nat_eq (u16 a b) 0xffff) [
  | true ↦ some s
  | false ↦
      walk advance body fuel (skip (advance (u16 c d)) rest)
        (body (u16 a b) (take (u16 c d) rest) s)
]
walk advance body (suc fuel) _ s = some s
