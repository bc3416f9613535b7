-- ===== src/Unification/Candidates.antt =====
-- Smart switches that answered are applied to the nodes (src/engine/unification.py:
-- run_smart_switch_candidate_pass).
pub mod Keeps
use net_lanvas.Base.{
  ℕ, suc, ◌+◌, ◌*◌, String, Option, none, some, List, [], ◌∷◌, Bool, true, false, not, ◌||◌, ltb,
  elem, map, if◌then◌else◌, eq_ℕ, eq_String, is_some, is_empty,
}
use net_lanvas.Base.Table.{select, delete}
use net_lanvas.Base.Keyed.{find_key, update_key}
use net_lanvas.Base.Text.{append, strip, is_blank}
use net_lanvas.Net.{Node, Net}
use net_lanvas.Inventory.{Human, Device, no_human, blank_device, is_given, upsert}
use net_lanvas.Hostname.{priority_lldp_sysname, priority_dhcp, set_hostname_by_mac}
use net_lanvas.Unification.{node_of_mac}
use net_lanvas.Unification.Classify.{is_none_of}

-- a row of smart_switch_candidates
pub record Candidate : Type 0 where
  pub mac_address : String
  pub vendor : Option String
  pub model : Option String
  pub protocol : Option String
  pub last_seen : ℕ

abbrev pub self_identifying_protocols : List String
self_identifying_protocols = "SSDP" ∷ "SNMP" ∷ []

abbrev pub protected_device_types : List String
protected_device_types =
    "Router" ∷ "Docker Host" ∷ "Hypervisor" ∷ "Switch" ∷ "Access Point" ∷ "Switch / WAP"
    ∷ "Smart Switch" ∷ "Server" ∷ "Printer" ∷ []

abbrev pub smart_switch_candidate_purge_age_seconds : ℕ
smart_switch_candidate_purge_age_seconds = 3 * 60 * 60

abbrev pub is_stale : ℕ → Candidate → Bool
is_stale now c = ltb (c.last_seen + smart_switch_candidate_purge_age_seconds) now

-- a value in an f-string
abbrev pub format : Option String → String
format none = "None"
format (some text) = text

abbrev pub label : Candidate → Option String
label c =
    if is_given c.model
    then some (strip (append (format c.vendor) (append " " (format c.model))))
    else c.vendor

abbrev pub is_self_identifying : Option String → Bool
is_self_identifying none = false
is_self_identifying (some protocol) = elem protocol self_identifying_protocols

abbrev pub target_type : Candidate → String
target_type c =
    if is_self_identifying c.protocol then "Smart Switch" else "Smart Switch (Unverified)"

abbrev pub display_name : Candidate → Option String
display_name c =
    if is_self_identifying c.protocol
    then label c
    else some
        (append (format (label c)) (append " (unconfirmed -- " (append (format c.protocol) ")")))

abbrev pub priority : Candidate → ℕ
priority c = if is_self_identifying c.protocol then priority_lldp_sysname else priority_dhcp

-- None is as little of a hostname as the empty text.
abbrev pub or_blank : Option String → String
or_blank none = ""
or_blank (some text) = text

abbrev pub is_retyped : ℕ → Net → Bool
is_retyped node_id net = elim (find_key Node.id node_id net.logical_nodes) [
  | none ↦ false
  | some n ↦ is_none_of protected_device_types n.device_type
]

-- the two writes to network.db
unfoldable pub tag : Candidate → ℕ → Net → Net
tag c node_id net =
    let (_, named) =
      set_hostname_by_mac c.mac_address (or_blank (display_name c)) (priority c) (record net {
        logical_nodes =
            update_key Node.id node_id (λ n. record n { device_type = some (target_type c) })
              net.logical_nodes;
      }) in
    named

-- notes are set on an insert only
abbrev pub confirmed : ℕ → Candidate → Device
confirmed now c = record (blank_device now c.mac_address) {
  human = record no_human {
    user_given_name = label c;
    confirmed_device_type = some "Smart Switch";
    notes = some (
        append "Auto-confirmed via "
          (append (format c.protocol) " self-identification (not a human confirmation)."));
  };
}

abbrev pub reconfirmed : ℕ → Candidate → Device → Device
reconfirmed now c d = record d {
  human = record d.human { user_given_name = label c; confirmed_device_type = some "Smart Switch" };
  updated_at = now;
}

-- inventory.db, or `none` where it could not be read. `refused` says for which addresses a write
-- to it raises, which is logged.
unfoldable pub auto_write :
    (String → Bool) → ℕ → Candidate → Option (List Device) → Option (List Device)
auto_write refused now c none = none
auto_write refused now c (some devices) =
    if is_self_identifying c.protocol
    then if refused c.mac_address
      then some devices
      else some (upsert (confirmed now c) (reconfirmed now c) devices)
    else some devices

pub record Pass : Type 0 where
  pub net : Net
  pub inventory : Option (List Device)
  pub suggested : ℕ

unfoldable pub suggest_on : (String → Bool) → ℕ → Candidate → Option ℕ → Pass → Pass
suggest_on refused now c none pass = pass
suggest_on refused now c (some node_id) pass =
    if is_retyped node_id pass.net
    then record {
      net = tag c node_id pass.net;
      inventory = auto_write refused now c pass.inventory;
      suggested = suc pass.suggested;
    }
    else pass

unfoldable pub suggest : (String → Bool) → List String → ℕ → Candidate → Pass → Pass
suggest refused already_verified now c pass =
    if elem c.mac_address already_verified
    then pass
    else suggest_on refused now c (node_of_mac pass.net c.mac_address) pass

unfoldable pub suggest_all : (String → Bool) → List String → ℕ → List Candidate → Pass → Pass
suggest_all refused already_verified now [] pass = pass
suggest_all refused already_verified now (c ∷ candidates) pass =
    suggest_all refused already_verified now candidates
      (suggest refused already_verified now c pass)

abbrev pub is_human_confirmed : Device → Bool
is_human_confirmed d = is_some d.human.user_given_name || is_some d.human.confirmed_device_type

abbrev pub verified_macs : Option (List Device) → List String
verified_macs none = []
verified_macs (some devices) = map Device.mac_address (select is_human_confirmed devices)

unfoldable pub run_smart_switch_candidate_pass :
    (String → Bool) → ℕ → List Candidate → Option (List Device) → Net → List Candidate × Pass
run_smart_switch_candidate_pass refused now candidates inventory net =
    let kept = delete (is_stale now) candidates in
    (
      kept,
      suggest_all refused (verified_macs inventory) now kept
          (record { net = net; inventory = inventory; suggested = 0 }),
    )
