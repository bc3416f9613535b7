-- ===== src/Polling/Tests.antt =====
-- Runs of the choice of targets.
use net_lanvas.Base.{ℕ, String, none, some, [], ◌∷◌, false, ◌≡◌, refl, eq_String, eq_ℕ}
use net_lanvas.Base.Table.{select}
use net_lanvas.Net.{Interface, Binding, Net}
use net_lanvas.Hostname.Tests.{node, net}
use net_lanvas.Base.Dict.{Dict, get, get_or, put}
use net_lanvas.Base.Text.{split_on}
use net_lanvas.Polling.{
  Cached, credential, unresponsive, representative, newest_by_subnet, first_working, subnet,
  targets_of, get_representative_targets,
}
use net_lanvas.Polling.Targets.{AreTargets, rows_joined, get_representative_targets-AreTargets}

abbrev interface : String → ℕ → Interface
interface mac id = record {
  mac_address = mac;
  node_id = some id;
  vendor = none;
  is_virtual = false;
  category = none;
  market_segment = none;
}

abbrev bound : String → String → ℕ → Binding
bound ip mac at = record {
  ip_address = ip;
  mac_address = mac;
  discovery_source = "ARP";
  http_header = none;
  last_seen = at;
}

-- The old address still has a credential; the new one was not polled before.
abbrev cache : Dict String Cached
cache = ("10.0.1.5", credential) ∷ ("10.0.2.9", unresponsive) ∷ []

moved : representative cache ("10.0.1.77" ∷ "10.0.1.5" ∷ []) ≡ some "10.0.1.77"
unfolding representative newest_by_subnet first_working subnet split_on get
moved = refl

multihomed : representative cache ("10.0.2.9" ∷ "10.0.1.5" ∷ []) ≡ some "10.0.1.5"
unfolding representative newest_by_subnet first_working subnet split_on get
multihomed = refl

-- Node 3 has a new address and an old one in one subnet, and one in another.
abbrev tables : Net
tables = record net {
  logical_nodes = record node { id = 3; device_type = some "Switch" } ∷ [];
  l2_interfaces = interface "aa" 3 ∷ interface "bb" 3 ∷ [];
  l3_bindings =
      bound "10.0.1.5" "aa" 100 ∷ bound "10.0.2.9" "bb" 200 ∷ bound "10.0.1.77" "aa" 300 ∷ [];
}

targets : get_representative_targets ("Switch" ∷ []) cache tables ≡ "10.0.1.77" ∷ []
unfolding get_representative_targets targets_of representative newest_by_subnet first_working subnet
    split_on select get get_or put
targets = refl

get_representative_targets-AreTargets_example :
    AreTargets
      (rows_joined ("Switch" ∷ []) tables)
      (get_representative_targets ("Switch" ∷ []) cache tables)
get_representative_targets-AreTargets_example =
    get_representative_targets-AreTargets ("Switch" ∷ []) cache tables
