-- ===== src/Inventory.antt =====
-- The table verified_devices of inventory.db (src/engine/database.py). Times are in seconds.
use net_lanvas.Base.{
  ℕ, String, Option, none, some, List, [], ◌∷◌, ◌++◌, Bool, false, not, if◌then◌else◌, eq_String,
  is_some,
}
use net_lanvas.Base.Keyed.{find_key, update_key}
use net_lanvas.Base.Text.{is_blank}

-- the columns that a person fills in
pub record Human : Type 0 where
  pub user_given_name : Option String
  pub confirmed_device_type : Option String
  pub notes : Option String
  pub location : Option String
  pub asset_tag : Option String
  pub serial_number : Option String
  pub model : Option String
  pub purchase_date : Option String
  pub warranty_expiry : Option String

-- the columns that the engine fills in from network.db
pub record Snapshot : Type 0 where
  pub hostname : Option String
  pub vendor : Option String
  pub device_type : Option String
  pub ip : Option String
  pub os_family : Option String
  pub category : Option String
  pub market_segment : Option String
  pub http_header : Option String

-- a row
pub record Device : Type 0 where
  pub mac_address : String
  pub human : Human
  pub created_at : ℕ
  pub updated_at : ℕ
  pub last_known : Snapshot
  pub first_discovered : Option ℕ
  pub last_synced : Option ℕ
  pub site_stamp : Option String
  pub instance_id : Option String

abbrev pub no_human : Human
no_human = record {
  user_given_name = none;
  confirmed_device_type = none;
  notes = none;
  location = none;
  asset_tag = none;
  serial_number = none;
  model = none;
  purchase_date = none;
  warranty_expiry = none;
}

abbrev pub no_snapshot : Snapshot
no_snapshot = record {
  hostname = none;
  vendor = none;
  device_type = none;
  ip = none;
  os_family = none;
  category = none;
  market_segment = none;
  http_header = none;
}

-- the row of an INSERT that names the address only
abbrev pub blank_device : ℕ → String → Device
blank_device now mac = record {
  mac_address = mac;
  human = no_human;
  created_at = now;
  updated_at = now;
  last_known = no_snapshot;
  first_discovered = none;
  last_synced = none;
  site_stamp = none;
  instance_id = none;
}

-- neither NULL nor the empty text
abbrev pub is_given : Option String → Bool
is_given none = false
is_given (some text) = not (is_blank text)

-- INSERT ... ON CONFLICT(mac_address) DO UPDATE
unfoldable pub upsert : Device → (Device → Device) → List Device → List Device
upsert row f devices =
    if is_some (find_key Device.mac_address row.mac_address devices)
    then update_key Device.mac_address row.mac_address f devices
    else devices ++ row ∷ []

-- INSERT OR IGNORE
unfoldable pub insert_or_ignore : Device → List Device → List Device
insert_or_ignore row devices =
    if is_some (find_key Device.mac_address row.mac_address devices)
    then devices
    else devices ++ row ∷ []
