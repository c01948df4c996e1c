-- ===== src/Devices.antt =====
-- The hub's in-memory device store, crates/ahand-hub/src/state.rs (`MemoryDeviceStore`), where it
-- has no Postgres store behind it, with crates/ahand-hub-core/src/device.rs. The clock of
-- `pre_register` is an argument. A signature is checked before a hello comes here.
pub mod Steps
pub mod History
mod Examples
use a_hand.Base.{
  ℕ, Bool, true, false, List, [], ◌∷◌, Option, none, some, leb, ◌==◌, if◌then◌else◌, keep, is_some,
}
use a_hand.Base.Text.{Text, codes, text_eq}
use a_hand.Base.Map
use a_hand.Base.Map.{Map}
use a_hand.Hub.{
  Result, ok, err, unauthorized, device_not_found, device_already_exists,
  device_owned_by_different_user,
}

pub record Device : Type 0 where
  pub id : Text
  pub public_key : Option Text
  pub hostname : Text
  pub os : Text
  pub capabilities : List Text
  pub version : Option Text
  pub auth_method : Text
  pub online : Bool
  pub external_user_id : Option Text

pub record NewDevice : Type 0 where
  pub id : Text
  pub public_key : Option Text
  pub hostname : Text
  pub os : Text
  pub capabilities : List Text
  pub version : Option Text
  pub auth_method : Text
  pub external_user_id : Option Text

pub record StoredDevice : Type 0 where
  pub device : Device
  pub last_signed_at_ms : ℕ

-- What the hello says, and what its verified signature says.
pub record Hello : Type 0 where
  pub hostname : Text
  pub os : Text
  pub capabilities : List Text
  pub version : Text

pub record VerifiedDeviceHello : Type 0 where
  pub public_key : Text
  pub signed_at_ms : ℕ
  pub allow_registration : Bool
  pub auth_method : Text

abbrev pub MemoryDeviceStore : Type 0
MemoryDeviceStore = Map Text StoredDevice

-- The key to store, if the hello may speak for the device.
unfoldable pub claim_key : Bool → Option Text → Text → Option Text
claim_key true none key = some key
claim_key false (some existing_key) key = if existing_key == key then some existing_key else none
claim_key true (some existing_key) key = none
claim_key false none key = none

-- What an accepted hello stores.
abbrev pub greeted : StoredDevice → Text → Hello → VerifiedDeviceHello → StoredDevice
greeted stored key hello verified = record {
  device = record {
    id = stored.device.id;
    public_key = some key;
    hostname = hello.hostname;
    os = hello.os;
    capabilities = hello.capabilities;
    version = some hello.version;
    auth_method = verified.auth_method;
    online = stored.device.online;
    external_user_id = stored.device.external_user_id;
  };
  last_signed_at_ms = verified.signed_at_ms;
}

-- The key is written before the time of the signature is compared.
abbrev pub keyed : StoredDevice → Text → StoredDevice
keyed stored key = record stored { device = record stored.device { public_key = some key } }

unfoldable pub accept_verified_hello :
    MemoryDeviceStore → Text → Hello → VerifiedDeviceHello → MemoryDeviceStore × Result Device
unfolding claim_key
accept_verified_hello t device_id hello verified = elim (Map.get device_id t) [
  | none ↦ (t, err unauthorized)
  | some stored ↦
      elim (claim_key verified.allow_registration stored.device.public_key verified.public_key) [
        | none ↦ (t, err unauthorized)
        | some key ↦
            if leb verified.signed_at_ms stored.last_signed_at_ms
            then (Map.insert device_id (keyed stored key) t, err unauthorized)
            else (
              Map.insert device_id (greeted stored key hello verified) t,
              ok (greeted stored key hello verified).device,
            )
      ]
]

-- `mark_online` and `mark_offline`.
abbrev pub with_online : Bool → StoredDevice → StoredDevice
with_online b stored = record stored { device = record stored.device { online = b } }

unfoldable pub mark_online : MemoryDeviceStore → Text → MemoryDeviceStore × Result {0} Unit
mark_online t device_id = elim (Map.get device_id t) [
  | none ↦ (t, err (device_not_found device_id))
  | some stored ↦ (Map.insert device_id (with_online true stored) t, ok tt)
]

unfoldable pub mark_offline : MemoryDeviceStore → Text → MemoryDeviceStore × Result {0} Unit
mark_offline t device_id = elim (Map.get device_id t) [
  | none ↦ (t, err (device_not_found device_id))
  | some stored ↦ (Map.insert device_id (with_online false stored) t, ok tt)
]

abbrev pub fresh : NewDevice → StoredDevice
fresh d = record {
  device = record {
    id = d.id;
    public_key = d.public_key;
    hostname = d.hostname;
    os = d.os;
    capabilities = d.capabilities;
    version = d.version;
    auth_method = d.auth_method;
    online = false;
    external_user_id = d.external_user_id;
  };
  last_signed_at_ms = 0;
}

unfoldable pub insert : MemoryDeviceStore → NewDevice → MemoryDeviceStore × Result Device
insert t d = elim (Map.get d.id t) [
  | some stored ↦ (t, err (device_already_exists d.id))
  | none ↦ (Map.insert d.id (fresh d) t, ok (fresh d).device)
]

unfoldable pub get : MemoryDeviceStore → Text → Option Device
get t device_id = elim (Map.get device_id t) [ none ↦ none | some stored ↦ some stored.device ]

unfoldable pub delete_device : MemoryDeviceStore → Text → MemoryDeviceStore × Bool
delete_device t device_id = (Map.remove device_id t, is_some (Map.get device_id t))

-- What `pre_register` stores for a device that is not there.
abbrev pub preregistered : Text → Text → Text → StoredDevice
preregistered device_id key user = record {
  device = record {
    id = device_id;
    public_key = some key;
    hostname = codes "pending-device";
    os = codes "unknown";
    capabilities = [];
    version = none;
    auth_method = codes "preregistered";
    online = false;
    external_user_id = some user;
  };
  last_signed_at_ms = 0;
}

abbrev pub adopted : StoredDevice → Text → Text → StoredDevice
adopted stored key user = record stored {
  device = record stored.device { public_key = some key; external_user_id = some user };
}

-- Whether a device is claimed by another user.
unfoldable pub other_owner : Option Text → Text → Option Text
other_owner none user = none
other_owner (some existing_user) user = if existing_user == user then none else some existing_user

unfoldable pub pre_register :
    MemoryDeviceStore → Text → Text → Text → ℕ → MemoryDeviceStore × Result (Device × ℕ)
unfolding other_owner
pre_register t device_id key user now = elim (Map.get device_id t) [
  | none ↦ (
    Map.insert device_id (preregistered device_id key user) t,
    ok ((preregistered device_id key user).device, now),
  )
  | some stored ↦ elim (other_owner stored.device.external_user_id user) [
    | some existing_user ↦ (t, err (device_owned_by_different_user device_id existing_user))
    | none ↦ (
      Map.insert device_id (adopted stored key user) t,
      ok ((adopted stored key user).device, now),
    )
  ]
]
