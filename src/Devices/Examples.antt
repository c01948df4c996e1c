-- ===== src/Devices/Examples.antt =====
-- A registered device that says hello.
use a_hand.Base.{ℕ, ◌≡◌, refl, false, List, [], ◌∷◌, arith}
use a_hand.Base.Text.{codes}
use a_hand.Base.Map
use a_hand.Hub.{err, unauthorized, device_owned_by_different_user}
use a_hand.Devices.{
  Hello, VerifiedDeviceHello, MemoryDeviceStore, StoredDevice, claim_key, greeted, preregistered,
  accept_verified_hello, pre_register,
}
use a_hand.Devices.Steps.{Op, greets, goes_online, goes_offline, deletes, run}
use a_hand.Devices.History.{accept_verified_hello-run, pre_register-run}

abbrev hello : Hello
hello = record {
  hostname = codes "host";
  os = codes "linux";
  capabilities = [];
  version = codes "1";
}

abbrev signed_at : ℕ → VerifiedDeviceHello
signed_at ms = record {
  public_key = codes "key";
  signed_at_ms = ms;
  allow_registration = false;
  auth_method = codes "ed25519";
}

abbrev device : StoredDevice
device = preregistered (codes "d1") (codes "key") (codes "u1")

abbrev store : MemoryDeviceStore
store = (codes "d1", device) ∷ []

abbrev ops : List Op
ops =
    goes_online (codes "d1")
    ∷ deletes (codes "d2")
    ∷ goes_offline (codes "d1")
    ∷ greets (codes "d1") hello (signed_at 9)
    ∷ []

accept_verified_hello-run_example :
    (accept_verified_hello
      (run (accept_verified_hello store (codes "d1") hello (signed_at 5)).0 ops)
      (codes "d1")
      hello
      (signed_at 5)).1
    ≡ err unauthorized
unfolding accept_verified_hello claim_key Map.get
accept_verified_hello-run_example =
    accept_verified_hello-run store ops (codes "d1") hello hello (signed_at 5) (signed_at 5)
      (greeted device (codes "key") hello (signed_at 5)).device refl refl (omega arith)

pre_register-run_example :
    pre_register (run store ops) (codes "d1") (codes "other") (codes "u2") 3
    ≡ (run store ops, err (device_owned_by_different_user (codes "d1") (codes "u1")))
unfolding Map.get
pre_register-run_example =
    pre_register-run store ops (codes "d1") (codes "u1") (codes "u2") (codes "other") 3 device refl
      refl refl refl
