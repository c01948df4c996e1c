-- ===== src/Devices/History.antt =====
-- What lasts about a device over any sequence of operations that does not delete it.
use a_hand.Base.{
  ℕ, ◌≤◌, ◌≡◌, refl, false, List, [], ◌∷◌, some, arith, leb, ◌==◌, any, Option-cases, Bool-cases,
  inl, inr,
}
use a_hand.Base.Text.{Text, text_eq}
use a_hand.Base.Map
use a_hand.Hub.{ok, err, unauthorized, device_owned_by_different_user}
use a_hand.Devices.{
  Device, StoredDevice, Hello, VerifiedDeviceHello, MemoryDeviceStore, claim_key, greeted,
  other_owner, accept_verified_hello, pre_register,
}
use a_hand.Devices.Steps.{Op, run, step, is_deletion, Kept, Follows-refl, Follows-trans, step-Kept}

run-Kept :
    (t : MemoryDeviceStore) (os : List Op) (id : Text) (s : StoredDevice)
    → any (is_deletion id) os ≡ false
    → Map.get id t ≡ some s
    → Kept id s (run t os)
unfolding run
run-Kept t [] id s d g = (s, g, Follows-refl s)
run-Kept t (o ∷ os) id s d g =
    let (a, ha, fa) = step-Kept t o id s (ground (arith, d)) g in
    let (b, hb, fb) = run-Kept (step t o) os id a (ground (arith, d)) ha in
    (b, hb, Follows-trans s a b fa fb)

refused :
    (t : MemoryDeviceStore) (id : Text) (hello : Hello) (v : VerifiedDeviceHello) (s : StoredDevice)
    → Map.get id t ≡ some s
    → v.signed_at_ms ≤ s.last_signed_at_ms
    → (accept_verified_hello t id hello v).1 ≡ err unauthorized
unfolding accept_verified_hello
refused t id hello v s g h =
    elim (Option-cases (claim_key v.allow_registration s.device.public_key v.public_key)) [
      | inl c ↦ rw (g, c, accept_verified_hello) refl
      | inr (key, c) ↦ rw (g, c, accept_verified_hello) (ground (arith, h))
    ]

accepted :
    (t : MemoryDeviceStore) (id : Text) (hello : Hello) (v : VerifiedDeviceHello) (device : Device)
    → (accept_verified_hello t id hello v).1 ≡ ok device
    → (s : StoredDevice) × (Map.get id (accept_verified_hello t id hello v).0 ≡ some s)
      × (s.last_signed_at_ms ≡ v.signed_at_ms)
unfolding accept_verified_hello
accepted t id hello v device h = elim (Option-cases (Map.get id t)) [
  | inl e ↦ ground (arith, e, h)
  | inr (old, e) ↦
      elim (Option-cases (claim_key v.allow_registration old.device.public_key v.public_key)) [
        | inl c ↦ ground (arith, e, c, h)
        | inr (key, c) ↦ elim (Bool-cases (leb v.signed_at_ms old.last_signed_at_ms)) [
          | inl b ↦ ground (arith, e, c, b, h)
          | inr b ↦ (
            greeted old key hello v,
            rw (e, c, b, accept_verified_hello)
                (Map.get-insert_self id (greeted old key hello v) t),
            refl,
          )
        ]
      ]
]

-- Once a hello of a device is accepted, no hello signed at the same time or before is accepted
-- for it again, whatever happens in between but its deletion.
pub accept_verified_hello-run :
    (t : MemoryDeviceStore) (os : List Op) (id : Text) (hello again : Hello)
    (v old : VerifiedDeviceHello) (device : Device)
    → (accept_verified_hello t id hello v).1 ≡ ok device
    → any (is_deletion id) os ≡ false
    → old.signed_at_ms ≤ v.signed_at_ms
    → (accept_verified_hello (run (accept_verified_hello t id hello v).0 os) id again old).1
      ≡ err unauthorized
accept_verified_hello-run t os id hello again v old device h d l =
    let (s, g, e) = accepted t id hello v device h in
    let (b, hb, f) = run-Kept (accept_verified_hello t id hello v).0 os id s d g in
    refused (run (accept_verified_hello t id hello v).0 os) id again old b hb
      (omega (arith, f.rises, e, l))

-- A device that a user owns stays owned by that user, whatever happens but its deletion, so that
-- registering it for any other user is refused with the owner's name.
pub pre_register-run :
    (t : MemoryDeviceStore) (os : List Op) (id owner other key : Text) (now : ℕ) (s : StoredDevice)
    → Map.get id t ≡ some s
    → s.device.external_user_id ≡ some owner
    → any (is_deletion id) os ≡ false
    → (owner == other) ≡ false
    → pre_register (run t os) id key other now
      ≡ (run t os, err (device_owned_by_different_user id owner))
unfolding pre_register other_owner
pre_register-run t os id owner other key now s g o d n =
    let (b, hb, f) = run-Kept t os id s d g in rw (pre_register, hb, f.owned owner o, n) refl
