-- ===== src/Devices/Steps.antt =====
-- Sequences of operations on the device store, and what one operation may change of a device.
use a_hand.Base.{
  ℕ, ◌≤◌, ◌≡◌, refl, Bool, true, false, List, [], ◌∷◌, none, some, arith, leb, ◌==◌, Option-cases,
  Bool-cases, eq_cases, inl, inr,
}
use a_hand.Base.Text.{Text, text_eq, text_beq_iff}
use a_hand.Base.Map
use a_hand.Devices.{
  NewDevice, StoredDevice, Hello, VerifiedDeviceHello, MemoryDeviceStore, claim_key, greeted, keyed,
  with_online, fresh, preregistered, adopted, other_owner, accept_verified_hello, mark_online,
  mark_offline, insert, delete_device, pre_register,
}

pub data Op : Type 0 where
  inserts : NewDevice → Op
  pre_registers : Text → Text → Text → ℕ → Op
  greets : Text → Hello → VerifiedDeviceHello → Op
  goes_online : Text → Op
  goes_offline : Text → Op
  deletes : Text → Op

unfoldable pub step : MemoryDeviceStore → Op → MemoryDeviceStore
step t (inserts d) = (insert t d).0
step t (pre_registers device_id key user now) = (pre_register t device_id key user now).0
step t (greets device_id hello verified) = (accept_verified_hello t device_id hello verified).0
step t (goes_online device_id) = (mark_online t device_id).0
step t (goes_offline device_id) = (mark_offline t device_id).0
step t (deletes device_id) = (delete_device t device_id).0

unfoldable pub run : MemoryDeviceStore → List Op → MemoryDeviceStore
run t [] = t
run t (o ∷ os) = run (step t o) os

-- Whether one of the operations deletes the device.
abbrev pub is_deletion : Text → Op → Bool
is_deletion id (deletes device_id) = device_id == id
is_deletion id (inserts d) = false
is_deletion id (pre_registers device_id key user now) = false
is_deletion id (greets device_id hello verified) = false
is_deletion id (goes_online device_id) = false
is_deletion id (goes_offline device_id) = false

-- The time of the last signature does not fall, an owner stays, and a key stays a key.
pub record Follows (s s' : StoredDevice) : Type 0 where
  pub rises : s.last_signed_at_ms ≤ s'.last_signed_at_ms
  pub owned :
      (user : Text) → s.device.external_user_id ≡ some user → s'.device.external_user_id ≡ some user

pub Follows-refl : (s : StoredDevice) → Follows s s
Follows-refl s = record { rises = omega arith; owned = λ user h. h }

pub Follows-trans : (a b c : StoredDevice) → Follows a b → Follows b c → Follows a c
Follows-trans a b c f g = record {
  rises = omega (arith, f.rises, g.rises);
  owned = λ user h. g.owned user (f.owned user h);
}

Follows-of : (a b c : StoredDevice) → a ≡ b → Follows b c → Follows a c
Follows-of a b c p f = rw p f

abbrev pub Kept : Text → StoredDevice → MemoryDeviceStore → Type 0
Kept id s t = (s' : StoredDevice) × (Map.get id t ≡ some s') × Follows s s'

insert-Kept :
    (t : MemoryDeviceStore) (k id : Text) (old new s : StoredDevice)
    → Map.get k t ≡ some old
    → Follows old new
    → Map.get id t ≡ some s
    → Kept id s (Map.insert k new t)
insert-Kept t k id old new s h f g = elim (eq_cases k id) [
  | inl (b, e) ↦ (
    new,
    rw (Map.get-insert k id new t, b) refl,
    Follows-of s old new (ground (arith, e, g, h)) f,
  )
  | inr (b, e) ↦ (s, rw (Map.get-insert k id new t, b) g, Follows-refl s)
]

insert_new-Kept :
    (t : MemoryDeviceStore) (k id : Text) (new s : StoredDevice)
    → Map.get k t ≡ none
    → Map.get id t ≡ some s
    → Kept id s (Map.insert k new t)
insert_new-Kept t k id new s h g = elim (eq_cases k id) [
  | inl (b, e) ↦ ground (arith, h, g, e)
  | inr (b, e) ↦ (s, rw (Map.get-insert k id new t, b) g, Follows-refl s)
]

greeted-Follows :
    (s : StoredDevice) (key : Text) (hello : Hello) (v : VerifiedDeviceHello)
    → leb v.signed_at_ms s.last_signed_at_ms ≡ false
    → Follows s (greeted s key hello v)
greeted-Follows s key hello v h = record { rises = ground arith; owned = λ user o. o }

adopted-Follows :
    (s : StoredDevice) (key user : Text)
    → other_owner s.device.external_user_id user ≡ none
    → Follows s (adopted s key user)
unfolding other_owner
adopted-Follows s key user h = record {
  rises = omega arith;
  owned = λ u o. elim (Option-cases s.device.external_user_id) [
    | inl e ↦ ground (arith, e, o)
    | inr (x, e) ↦ ground (arith, e, o, h, text_beq_iff x user)
  ];
}

accept-Kept :
    (t : MemoryDeviceStore) (k id : Text) (hello : Hello) (v : VerifiedDeviceHello)
    (s : StoredDevice)
    → Map.get id t ≡ some s
    → Kept id s (accept_verified_hello t k hello v).0
unfolding accept_verified_hello
accept-Kept t k id hello v s g = elim (Option-cases (Map.get k t)) [
  | inl e ↦ rw (e, accept_verified_hello) (s, g, Follows-refl s)
  | inr (old, e) ↦
      elim (Option-cases (claim_key v.allow_registration old.device.public_key v.public_key)) [
        | inl c ↦ rw (e, c, accept_verified_hello) (s, g, Follows-refl s)
        | inr (key, c) ↦ elim (Bool-cases (leb v.signed_at_ms old.last_signed_at_ms)) [
          | inl b ↦
              rw (e, c, b, accept_verified_hello)
                (insert-Kept t k id old (keyed old key) s e
                  (record { rises = omega arith; owned = λ user o. o }) g)
          | inr b ↦
              rw (e, c, b, accept_verified_hello)
                (insert-Kept t k id old (greeted old key hello v) s e
                  (greeted-Follows old key hello v b) g)
        ]
      ]
]

pre_register-Kept :
    (t : MemoryDeviceStore) (k id key user : Text) (now : ℕ) (s : StoredDevice)
    → Map.get id t ≡ some s
    → Kept id s (pre_register t k key user now).0
unfolding pre_register
pre_register-Kept t k id key user now s g = elim (Option-cases (Map.get k t)) [
  | inl e ↦ rw (e, pre_register) (insert_new-Kept t k id (preregistered k key user) s e g)
  | inr (old, e) ↦ elim (Option-cases (other_owner old.device.external_user_id user)) [
    | inl c ↦
        rw (e, c, pre_register)
          (insert-Kept t k id old (adopted old key user) s e (adopted-Follows old key user c) g)
    | inr (x, c) ↦ rw (e, c, pre_register) (s, g, Follows-refl s)
  ]
]

pub step-Kept :
    (t : MemoryDeviceStore) (o : Op) (id : Text) (s : StoredDevice)
    → is_deletion id o ≡ false
    → Map.get id t ≡ some s
    → Kept id s (step t o)
unfolding step insert mark_online mark_offline delete_device
step-Kept t (greets k hello v) id s d g = accept-Kept t k id hello v s g
step-Kept t (pre_registers k key user now) id s d g = pre_register-Kept t k id key user now s g
step-Kept t (inserts n) id s d g = elim (Option-cases (Map.get n.id t)) [
  | inl e ↦ rw (e, step, insert) (insert_new-Kept t n.id id (fresh n) s e g)
  | inr (old, e) ↦ rw (e, step, insert) (s, g, Follows-refl s)
]
step-Kept t (goes_online k) id s d g = elim (Option-cases (Map.get k t)) [
  | inl e ↦ rw (e, step, mark_online) (s, g, Follows-refl s)
  | inr (old, e) ↦
      rw (e, step, mark_online)
        (insert-Kept t k id old (with_online true old) s e
          (record { rises = omega arith; owned = λ user o. o }) g)
]
step-Kept t (goes_offline k) id s d g = elim (Option-cases (Map.get k t)) [
  | inl e ↦ rw (e, step, mark_offline) (s, g, Follows-refl s)
  | inr (old, e) ↦
      rw (e, step, mark_offline)
        (insert-Kept t k id old (with_online false old) s e
          (record { rises = omega arith; owned = λ user o. o }) g)
]
step-Kept t (deletes k) id s d g = (s, rw (step, Map.get-remove k id t, d) g, Follows-refl s)
