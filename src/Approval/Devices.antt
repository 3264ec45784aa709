-- ===== src/Approval/Devices.antt =====
-- src/whatsvault/approval/devices.py: enrolment, revocation, and the keys of an active device.
use whatsvault.Base.{
  ℕ, String, ◌≡◌, refl, Bool, ◌&&◌, Option, none, some, List, [], ◌∷◌, ◌++◌, arith,
}
use whatsvault.Base.Eq.{if◌then◌else◌, ◌==◌, string_eq}
use whatsvault.Base.Table.{find, update, any}
use whatsvault.Base.Conn.{Conn, write, commit}
use whatsvault.Base.Bytes.{Bytes, codes}
use whatsvault.Crypto.{Crypto, verify}
use whatsvault.Approval.Canonical.{frame, ◌>>=◌}
use whatsvault.Approval.Schema.{
  Device, DeviceStatus, is_active, ApprovalDb, integrity_error, overflow_error, Result, ok, raised,
}

unfoldable pub enrol_domain : Bytes
enrol_domain = codes "WHATSVAULT-ENROL-V1\n"

-- The loop of `_binding`: a part of 2^32 bytes or more raises `OverflowError`, here `none`.
unfoldable pub parts_bytes : List Bytes → Option Bytes
unfolding frame
parts_bytes [] = some []
parts_bytes (p ∷ ps) = do framed ← frame p; rest ← parts_bytes ps; some (framed ++ rest)

unfoldable pub binding : Crypto → String → Bytes → Bytes → Bytes → Option Bytes
unfolding parts_bytes enrol_domain
binding k pairing_id challenge signing_pub agreement_pub = do
  parts ← parts_bytes (k.utf8 pairing_id ∷ challenge ∷ signing_pub ∷ agreement_pub ∷ [])
  some (enrol_domain ++ parts)

unfoldable pub verify_enrolment : Crypto → String → Bytes → Bytes → Bytes → Bytes → Result Bool
unfolding binding
verify_enrolment k pairing_id challenge signing_pub agreement_pub signature =
    elim (binding k pairing_id challenge signing_pub agreement_pub) [
      | none ↦ raised overflow_error
      | some payload ↦ ok (verify k payload signature signing_pub)
    ]

abbrev with_id : String → Device → Bool
with_id i d = d.id == i

-- `enroll`, with the identifier that `ids.new_id("dev")` returns. A key that is taken raises.
unfoldable pub enroll :
    String → String → Bytes → Bytes → Option ℕ → Conn ApprovalDb → Result String × Conn ApprovalDb
enroll did name signing_pub agreement_pub now_ms c =
    if any (with_id did) c.work.devices
    then (raised integrity_error, c)
    else let row : Device = record {
      id = did;
      name = name;
      public_key = signing_pub;
      agreement_public_key = some agreement_pub;
      created_at_ms = now_ms;
      status = DeviceStatus.active;
    } in
      (ok did, commit (write (record c.work { devices = c.work.devices ++ row ∷ [] }) c))

unfoldable pub revoke : String → Conn ApprovalDb → Conn ApprovalDb
revoke device_id c = commit (
    write
      (record c.work {
        devices =
            update (with_id device_id) (λ d. record d { status = DeviceStatus.revoked })
              c.work.devices;
      })
      c)

unfoldable pub active_row : ApprovalDb → String → Option Device
active_row db device_id = find (λ d. d.id == device_id && is_active d.status) db.devices

unfoldable pub active_signing_key : ApprovalDb → String → Option Bytes
unfolding active_row
active_signing_key db device_id = elim (active_row db device_id) [
  | none ↦ none
  | some d ↦ some d.public_key
]

unfoldable pub active_agreement_key : ApprovalDb → String → Option Bytes
unfolding active_row
active_agreement_key db device_id = elim (active_row db device_id) [
  | none ↦ none
  | some d ↦ d.agreement_public_key
]

revoked_inactive :
    (i : String) (ds : List Device)
    → find
        (λ d. d.id == i && is_active d.status)
        (update (with_id i) (λ d. record d { status = DeviceStatus.revoked }) ds)
      ≡ none
revoked_inactive i [] = refl
revoked_inactive i (d ∷ ds) = ground (arith, revoked_inactive i ds)

-- After `revoke` the device has no active key of either kind, and what was done is committed.
pub revoke-no_keys :
    (i : String) (c : Conn ApprovalDb)
    → (active_signing_key (revoke i c).work i ≡ none)
      × (active_agreement_key (revoke i c).work i ≡ none)
      × ((revoke i c).saved ≡ (revoke i c).work)
unfolding revoke active_signing_key active_agreement_key
revoke-no_keys i c = (
  ground (arith, revoked_inactive i c.work.devices),
  ground (arith, revoked_inactive i c.work.devices),
  refl,
)
