-- ===== src/Crypto.antt =====
-- What the program takes from Python's runtime and from the `cryptography` package, and
-- src/whatsvault/approval/verify.py, which stands on it.
use whatsvault.Base.{ℕ, String, Bool, false, Option}
use whatsvault.Base.Eq.{if◌then◌else◌, ◌==◌, nat_eq}
use whatsvault.Base.Table.{length}
use whatsvault.Base.Bytes.{Bytes, take, drop, be_value}

-- The operations that no file of the repository defines.
pub record Crypto : Type 0 where
  -- `s.encode("utf-8")`, and `b.decode("utf-8")`, which fails on what is not UTF-8
  pub utf8 : String → Bytes
  pub decode_utf8 : Bytes → Option String
  pub sha256 : Bytes → Bytes
  -- `b.hex()`
  pub hex : Bytes → String
  -- `pub.verify(der(r, s), payload, ECDSA(SHA256()))`: false where it raises `InvalidSignature`,
  -- or where the point is malformed and it raises `ValueError`
  pub ecdsa_verify : Bytes → ℕ → ℕ → Bytes → Bool

-- verify.verify
unfoldable pub verify : Crypto → Bytes → Bytes → Bytes → Bool
unfolding be_value
verify k payload signature public_key =
    if length signature == 64
    then k.ecdsa_verify public_key (be_value (take 32 signature)) (be_value (drop 32 signature))
        payload
    else false
