-- ===== src/Payment/Sdk.antt =====
-- What the program takes from packages that are not part of the repository: the hash and the
-- signatures (golang.org/x/crypto) and the address codec (go-algorand-sdk/types and crypto).
use algorand_state_channels.Base.{ℕ, Bytes, Bool, Option, some, true, ◌≡◌, ◌≢◌, none}

-- An Algorand address in its text form.
abbrev pub Address : Type 0
Address = Bytes

pub record Sdk : Type 0 where
  pub sum256 : Bytes → Bytes  -- sha3.Sum256
  pub sign : Bytes → Bytes → Option Bytes  -- ed25519.Sign (private key, message); nil is `none`
  pub verify : Bytes → Bytes → Bytes → Bool  -- ed25519.Verify (public key, message, signature)
  -- types.DecodeAddress: the 32 bytes, which the program uses also where an error comes with them
  pub decode_address : Address → Bytes
  pub encode_address : Bytes → Option Address  -- types.EncodeAddress, `none` on an error
  pub application_address : ℕ → Address  -- crypto.GetApplicationAddress

-- crypto.Account
pub record Account : Type 0 where
  pub address : Address
  pub private_key : Bytes

-- The documented behaviour of ed25519 for an account: its address holds the public key of its
-- private key, so that what it signs is verified, and signing gives a signature.
pub record IsKeyPair (sdk : Sdk) (a : Account) : Type 0 where
  pub verifies :
      (m s : Bytes)
      → sdk.sign a.private_key m ≡ some s
      → sdk.verify (sdk.decode_address a.address) m s ≡ true
  pub signs : (m : Bytes) → sdk.sign a.private_key m ≢ none
