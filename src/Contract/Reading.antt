-- ===== src/Contract/Reading.antt =====
-- What a node reads of a contract's state, as an algod node reports it.
pub mod Fields
pub mod Channels
pub mod Values
pub mod Joining
use algorand_state_channels.Base.{
  ℕ, ◌≡◌, ◌≢◌, ◌⊎◌, inl, inr, Bool, true, false, Bytes, bytes_has_eq, codes, Option, none, some,
  List, [], ◌∷◌, All, ◌==◌, if◌then◌else◌,
}
use algorand_state_channels.Base.Base64.{base64_decode}
use algorand_state_channels.Server.State.{TealKeyValue}
use algorand_state_channels.Contract.State.{Channel}

-- The entries of the global state, by their keys.
unfoldable pub stored_bytes : Channel → Bytes → Option Bytes
stored_bytes ch key =
    if key == codes "alice_address"
    then some ch.alice_address
    else if key == codes "bob_address"
    then some ch.bob_address
    else if key == codes "closing_initiator"
    then ch.closing_initiator
    else none

unfoldable pub stored_uint : Channel → Bytes → Option ℕ
stored_uint ch key =
    if key == codes "penalty_reserve"
    then some ch.penalty_reserve
    else if key == codes "dispute_window"
    then some ch.dispute_window
    else if key == codes "timeout"
    then some ch.timeout
    else if key == codes "latest_alice_balance"
    then some ch.latest_alice_balance
    else if key == codes "latest_bob_balance"
    then some ch.latest_bob_balance
    else if key == codes "latest_timestamp"
    then some ch.latest_timestamp
    else if key == codes "total_deposit"
    then some ch.total_deposit
    else none

-- An entry of the state: its key and its bytes in base64, and its value.
pub record IsStored (ch : Channel) (kv : TealKeyValue) : Type 0 where
  pub key : Bytes
  pub decodes : base64_decode kv.key ≡ some key
  pub value :
      ((kv.value_type ≡ 1)
        × ((v : Bytes) × (base64_decode kv.value_bytes ≡ some v) × (stored_bytes ch key ≡ some v)))
      ⊎ ((kv.value_type ≡ 2) × (stored_uint ch key ≡ some kv.value_uint))

abbrev pub HasKey : Bytes → List TealKeyValue → Type 0
HasKey key [] = ⊥
HasKey key (kv ∷ rest) = (base64_decode kv.key ≡ some key) ⊎ HasKey key rest

-- A report of the state: entries of it, in any order, with all byte strings and all numbers but 0.
pub record Reports (ch : Channel) (global_state : List TealKeyValue) : Type 0 where
  pub entries : All (IsStored ch) global_state
  pub has_bytes : (key v : Bytes) → stored_bytes ch key ≡ some v → HasKey key global_state
  pub has_uint :
      (key : Bytes) (v : ℕ) → stored_uint ch key ≡ some v → v ≢ 0 → HasKey key global_state
