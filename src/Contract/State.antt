-- ===== src/Contract/State.antt =====
-- What the approval program of payment/payment_contract.py reads and writes.
use algorand_state_channels.Base.{
  ℕ, ◌+◌, ◌-◌, Bool, true, false, Bytes, Option, none, some, List, ltb, length, get_elem?,
  if◌then◌else◌,
}
use algorand_state_channels.Base.Word.{word_mod}
use algorand_state_channels.Base.BigEndian.{from_bytes}

-- The global state. A number that is not set reads as 0; `closing_initiator` may not be set.
-- Addresses are public keys here, as on the chain.
pub record Channel : Type 0 where
  pub alice_address : Bytes
  pub bob_address : Bytes
  pub penalty_reserve : ℕ
  pub dispute_window : ℕ
  pub timeout : ℕ
  pub closing_initiator : Option Bytes
  pub latest_alice_balance : ℕ
  pub latest_bob_balance : ℕ
  pub latest_timestamp : ℕ
  pub total_deposit : ℕ

-- The transaction before the call in its group, as far as the program looks at it.
pub record Preceding : Type 0 where
  pub payer : Bytes
  pub is_payment : Bool
  pub amount : ℕ
  pub receiver : Bytes

-- What the program reads of the chain: its hash and signature check, which fails on a key or
-- signature of the wrong length, and the global fields.
pub record Chain : Type 0 where
  pub sha3_256 : Bytes → Bytes
  pub ed25519verify_bare : Bytes → Bytes → Bytes → Option Bool  -- data, signature, key
  pub min_txn_fee : ℕ
  pub round : ℕ
  pub application_id : ℕ
  pub application_address : Bytes

pub record Call : Type 0 where
  pub sender : Bytes
  pub args : List Bytes
  pub preceding : Option Preceding

-- A payment that the program makes.
pub record Payout : Type 0 where
  pub receiver : Bytes
  pub amount : ℕ
  pub close_remainder_to : Option Bytes

-- The program ends with Approve, in a state and with payments, or the transaction fails.
abbrev pub Run : Type 0 → Type 0
Run A = Option A

infixl 5 ◌>>=◌
abbrev pub ◌>>=◌ : {A B : Type 0} (m : Run A) (k : A → Run B) → Run B
none >>= k = none
some a >>= k = k a

infixl 5 ◌>>◌
abbrev pub ◌>>◌ : {B : Type 0} (m : Run (Unit {0})) (k : Run B) → Run B
m >> k = m >>= λ _. k

-- `Assert`
abbrev pub assert : Bool → Run (Unit {0})
assert true = some tt
assert false = none

-- `+` and `-`, which fail outside of uint64.
unfoldable pub plus : ℕ → ℕ → Run ℕ
plus a b = if ltb (a + b) word_mod then some (a + b) else none

unfoldable pub minus : ℕ → ℕ → Run ℕ
minus a b = if ltb a b then none else some (a - b)

-- `Btoi`, of at most eight bytes.
unfoldable pub btoi : Bytes → Run ℕ
btoi b = if ltb 8 (length b) then none else some (from_bytes 0 b)

-- `Txn.application_args[i]`
abbrev pub application_arg : Call → ℕ → Run Bytes
application_arg c i = get_elem? c.args i
