-- ===== src/Contract/Rules.antt =====
-- What the contract promises its parties, without the code of its methods: which calls may change
-- the channel or pay from it, and how.
pub mod Methods
pub mod Closings
pub mod Disputes
pub mod Refinement
pub mod Deposits
use algorand_state_channels.Base.{
  ℕ, ◌+◌, ◌-◌, ◌<◌, ◌≤◌, ◌≡◌, ◌⊎◌, Bool, true, Bytes, codes, bytes_has_eq, Option, none, some, List,
  [], if◌then◌else◌, ◌==◌,
}
use algorand_state_channels.Contract.State.{Channel, Chain, Call, Payout, Preceding, btoi}
use algorand_state_channels.Contract.Program.{Signed, signed_args, state_hash, close_hash}
use algorand_state_channels.Contract.Agreement.{with_state, payouts_of}

-- The call carries a state with both signatures of a hash of it, whose balances make up the deposit.
pub record IsSigned (chain : Chain) (hash : Chain → Signed → Bytes) (c : Call) (ch : Channel)
    (alice bob timestamp : ℕ) : Type 0 where
  pub args : Signed
  pub given : signed_args c ≡ some args
  pub by_alice :
      chain.ed25519verify_bare (hash chain args) args.alice_signature ch.alice_address ≡ some true
  pub by_bob :
      chain.ed25519verify_bare (hash chain args) args.bob_signature ch.bob_address ≡ some true
  pub alice_is : btoi args.alice_balance ≡ some alice
  pub bob_is : btoi args.bob_balance ≡ some bob
  pub time_is : btoi args.timestamp ≡ some timestamp
  pub whole : alice + bob ≡ ch.total_deposit

-- The call is of a party of the channel.
abbrev pub OfParty : Call → Channel → Type 0
OfParty c ch = (c.sender ≡ ch.alice_address) ⊎ (c.sender ≡ ch.bob_address)

-- Both balances are enough for the fees of the two payments.
abbrev pub CoversFees : Chain → ℕ → ℕ → Type 0
CoversFees chain alice bob = (chain.min_txn_fee ≤ alice) × (chain.min_txn_fee ≤ bob)

-- The channel after a dispute with a state: who began to close it pays the reserve to the other.
abbrev pub punished : Bool → ℕ → ℕ → ℕ → Channel → Channel
punished by_alice alice bob timestamp ch =
    if by_alice
    then with_state (alice - ch.penalty_reserve) (bob + ch.penalty_reserve) timestamp ch
    else with_state (alice + ch.penalty_reserve) (bob - ch.penalty_reserve) timestamp ch

-- What a call may do to the channel, and which payments it may make.
pub data Allowed (chain : Chain) (c : Call) (ch : Channel) : Channel → List Payout → Type 0 where
  keeps : Allowed chain c ch ch []
  funds :
      (funding : Preceding)
      → c.preceding ≡ some funding
      → funding.payer ≡ ch.alice_address
      → funding.is_payment ≡ true
      → funding.receiver ≡ chain.application_address
      → ch.penalty_reserve + chain.min_txn_fee < funding.amount
      → Allowed chain c ch
          (record ch { latest_alice_balance = funding.amount; total_deposit = funding.amount })
          []
  starts :
      (alice bob timestamp : ℕ)
      → OfParty c ch
      → IsSigned chain state_hash c ch alice bob timestamp
      → Allowed chain c ch
          (with_state alice bob timestamp (record ch {
            closing_initiator =
                some (if c.sender == ch.alice_address then codes "alice" else codes "bob");
            timeout = chain.round + ch.dispute_window;
          }))
          []
  disputes :
      (alice bob timestamp : ℕ) (initiator : Bytes)
      → IsSigned chain close_hash c ch alice bob timestamp
      → ch.latest_timestamp < timestamp
      → ch.closing_initiator ≡ some initiator
      → ch.penalty_reserve ≤ (if initiator == codes "alice" then alice else bob)
      → Allowed chain c ch (punished (initiator == codes "alice") alice bob timestamp ch) []
  closes :
      (alice bob timestamp : ℕ)
      → OfParty c ch
      → ch.timeout ≡ 0
      → IsSigned chain close_hash c ch alice bob timestamp
      → CoversFees chain alice bob
      → Allowed chain c ch (with_state alice bob timestamp ch) (payouts_of chain alice bob ch)
  finalizes :
      ch.timeout < chain.round
      → CoversFees chain ch.latest_alice_balance ch.latest_bob_balance
      → Allowed chain c ch ch (payouts_of chain ch.latest_alice_balance ch.latest_bob_balance ch)
