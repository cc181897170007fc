-- ===== src/Payment/Calls.antt =====
-- The transactions that payment/operation.go builds, signs and sends. The SDK's constructors,
-- group identifiers and signatures are not modelled: a `Submission` records what the program asks
-- the SDK to sign with which key and to send at once. The errors of these calls are printed by
-- the program and otherwise ignored, so that each function here returns just its submission.
pub mod Budget
use algorand_state_channels.Base.{
  ℕ, zero, suc, ◌+◌, ◌/◌, Option, some, none, Bytes, codes, List, [], ◌∷◌, ◌++◌,
}
use algorand_state_channels.Base.Base64.{base64_decode}
use algorand_state_channels.Base.Decimal.{format_uint}
use algorand_state_channels.Payment.Sdk.{Sdk, Account, Address}
use algorand_state_channels.Payment.Message.{uint64_to_bytes}

-- The transactions, by the constructor of the SDK that makes them.
pub data Txn : Type 0 where
  app_create : Bytes → Bytes → ℕ → ℕ → List Bytes → Address → Txn  -- MakeApplicationCreateTx
  app_no_op : ℕ → List Bytes → List Address → Address → Txn  -- MakeApplicationNoOpTx
  payment : Address → Address → ℕ → Txn  -- MakePaymentTxn

pub record Submission : Type 0 where
  pub signer : Bytes  -- the private key
  pub txns : List Txn  -- several transactions share a group identifier

-- What the program reads from the file system and from the algod node.
pub record Compiler : Type 0 where
  pub read_file : Bytes → Option Bytes
  pub teal_compile : Bytes → Option Bytes  -- the base64 text of the result

abbrev pub num_uints : ℕ
num_uints = 7

abbrev pub num_byte_slices : ℕ
num_byte_slices = 3

abbrev pub or_nil : Option Bytes → Bytes
or_nil none = []
or_nil (some b) = b

compiled : Compiler → Option Bytes → Option Bytes
compiled c none = none
compiled c (some file_content) = c.teal_compile file_content

decoded : Option Bytes → Option Bytes
decoded none = none
decoded (some text) = base64_decode text

-- CompileTeal, whose nil is the empty program
unfoldable pub compile_teal : Compiler → Bytes → Bytes
unfolding compiled decoded
compile_teal c path = or_nil (decoded (compiled c (c.read_file path)))

-- CompilePaymentPrograms
unfoldable pub compile_payment_programs : Compiler → Bytes × Bytes
unfolding compile_teal
compile_payment_programs c = (
  compile_teal c (codes "smart_contracts/payment_approval.teal"),
  compile_teal c (codes "smart_contracts/payment_clear_state.teal"),
)

-- CreatePaymentApp up to the identifier that the confirmed transaction carries
unfoldable pub create_payment_app : Sdk → Compiler → Account → Address → ℕ → ℕ → Submission
create_payment_app sdk c sender partner_algo_address penalty_reserve dispute_window =
    let (approval, clear) = compile_payment_programs c in
    record {
      signer = sender.private_key;
      txns =
          app_create approval clear num_uints num_byte_slices
            (sdk.decode_address partner_algo_address
              ∷ uint64_to_bytes penalty_reserve
              ∷ uint64_to_bytes dispute_window
              ∷ [])
            sender.address
          ∷ [];
    }

-- SetupPaymentApp
unfoldable pub setup_payment_app : Sdk → ℕ → Account → ℕ → Submission
setup_payment_app sdk app_id sender funding_amount = record {
  signer = sender.private_key;
  txns =
      payment sender.address (sdk.application_address app_id) funding_amount
      ∷ app_no_op app_id (codes "fund" ∷ []) [] sender.address
      ∷ [];
}

-- `math.Ceil(float64(targetAmount) / 700)`
unfoldable pub budget_transactions : ℕ → ℕ
budget_transactions target_amount = (target_amount + 699) / 700

-- The loop that appends transaction `i`, `i + 1`, …; `n` are left.
unfoldable pub budget_loop : ℕ → Address → ℕ → ℕ → List Txn
budget_loop app_id sender i zero = []
budget_loop app_id sender i (suc n) =
    app_no_op app_id (codes "increaseBudget" ∷ format_uint i ∷ []) [] sender
    ∷ budget_loop app_id sender (i + 1) n

-- IncreaseBudgetSignAndSendTransaction
unfoldable pub increase_budget : ℕ → Account → Txn → ℕ → Submission
increase_budget app_id sender main_transaction target_amount = record {
  signer = sender.private_key;
  txns = main_transaction ∷ budget_loop app_id sender.address 0 (budget_transactions target_amount);
}

-- The arguments of a call that carries a signed state.
unfoldable pub state_args : Bytes → ℕ → ℕ → ℕ → ℕ → Bytes → Bytes → List Bytes
state_args method port alice_balance bob_balance timestamp alice_signature bob_signature =
    method
    ∷ uint64_to_bytes port
    ∷ uint64_to_bytes alice_balance
    ∷ uint64_to_bytes bob_balance
    ∷ uint64_to_bytes timestamp
    ∷ alice_signature
    ∷ bob_signature
    ∷ []

-- InitiateCloseChannel
unfoldable pub initiate_close_channel : Account → ℕ → ℕ → ℕ → ℕ → ℕ → Bytes → Bytes → Submission
initiate_close_channel sender port app_id alice bob timestamp alice_signature bob_signature =
    increase_budget app_id sender
      (app_no_op app_id
        (state_args (codes "initiateChannelClosing") port alice bob timestamp alice_signature
          bob_signature)
        [] sender.address)
      3930

-- RaiseDispute
unfoldable pub raise_dispute : Account → ℕ → ℕ → ℕ → ℕ → ℕ → Bytes → Bytes → Submission
raise_dispute sender port app_id alice bob timestamp alice_signature bob_signature =
    increase_budget app_id sender
      (app_no_op app_id
        (state_args (codes "raiseDispute") port alice bob timestamp alice_signature bob_signature)
        [] sender.address)
      3930

-- FinalizeCloseChannel
unfoldable pub finalize_close_channel : Account → Address → ℕ → Submission
finalize_close_channel sender counterparty app_id = record {
  signer = sender.private_key;
  txns =
      app_no_op app_id (codes "finalizeChannelClosing" ∷ []) (sender.address ∷ counterparty ∷ [])
        sender.address
      ∷ [];
}

-- CooperativeCloseChannel
unfoldable pub cooperative_close_channel :
    Account → Address → ℕ → ℕ → ℕ → ℕ → ℕ → Bytes → Bytes → Submission
cooperative_close_channel sender counterparty port app_id alice bob timestamp alice_signature
      bob_signature =
    increase_budget app_id sender
      (app_no_op app_id
        (state_args (codes "cooperativeClose") port alice bob timestamp alice_signature
          bob_signature)
        (sender.address ∷ counterparty ∷ []) sender.address)
      3930
