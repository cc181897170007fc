-- ===== src/Contract/Group.antt =====
-- Groups of transactions against the contract: what payment/operation.go sends, run in order by
-- the approval program.
use algorand_state_channels.Base.{
  true, false, Bytes, nat_has_eq, Option, none, some, List, [], ◌∷◌, ◌++◌, ◌==◌, if◌then◌else◌,
}
use algorand_state_channels.Payment.Sdk.{Sdk, Address}
use algorand_state_channels.Payment.Calls.{Txn, app_create, app_no_op, payment, Submission}
use algorand_state_channels.Contract.State.{Channel, Preceding, Chain, Call, Payout, Run, ◌>>=◌}
use algorand_state_channels.Contract.Program.{no_op, program}

module _ (sdk : Sdk) (chain : Chain) where
  -- A transaction as the next one of its group sees it.
  unfoldable pub as_preceding : Txn → Preceding
  as_preceding (payment sender receiver amount) = record {
    payer = sdk.decode_address sender;
    is_payment = true;
    amount = amount;
    receiver = sdk.decode_address receiver;
  }
  as_preceding (app_no_op _ _ _ sender) = record {
    payer = sdk.decode_address sender;
    is_payment = false;
    amount = 0;
    receiver = [];
  }
  as_preceding (app_create _ _ _ _ _ sender) = record {
    payer = sdk.decode_address sender;
    is_payment = false;
    amount = 0;
    receiver = [];
  }

  unfoldable pub call_of : List Bytes → Address → Option Preceding → Call
  call_of args sender preceding = record {
    sender = sdk.decode_address sender;
    args = args;
    preceding = preceding;
  }

  -- One transaction of a group on the channel. Those that are not calls of it leave it alone.
  unfoldable pub run_txn : Option Preceding → Txn → Channel → Run (Channel × List Payout)
  unfolding call_of
  run_txn preceding (app_no_op app_id args accounts sender) ch =
      if app_id == chain.application_id
      then program chain no_op (call_of args sender preceding) (some ch)
      else some (ch, [])
  run_txn preceding _ ch = some (ch, [])

  -- A group: it fails as a whole if one of its calls does.
  unfoldable pub run_txns : Option Preceding → List Txn → Channel → Run (Channel × List Payout)
  unfolding run_txn as_preceding
  run_txns preceding [] ch = some (ch, [])
  run_txns preceding (t ∷ rest) ch = run_txn preceding t ch >>= λ first.
      run_txns (some (as_preceding t)) rest first.0 >>= λ last. some (last.0, first.1 ++ last.1)

  -- A submission that calls the channel's application.
  unfoldable pub run_submission : Submission → Channel → Run (Channel × List Payout)
  unfolding run_txns
  run_submission s ch = run_txns none s.txns ch

  -- A submission that creates the application.
  unfoldable pub run_creation : Submission → Run (Channel × List Payout)
  unfolding call_of
  run_creation s = elim s.txns [
    | app_create _ _ _ _ args sender ∷ [] ↦ program chain no_op (call_of args sender none) none
    | _ ↦ none
  ]
