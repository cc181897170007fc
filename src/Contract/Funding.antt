-- ===== src/Contract/Funding.antt =====
-- The calls of OpenChannel, as the contract runs them, and what a second funding does.
use mathlib.Core.Path.{subst}
use algorand_state_channels.Base.{
  ℕ, ◌+◌, ◌<◌, ◌≡◌, ◌≢◌, sym, ◌∙◌, true, Bytes, codes, bytes_eq, bytes_eq_iff, bytes_has_eq,
  nat_has_eq, nat_eq_iff, none, some, [], ◌∷◌, arith,
}
use algorand_state_channels.Base.Word.{IsWord}
use algorand_state_channels.Payment.Sdk.{Sdk, Account, Address}
use algorand_state_channels.Payment.Calls.{
  Compiler, create_payment_app, setup_payment_app, state_args, initiate_close_channel,
}
use algorand_state_channels.Contract.State.{Channel, Chain, Call, plus}
use algorand_state_channels.Contract.Program.{
  state_hash, is_agreed, on_create, on_funding, on_call, dispatch, program,
}
use algorand_state_channels.Contract.Group.{
  as_preceding, call_of, run_txn, run_txns, run_submission, run_creation,
}
use algorand_state_channels.Contract.Calls.{
  btoi-uint64_to_bytes, signed_of, signed_args-state_args, run_submission-increase_budget,
  run_txn-dispatch,
}
use algorand_state_channels.Contract.Disputes.{IsIgnored, on_initiate_closing-IsIgnored}

-- The contract as CreatePaymentApp makes it.
abbrev pub created_channel : Sdk → Account → Address → ℕ → ℕ → Channel
created_channel sdk sender partner penalty_reserve dispute_window = record {
  alice_address = sdk.decode_address sender.address;
  bob_address = sdk.decode_address partner;
  penalty_reserve = penalty_reserve;
  dispute_window = dispute_window;
  timeout = 0;
  closing_initiator = none;
  latest_alice_balance = 0;
  latest_bob_balance = 0;
  latest_timestamp = 0;
  total_deposit = 0;
}

pub create_payment_app_runs :
    (sdk : Sdk) (chain : Chain) (compiler : Compiler) (sender : Account) (partner : Address)
    (penalty window : ℕ)
    → IsWord penalty
    → IsWord window
    → run_creation sdk chain (create_payment_app sdk compiler sender partner penalty window)
      ≡ some (created_channel sdk sender partner penalty window, [])
unfolding run_creation create_payment_app program on_create
create_payment_app_runs sdk chain compiler sender partner penalty window hp hw =
    ground (arith, btoi-uint64_to_bytes penalty hp, btoi-uint64_to_bytes window hw)

module _ (sdk : Sdk) (chain : Chain) (sender : Account) (amount : ℕ) (ch : Channel)
    (at_address : chain.application_address
      ≡ sdk.decode_address (sdk.application_address chain.application_id))
    (is_alice : ch.alice_address ≡ sdk.decode_address sender.address)
    (enough : ch.penalty_reserve + chain.min_txn_fee < amount) (amount_word : IsWord amount) where
  -- The channel after a funding: it does not matter what it held before.
  abbrev funded : Channel
  funded = record ch { latest_alice_balance = amount; total_deposit = amount }

  abbrev funding_call : Call
  funding_call = record {
    sender = sdk.decode_address sender.address;
    args = codes "fund" ∷ [];
    preceding = some (record {
      payer = sdk.decode_address sender.address;
      is_payment = true;
      amount = amount;
      receiver = sdk.decode_address (sdk.application_address chain.application_id);
    });
  }

  on_funding_runs : on_funding chain funding_call ch ≡ some funded
  unfolding on_funding plus
  on_funding_runs = ground (
    arith,
    at_address,
    is_alice,
    enough,
    amount_word,
    bytes_eq_iff (sdk.decode_address sender.address) (sdk.decode_address sender.address),
    bytes_eq_iff (sdk.decode_address sender.address) ch.alice_address,
    bytes_eq_iff (sdk.decode_address (sdk.application_address chain.application_id))
        chain.application_address,
  )

  pub setup_payment_app_runs :
      run_submission sdk chain (setup_payment_app sdk chain.application_id sender amount) ch
      ≡ some (funded, [])
  unfolding run_submission run_txns run_txn setup_payment_app as_preceding call_of program on_call
      dispatch bytes_eq
  setup_payment_app_runs =
      ground (arith, nat_eq_iff chain.application_id chain.application_id, on_funding_runs)

  -- A state with another sum than the deposit is not agreed to, whoever signed it.
  is_agreed-ne_sum :
      (hash : Bytes) (alice bob timestamp : ℕ) (sa sb : Bytes)
      → IsWord alice
      → IsWord bob
      → alice + bob ≢ amount
      → is_agreed chain hash (signed_of 4161 alice bob timestamp sa sb) funded ≢ some true
  unfolding is_agreed plus
  is_agreed-ne_sum hash alice bob timestamp sa sb ha hb other e = ground (
    arith,
    other,
    btoi-uint64_to_bytes alice ha,
    btoi-uint64_to_bytes bob hb,
    nat_eq_iff (alice + bob) amount,
  )

  -- Alice can fund the channel again at any time, with a uint64 amount above the penalty reserve
  -- and a fee. The deposit is then that amount alone, and the contract ignores every closing with
  -- uint64 balances of another sum, whoever has signed it: the call fails, or it changes and pays
  -- nothing.
  pub second_funding_blocks :
      (account : Account) (alice bob timestamp : ℕ) (sa sb : Bytes)
      → IsWord alice
      → IsWord bob
      → alice + bob ≢ amount
      → (run_submission sdk chain (setup_payment_app sdk chain.application_id sender amount) ch
          ≡ some (funded, []))
        × IsIgnored
            (run_submission sdk chain
              (initiate_close_channel account 4161 chain.application_id alice bob timestamp sa sb)
              funded)
            funded
  unfolding initiate_close_channel dispatch bytes_eq state_args
  second_funding_blocks account alice bob timestamp sa sb ha hb other =
      let method = codes "initiateChannelClosing" in
      let signer = sdk.decode_address account.address in
      let signed = signed_of 4161 alice bob timestamp sa sb in
      let runs =
        run_submission-increase_budget sdk chain chain.application_id account _ 3930 funded
        ∙ run_txn-dispatch sdk chain method _ [] account.address funded in
      (
        setup_payment_app_runs,
        subst (λ r. IsIgnored r funded) (sym runs)
            (on_initiate_closing-IsIgnored chain _ signed funded
              (signed_args-state_args signer method 4161 alice bob timestamp sa sb none)
              (is_agreed-ne_sum (state_hash chain signed) alice bob timestamp sa sb ha hb other)),
      )
