-- ===== src/Tests/Contracts.antt =====
-- A contract from its creation to its payments.
use algorand_state_channels.Base.{
  ◌≡◌, inl, inr, refl, true, codes, bytes_eq, bytes_has_eq, nat_has_eq, none, some, ◌++◌, List, [],
  ◌∷◌, ◌⊎◌, arith,
}
use algorand_state_channels.Base.Decimal.{format_uint, emit}
use algorand_state_channels.Base.BigEndian.{put_uint64, from_bytes}
use algorand_state_channels.Payment.Message.{state_message, signed_fields, uint64_to_bytes}
use algorand_state_channels.Payment.Calls.{
  setup_payment_app, initiate_close_channel, finalize_close_channel,
}
use algorand_state_channels.Contract.State.{Channel, Chain, Call, Payout, plus, minus, btoi}
use algorand_state_channels.Contract.Program.{
  program, no_op, on_create, on_call, dispatch, on_funding, on_initiate_channel_closing,
  signed_args, is_agreed, start_closing, put_state, state_hash, hashed_data,
  on_finalize_channel_closing, close_account_to,
}
use algorand_state_channels.Contract.Group.{run_submission, run_creation}
use algorand_state_channels.Contract.Agreement.{with_state, closing_by, payouts_of}
use algorand_state_channels.Contract.Disputes.{IsIgnored}
use algorand_state_channels.Contract.Balance.{IsBalanced}
use algorand_state_channels.Contract.Trace.{Trace, created, called, Trace-IsBalanced}
use algorand_state_channels.Contract.Rules.{Allowed}
use algorand_state_channels.Contract.Rules.Refinement.{program-Allowed}
use algorand_state_channels.Contract.Rules.Deposits.{SameTerms, IsSettlement, approved_pays_deposit}
use algorand_state_channels.Contract.Funding.{second_funding_blocks}
use algorand_state_channels.Contract.Opening.{Describes, HasTerms, open_channel-Describes}
use algorand_state_channels.Contract.Payout.{closing_pays_out}
use algorand_state_channels.Base.Dict.{lookup, insert}
use algorand_state_channels.Payment.Calls.{Submission}
use algorand_state_channels.Server.State.{Server, PaymentChannelInfo}
use algorand_state_channels.Server.Action.{ok}
use algorand_state_channels.Server.GlobalState.{save_channel, log_state}
use algorand_state_channels.Server.Peer.{update_watchtower_state}
use algorand_state_channels.Server.Rpc.{open_channel, send_request}
use algorand_state_channels.Tests.Runs.{start_world}
use algorand_state_channels.Tests.Nodes.{alice_node, sample_sdk, alice, bob}
use algorand_state_channels.Tests.Chains.{
  chain, same_crypto, signature_of, signature_of-verifies, fresh, funded, funded_parties,
  funded-Divides,
}

closing_pays_out_example :
    let started = closing_by sample_sdk chain alice (with_state 600_000 400_000 1000 funded) in
    (run_submission sample_sdk chain
        (initiate_close_channel alice 4161 7 600_000 400_000 1000
          (signature_of alice.address 600_000 400_000 1000)
          (signature_of bob.address 600_000 400_000 1000))
        funded
      ≡ some (started, []))
    × (run_submission sample_sdk
          (record chain { round = 1051 })
          (finalize_close_channel alice bob.address 7)
          started
        ≡ some (started, payouts_of chain 600_000 400_000 funded))
closing_pays_out_example =
    closing_pays_out sample_sdk chain funded alice.address bob.address same_crypto funded_parties
      600_000 400_000 1000 funded-Divides (signature_of alice.address 600_000 400_000 1000)
      (signature_of bob.address 600_000 400_000 1000) alice (inl refl) (omega arith)
      (signature_of-verifies alice.address 600_000 400_000 1000)
      (signature_of-verifies bob.address 600_000 400_000 1000) (omega arith) (omega arith) 1051
      (omega arith)

abbrev opened_by_alice : Server
opened_by_alice =
    (open_channel start_world (codes "10.0.0.2") bob.address 1_000_000 100_000 1000 alice_node).1

open_channel_run :
    open_channel start_world (codes "10.0.0.2") bob.address 1_000_000 100_000 1000 alice_node
    ≡ (ok 7, opened_by_alice)
unfolding open_channel send_request update_watchtower_state save_channel log_state insert bytes_eq
open_channel_run = refl

open_channel-Describes_example :
    (creation : Submission) × (setup : Submission) × (created ch : Channel)
    × (info : PaymentChannelInfo) × (opened_by_alice.submitted
        ≡ ([] ++ creation ∷ []) ++ setup ∷ [])
    × (run_creation sample_sdk chain creation ≡ some (created, []))
    × (run_submission sample_sdk chain setup created ≡ some (ch, []))
    × HasTerms sample_sdk alice.address bob.address 1_000_000 100_000 1000 ch
    × (lookup bob.address opened_by_alice.onchain_states ≡ some info)
    × Describes sample_sdk info ch
    × (info.app_id ≡ 7)
    × (info.partner_ip ≡ codes "10.0.0.2")
    × (7 ≡ chain.application_id)
open_channel-Describes_example =
    open_channel-Describes start_world chain (codes "10.0.0.2") bob.address 1_000_000 100_000 1000 7
      alice_node opened_by_alice open_channel_run refl refl (omega arith) (omega arith)
      (omega arith)

second_funding_blocks_example :
    let again : Channel = record funded {
      latest_alice_balance = 200_000;
      total_deposit = 200_000;
    } in
    (run_submission sample_sdk chain (setup_payment_app sample_sdk 7 alice 200_000) funded
      ≡ some (again, []))
    × IsIgnored
        (run_submission sample_sdk chain
          (initiate_close_channel bob 4161 7 600_000 400_000 1000
            (signature_of alice.address 600_000 400_000 1000)
            (signature_of bob.address 600_000 400_000 1000))
          again)
        again
second_funding_blocks_example =
    second_funding_blocks sample_sdk chain alice 200_000 funded refl refl (omega arith)
      (omega arith) bob 600_000 400_000 1000 (signature_of alice.address 600_000 400_000 1000)
      (signature_of bob.address 600_000 400_000 1000) (omega arith) (omega arith) (λ e. omega arith)

-- Alice creates and funds the channel, and Bob starts a closing.
abbrev create_call : Call
create_call = record {
  sender = alice.address;
  args = bob.address ∷ put_uint64 100_000 ∷ put_uint64 1000 ∷ [];
  preceding = none;
}

abbrev fund_call : Call
fund_call = record {
  sender = alice.address;
  args = codes "fund" ∷ [];
  preceding = some (record {
    payer = alice.address;
    is_payment = true;
    amount = 1_000_000;
    receiver = codes "7";
  });
}

abbrev close_call : Call
close_call = record {
  sender = bob.address;
  args =
      codes "initiateChannelClosing"
      ∷ put_uint64 4161
      ∷ put_uint64 600_000
      ∷ put_uint64 400_000
      ∷ put_uint64 1000
      ∷ signature_of alice.address 600_000 400_000 1000
      ∷ signature_of bob.address 600_000 400_000 1000
      ∷ [];
  preceding = none;
}

create_run : program chain no_op create_call none ≡ some (fresh, [])
unfolding program on_create btoi put_uint64 from_bytes
create_run = refl

fund_run : program chain no_op fund_call (some fresh) ≡ some (funded, [])
unfolding program on_call dispatch on_funding plus bytes_eq format_uint emit
fund_run = refl

abbrev closing : Channel
closing = closing_by sample_sdk chain bob (with_state 600_000 400_000 1000 funded)

close_run : program chain no_op close_call (some funded) ≡ some (closing, [])
unfolding program on_call dispatch on_initiate_channel_closing signed_args is_agreed start_closing
    put_state state_hash hashed_data plus btoi bytes_eq state_message put_uint64 from_bytes
    signed_fields uint64_to_bytes
close_run = refl

trace : Trace closing
trace =
    called chain no_op close_call funded closing []
      (called chain no_op fund_call fresh funded []
        (created chain no_op create_call fresh [] create_run) (inr refl) fund_run)
      (inl (λ e. ground arith)) close_run

Trace-IsBalanced_example : IsBalanced closing
Trace-IsBalanced_example = Trace-IsBalanced trace

program-Allowed_example : Allowed chain close_call funded closing []
program-Allowed_example = program-Allowed chain no_op close_call funded closing [] close_run

-- Anybody finalizes the closing after the dispute window.
abbrev finalize_call : Call
finalize_call = record {
  sender = codes "anybody";
  args = codes "finalizeChannelClosing" ∷ [];
  preceding = none;
}

abbrev late : Chain
late = record chain { round = 1051 }

abbrev paid : List Payout
paid = payouts_of late 600_000 400_000 funded

finalize_run : program late no_op finalize_call (some closing) ≡ some (closing, paid)
unfolding program on_call dispatch on_finalize_channel_closing close_account_to minus bytes_eq
finalize_run = refl

approved_pays_deposit_example :
    SameTerms closing closing × ((paid ≡ []) ⊎ IsSettlement late closing paid)
approved_pays_deposit_example =
    approved_pays_deposit trace late no_op finalize_call closing paid finalize_run
