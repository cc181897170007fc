-- ===== src/Tests/Requests.antt =====
-- Requests to a node, at concrete states.
use algorand_state_channels.Base.{
  ℕ, ◌≡◌, refl, ap, true, false, Bytes, codes, bytes_eq, bytes_eq_iff, bytes_has_eq, some, List, [],
  ◌∷◌, ◌++◌, arith, if◌then◌else◌, nat_eq_iff, nat_has_eq, IsBytes, All,
}
use algorand_state_channels.Base.Word.{slt}
use algorand_state_channels.Base.BigEndian.{put_uint64, put_bytes}
use algorand_state_channels.Base.Dict.{lookup}
use algorand_state_channels.Payment.Message.{state_message}
use algorand_state_channels.Payment.Signing.{sign_state, verify_state}
use algorand_state_channels.Server.State.{Server, OffChainState, PaymentLog, PaymentChannelInfo}
use algorand_state_channels.Server.Action.{ok, stop, reject}
use algorand_state_channels.Server.Log.{get_latest_off_chain_state}
use algorand_state_channels.Server.GlobalState.{log_state}
use algorand_state_channels.Server.Peer.{
  is_alice, is_beneficial, is_acceptable, agreed_state, process_payment, pay_request,
}
use algorand_state_channels.Server.Peer.Acceptance.{process_payment_atomic}
use algorand_state_channels.Server.Peer.Payments.{process_payment_latest, process_payment_replay}
use algorand_state_channels.Server.Invariant.{IsEntry, IsLog, IsWellFormed}
use algorand_state_channels.Server.Steps.{pay_request-IsWellFormed, watch_round-IsWellFormed}
use algorand_state_channels.Server.Watchtower.{watch_round}
use algorand_state_channels.Tests.Nodes.{
  sample_sdk, alice, channel_info, paid_once, paid_log, bob_node, alone,
}

paid_log-IsEntry :
    (k : ℕ) (st : OffChainState) → lookup k paid_log ≡ some st → IsEntry 1_000_000 k st
unfolding lookup
paid_log-IsEntry k st e =
    let key : 1000 ≡ k = ground (arith, nat_eq_iff 1000 k) in
    let state : paid_once ≡ st = ground (arith, nat_eq_iff 1000 k) in
    record {
      key_word = ground (arith, key);
      keyed = cc (state, key);
      alice_word = ground (arith, ap (λ s. s.alice_balance) state);
      bob_word = ground (arith, ap (λ s. s.bob_balance) state);
      conserved = ground (arith, ap (λ s. s.alice_balance) state, ap (λ s. s.bob_balance) state);
    }

paid_log-IsLog : IsLog 1_000_000 paid_log
unfolding lookup slt
paid_log-IsLog = record {
  entries = paid_log-IsEntry;
  first_key = 1000;
  first_found = λ e. ground arith;
  first_positive = refl;
}

pub bob_node-IsWellFormed : IsWellFormed bob_node
unfolding lookup
bob_node-IsWellFormed = record {
  channels = λ c info open_c.
      let known : channel_info (codes "10.0.0.1") ≡ info = ground arith in
      (paid_log, ground arith, ground (arith, paid_log-IsLog, ap (λ i. i.total_deposit) known));
}

-- Alice's signature for a payment of 5000, and Bob's.
abbrev pub alice_signs : Bytes
alice_signs = codes "ALICE" ++ state_message 4161 7 595_000 405_000 2000

abbrev pub bob_signs : Bytes
bob_signs = codes "BOB" ++ state_message 4161 7 595_000 405_000 2000

abbrev pub bob_node_paid : Server
bob_node_paid =
    log_state alice.address (agreed_state false 7 595_000 405_000 2000 bob_signs alice_signs)
      bob_node

pub payment_run :
    process_payment alone alice.address 595_000 405_000 2000 alice_signs bob_node
    ≡ (ok (bob_signs ∷ []), bob_node_paid)
unfolding process_payment lookup bytes_eq get_latest_off_chain_state slt is_acceptable is_beneficial
    verify_state sign_state
payment_run = ground (arith, bytes_eq_iff alice_signs alice_signs)

process_payment_latest_example :
    (info : PaymentChannelInfo) × (log : PaymentLog) × (st : OffChainState) × (lookup alice.address
        bob_node.onchain_states
      ≡ some info)
    × (lookup alice.address bob_node_paid.offchain_states_log ≡ some log)
    × (get_latest_off_chain_state log ≡ some st)
    × (st.alice_balance ≡ 595_000)
    × (st.bob_balance ≡ 405_000)
    × (st.timestamp ≡ 2000)
    × (bob_signs ∷ []
        ≡ (if is_alice info bob_node.algo_account.address
            then st.alice_signature
            else st.bob_signature)
          ∷ [])
    × (verify_state sample_sdk info.app_id 595_000 405_000 4161
          (if is_alice info bob_node.algo_account.address
            then st.bob_signature
            else st.alice_signature)
          alice.address
          2000
        ≡ true)
process_payment_latest_example =
    process_payment_latest alone alice.address 595_000 405_000 2000 alice_signs bob_node
      bob_node-IsWellFormed (omega arith, omega arith, omega arith) bob_node_paid (bob_signs ∷ [])
      payment_run

process_payment_replay_example :
    process_payment alone alice.address 595_000 405_000 1000 alice_signs bob_node
    ≡ (stop reject, bob_node)
unfolding lookup bytes_eq get_latest_off_chain_state slt
process_payment_replay_example =
    process_payment_replay alone alice.address 595_000 405_000 1000 alice_signs bob_node
      (channel_info (codes "10.0.0.1")) paid_log paid_once refl refl refl refl

replay_run :
    process_payment alone alice.address 595_000 405_000 1000 alice_signs bob_node
    ≡ (stop reject, bob_node)
unfolding lookup bytes_eq get_latest_off_chain_state slt
replay_run =
    process_payment_replay alone alice.address 595_000 405_000 1000 alice_signs bob_node
      (channel_info (codes "10.0.0.1")) paid_log paid_once refl refl refl refl

process_payment_atomic_example : bob_node ≡ bob_node
process_payment_atomic_example =
    process_payment_atomic alone alice.address 595_000 405_000 1000 alice_signs bob_node bob_node
      reject replay_run

-- The arguments of the payment as bytes.
abbrev pay_args : List Bytes
pay_args =
    codes "ALICE"
    ∷ put_uint64 595_000
    ∷ put_uint64 405_000
    ∷ put_uint64 2000
    ∷ codes "signature"
    ∷ []

pay_args-IsBytes : All IsBytes pay_args
unfolding put_uint64 put_bytes
pay_args-IsBytes = grind arith

pay_request-IsWellFormed_example : IsWellFormed (pay_request alone pay_args bob_node).1
pay_request-IsWellFormed_example =
    pay_request-IsWellFormed alone pay_args bob_node pay_args-IsBytes bob_node-IsWellFormed

watch_round-IsWellFormed_example : IsWellFormed (watch_round alone bob_node).1
watch_round-IsWellFormed_example = watch_round-IsWellFormed alone bob_node bob_node-IsWellFormed
