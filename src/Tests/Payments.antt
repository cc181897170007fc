-- ===== src/Tests/Payments.antt =====
-- Payments between two nodes, at concrete states.
use algorand_state_channels.Base.{
  ◌<◌, ◌≡◌, ◌↔◌, inr, refl, Bool, true, false, Bytes, codes, bytes_eq, bytes_has_eq, nat_has_eq,
  none, arith,
}
use algorand_state_channels.Base.Word.{slt, add64, sub64}
use algorand_state_channels.Payment.Signing.{verify_state}
use algorand_state_channels.Server.State.{OffChainState, World}
use algorand_state_channels.Server.Action.{ok, stop, panic}
use algorand_state_channels.Server.GlobalState.{log_state}
use algorand_state_channels.Server.Peer.{is_beneficial, process_request}
use algorand_state_channels.Server.Peer.Acceptance.{
  MovesAmount, is_beneficial_iff, is_beneficial_overdraft,
}
use algorand_state_channels.Server.Rpc.{pay, paid_balances, pay_request_of}
use algorand_state_channels.Server.Rpc.Transfer.{exchange_of}
use algorand_state_channels.Server.Rpc.Agreement.{Shares, IsPayment}
use algorand_state_channels.Server.Rpc.Agreement.Payment.{alice_pays, bob_pays}
use algorand_state_channels.Server.Rpc.Failures.{pay_unreachable, pay_atomic}
use algorand_state_channels.Tests.Nodes.{
  sample_sdk, alice, bob, alice_keys, bob_keys, channel_info, paid_once, alice_node, bob_node,
  world, alone, alice-Knows, bob-Knows, shared,
}

-- The world of Alice's node, whose peer is Bob's node, and the other way round.
abbrev pub alice_world : World
alice_world =
    world (λ ip r. exchange_of (process_request alone (codes "10.0.0.1") r bob_node).0) none

abbrev pub bob_world : World
bob_world =
    world (λ ip r. exchange_of (process_request alone (codes "10.0.0.2") r alice_node).0) none

shared_back :
    Shares sample_sdk bob_node alice_node
      (channel_info (codes "10.0.0.1"))
      (channel_info (codes "10.0.0.2"))
      paid_once
      paid_once
shared_back = record {
  a_knows = bob-Knows;
  b_knows = alice-Knows;
  a_keys = bob_keys;
  b_keys = alice_keys;
  distinct = λ e. ground arith;
  same_app = refl;
  same_alice = refl;
  alice_is = inr refl;
  same_alice_balance = refl;
  same_bob_balance = refl;
  alice_word = omega arith;
  bob_word = omega arith;
}

pub paid_balances-IsPayment :
    (me_alice : Bool) (ip : Bytes)
    → IsPayment me_alice (channel_info ip) paid_once paid_once 5000 2000
unfolding slt paid_balances
paid_balances-IsPayment true ip = record {
  positive = omega arith;
  small = omega arith;
  keeps_reserve = omega arith;
  later = refl;
  time_word = omega arith;
}
paid_balances-IsPayment false ip = record {
  positive = omega arith;
  small = omega arith;
  keeps_reserve = omega arith;
  later = refl;
  time_word = omega arith;
}

alice_pays_example :
    (st : OffChainState) × (pay alice_world bob.address 5000 alice_node
      ≡ (ok tt, log_state bob.address st alice_node))
    × ((process_request alone
          (codes "10.0.0.1")
          (pay_request_of alice.address 595_000 405_000 2000 st.alice_signature)
          bob_node).1
        ≡ log_state alice.address st bob_node)
    × (st.alice_balance ≡ sub64 paid_once.alice_balance 5000)
    × (st.bob_balance ≡ add64 paid_once.bob_balance 5000)
    × (verify_state sample_sdk 7 st.alice_balance st.bob_balance 4161 st.alice_signature
          alice.address st.timestamp
        ≡ true)
    × (verify_state sample_sdk 7 st.alice_balance st.bob_balance 4161 st.bob_signature bob.address
          st.timestamp
        ≡ true)
    × (st.timestamp ≡ 2000)
unfolding bytes_eq paid_balances
alice_pays_example =
    alice_pays alice_world alone alice_node bob_node (channel_info (codes "10.0.0.2"))
      (channel_info (codes "10.0.0.1")) paid_once paid_once 5000 (codes "10.0.0.1") refl (λ r. refl)
      shared (paid_balances-IsPayment true (codes "10.0.0.1")) refl

bob_pays_example :
    (st st' : OffChainState) × (pay bob_world alice.address 5000 bob_node
      ≡ (ok tt, log_state alice.address st bob_node))
    × ((process_request alone
          (codes "10.0.0.2")
          (pay_request_of bob.address 605_000 395_000 2000 st.alice_signature)
          alice_node).1
        ≡ log_state bob.address st' alice_node)
    × (st'.alice_signature ≡ st.bob_signature)
    × (st'.bob_signature ≡ st.alice_signature)
    × (st'.alice_balance ≡ st.alice_balance)
    × (st'.bob_balance ≡ st.bob_balance)
    × (st'.timestamp ≡ st.timestamp)
    × (verify_state sample_sdk 7 st.alice_balance st.bob_balance 4161 st.alice_signature bob.address
          st.timestamp
        ≡ true)
unfolding bytes_eq paid_balances
bob_pays_example =
    bob_pays bob_world alone bob_node alice_node (channel_info (codes "10.0.0.1"))
      (channel_info (codes "10.0.0.2")) paid_once paid_once 5000 (codes "10.0.0.2") refl (λ r. refl)
      shared_back (paid_balances-IsPayment false (codes "10.0.0.2")) refl

pay_unreachable_run : pay alone bob.address 5000 alice_node ≡ (stop panic, alice_node)
pay_unreachable_run =
    pay_unreachable alone alice_node bob.address (channel_info (codes "10.0.0.2")) paid_once 5000
      alice-Knows (λ r. refl)

pay_atomic_example : alice_node ≡ alice_node
pay_atomic_example =
    pay_atomic alone alice_node alice_node bob.address 5000 panic pay_unreachable_run

is_beneficial_iff_example :
    (is_beneficial 600_000 595_000 400_000 405_000 100_000 1000 2000 ≡ true)
    ↔ MovesAmount 600_000 595_000 400_000 405_000 100_000 1000 2000
is_beneficial_iff_example =
    is_beneficial_iff 600_000 595_000 400_000 405_000 100_000 1000 2000
      (omega arith, omega arith, omega arith, omega arith)

-- Bob takes 700000 from the 600000 of Alice.
is_beneficial_overdraft_example :
    (is_beneficial 600_000 (sub64 600_000 700_000) 400_000 (add64 400_000 700_000) 100_000 1000 2000
      ≡ true)
    × (600_000 < sub64 600_000 700_000)
unfolding slt
is_beneficial_overdraft_example =
    is_beneficial_overdraft 600_000 400_000 100_000 1000 2000 700_000 (omega arith) (omega arith)
      (omega arith) (omega arith) refl
