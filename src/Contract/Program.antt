-- ===== src/Contract/Program.antt =====
-- The approval program of payment/payment_contract.py. In PyTeal every argument of And and Or is
-- evaluated, so that a failing one fails the transaction whatever the others are.
use algorand_state_channels.Base.{
  Bool, ◌&&◌, ◌||◌, Bytes, bytes_has_eq, nat_has_eq, codes, Option, none, some, List, [], ◌∷◌, ◌++◌,
  ltb, length, nat_eq, ◌==◌, if◌then◌else◌,
}
use algorand_state_channels.Base.BigEndian.{put_uint64}
use algorand_state_channels.Contract.State.{
  Channel, Chain, Call, Payout, Run, ◌>>=◌, ◌>>◌, assert, plus, minus, btoi, application_arg,
}

-- closeAccountTo
unfoldable pub close_account_to : Chain → Bytes → Channel → Run (List Payout)
close_account_to chain beneficiary ch = do
  bob_amount ← minus ch.latest_bob_balance chain.min_txn_fee
  alice_amount ← minus ch.latest_alice_balance chain.min_txn_fee
  some (
      record { receiver = ch.bob_address; amount = bob_amount; close_remainder_to = none }
      ∷ record {
        receiver = ch.alice_address;
        amount = alice_amount;
        close_remainder_to = some beneficiary;
      }
      ∷ [])

-- on_create
unfoldable pub on_create : Call → Run Channel
on_create c = do
  assert (nat_eq (length c.args) 3)
  bob ← application_arg c 0
  reserve_bytes ← application_arg c 1
  penalty_reserve ← btoi reserve_bytes
  window_bytes ← application_arg c 2
  dispute_window ← btoi window_bytes
  some (record {
    alice_address = c.sender;
    bob_address = bob;
    penalty_reserve = penalty_reserve;
    dispute_window = dispute_window;
    timeout = 0;
    closing_initiator = none;
    latest_alice_balance = 0;
    latest_bob_balance = 0;
    latest_timestamp = 0;
    total_deposit = 0;
  })

-- on_funding, with the transaction before the call in the group
unfoldable pub on_funding : Chain → Call → Channel → Run Channel
on_funding chain c ch = do
  funding ← c.preceding
  least ← plus ch.penalty_reserve chain.min_txn_fee
  assert (
      funding.payer == c.sender
      && (funding.payer == ch.alice_address
          && (funding.is_payment
              && (ltb least funding.amount && funding.receiver == chain.application_address))))
  some (record ch { latest_alice_balance = funding.amount; total_deposit = funding.amount })

-- The arguments of a call that carries a signed state.
pub record Signed : Type 0 where
  pub algorand_port : Bytes
  pub alice_balance : Bytes
  pub bob_balance : Bytes
  pub timestamp : Bytes
  pub alice_signature : Bytes
  pub bob_signature : Bytes

unfoldable pub signed_args : Call → Run Signed
signed_args c = do
  algorand_port ← application_arg c 1
  alice_balance ← application_arg c 2
  bob_balance ← application_arg c 3
  timestamp ← application_arg c 4
  alice_signature ← application_arg c 5
  bob_signature ← application_arg c 6
  some (record {
    algorand_port = algorand_port;
    alice_balance = alice_balance;
    bob_balance = bob_balance;
    timestamp = timestamp;
    alice_signature = alice_signature;
    bob_signature = bob_signature;
  })

-- The data that `hash` is taken of, between the two tags.
unfoldable pub hashed_data : Chain → Bytes → Signed → Bytes → Bytes
hashed_data chain tag a end =
    tag
    ++ (a.algorand_port
        ++ (codes ","
            ++ (put_uint64 chain.application_id
                ++ (codes ","
                    ++ (a.alice_balance
                        ++ (codes ","
                            ++ (a.bob_balance ++ (codes "," ++ (a.timestamp ++ end)))))))))

-- The two bindings of `hash`, the second of which holds from on_cooperativeClose on.
unfoldable pub state_hash : Chain → Signed → Bytes
state_hash chain a =
    chain.sha3_256 (hashed_data chain (codes "STATE_UPDATE") a (codes "END_STATE_UPDATE"))

unfoldable pub close_hash : Chain → Signed → Bytes
close_hash chain a =
    chain.sha3_256 (hashed_data chain (codes "CLOSE_CHANNEL") a (codes "END_CLOSE_CHANNEL"))

-- Both signatures of `hash`, and the sum of the balances.
unfoldable pub is_agreed : Chain → Bytes → Signed → Channel → Run Bool
is_agreed chain hash a ch = do
  by_alice ← chain.ed25519verify_bare hash a.alice_signature ch.alice_address
  by_bob ← chain.ed25519verify_bare hash a.bob_signature ch.bob_address
  alice ← btoi a.alice_balance
  bob ← btoi a.bob_balance
  sum ← plus alice bob
  some (by_alice && (by_bob && sum == ch.total_deposit))

-- The three writes of a state: its timestamp and its balances.
unfoldable pub put_state : Signed → Channel → Run Channel
put_state a ch = do
  timestamp ← btoi a.timestamp
  alice ← btoi a.alice_balance
  bob ← btoi a.bob_balance
  some (record ch {
    latest_timestamp = timestamp;
    latest_alice_balance = alice;
    latest_bob_balance = bob;
  })

abbrev pub is_party : Call → Channel → Bool
is_party c ch = c.sender == ch.alice_address || c.sender == ch.bob_address

-- What a closing that both have agreed to starts.
unfoldable pub start_closing : Chain → Call → Signed → Channel → Run Channel
start_closing chain c a ch = do
  timeout ← plus chain.round ch.dispute_window
  put_state a (record ch {
    closing_initiator = some (if c.sender == ch.alice_address then codes "alice" else codes "bob");
    timeout = timeout;
  })

-- on_initiateChannelClosing
unfoldable pub on_initiate_channel_closing : Chain → Call → Channel → Run Channel
on_initiate_channel_closing chain c ch = do
  assert (is_party c ch)
  a ← signed_args c
  agreed ← is_agreed chain (state_hash chain a) a ch
  if agreed then start_closing chain c a ch else some ch

-- What a closing together does.
unfoldable pub close_together : Chain → Signed → Channel → Run (Channel × List Payout)
close_together chain a ch = do
  closed ← put_state a ch
  payouts ← close_account_to chain closed.alice_address closed
  some (closed, payouts)

-- on_cooperativeClose
unfoldable pub on_cooperative_close : Chain → Call → Channel → Run (Channel × List Payout)
on_cooperative_close chain c ch = do
  assert (is_party c ch)
  assert (nat_eq ch.timeout 0)
  a ← signed_args c
  agreed ← is_agreed chain (close_hash chain a) a ch
  if agreed then close_together chain a ch else some (ch, [])

-- The two uses of `rebalance` by the penalty.
unfoldable pub punish_alice : Channel → Run Channel
punish_alice ch = do
  alice ← minus ch.latest_alice_balance ch.penalty_reserve
  bob ← plus ch.latest_bob_balance ch.penalty_reserve
  some (record ch { latest_alice_balance = alice; latest_bob_balance = bob })

unfoldable pub punish_bob : Channel → Run Channel
punish_bob ch = do
  bob ← minus ch.latest_bob_balance ch.penalty_reserve
  alice ← plus ch.latest_alice_balance ch.penalty_reserve
  some (record ch { latest_alice_balance = alice; latest_bob_balance = bob })

-- What a dispute changes: the state, and the penalty of the one who began to close. A comparison
-- of an initiator that is not set with a text fails.
unfoldable pub settle_dispute : Signed → Channel → Run Channel
settle_dispute a ch = do
  updated ← put_state a ch
  initiator ← updated.closing_initiator
  if initiator == codes "alice" then punish_alice updated else punish_bob updated

-- on_raiseDispute, whose `hash` is that of a closing
unfoldable pub on_raise_dispute : Chain → Call → Channel → Run Channel
on_raise_dispute chain c ch = do
  a ← signed_args c
  agreed ← is_agreed chain (close_hash chain a) a ch
  timestamp ← btoi a.timestamp
  if agreed && ltb ch.latest_timestamp timestamp then settle_dispute a ch else some ch

abbrev pub no_payouts : Run Channel → Run (Channel × List Payout)
no_payouts m = m >>= λ ch. some (ch, [])

abbrev pub with_payouts : Channel → Run (List Payout) → Run (Channel × List Payout)
with_payouts ch m = m >>= λ payouts. some (ch, payouts)

-- on_finalizeChannelClosing
unfoldable pub on_finalize_channel_closing : Chain → Channel → Run (Channel × List Payout)
on_finalize_channel_closing chain ch =
    if ltb ch.timeout chain.round
    then with_payouts ch (close_account_to chain ch.alice_address ch)
    else some (ch, [])

-- The `Cond` of on_call, by the method
unfoldable pub dispatch : Chain → Call → Channel → Bytes → Run (Channel × List Payout)
dispatch chain c ch method =
    if method == codes "fund"
    then no_payouts (on_funding chain c ch)
    else if method == codes "increaseBudget"
    then some (ch, [])
    else if method == codes "initiateChannelClosing"
    then no_payouts (on_initiate_channel_closing chain c ch)
    else if method == codes "raiseDispute"
    then no_payouts (on_raise_dispute chain c ch)
    else if method == codes "finalizeChannelClosing"
    then on_finalize_channel_closing chain ch
    else if method == codes "cooperativeClose"
    then on_cooperative_close chain c ch
    else none

-- on_call
unfoldable pub on_call : Chain → Call → Channel → Run (Channel × List Payout)
on_call chain c ch = do method ← application_arg c 0; dispatch chain c ch method

-- `Txn.on_completion()`
pub data Completion : Type 0 where
  no_op opt_in close_out update_application delete_application : Completion

-- The program. The state is missing in the call that creates the application; for an opt-in no
-- case of the `Cond` fits.
unfoldable pub program : Chain → Completion → Call → Option Channel → Run (Channel × List Payout)
program chain completion c none = no_payouts (on_create c)
program chain no_op c (some ch) = on_call chain c ch
program chain opt_in c (some ch) = none
program chain close_out c (some ch) = none
program chain update_application c (some ch) = none
program chain delete_application c (some ch) = none
