-- ===== src/Contract/Paid.antt =====
-- A payment from the payer's Pay to the contract's payments: the receiver closes with the new state.
use mathlib.Core.Path.{subst}
use algorand_state_channels.Base.{
  ℕ, ◌+◌, ◌-◌, ◌<◌, ◌≤◌, ◌≡◌, inr, refl, ap, sym, ◌∙◌, true, Bytes, bytes_eq_iff, bytes_has_eq,
  nat_has_eq, some, [], ◌∷◌, ◌++◌, arith,
}
use algorand_state_channels.Base.Word.{IsWord, add64, sub64, slt}
use algorand_state_channels.Base.Dict.{insert, lookup-insert}
use algorand_state_channels.Payment.Sdk.{Sdk, Address}
use algorand_state_channels.Payment.Calls.{
  Submission, initiate_close_channel, finalize_close_channel,
}
use algorand_state_channels.Server.State.{
  Server, PaymentChannelInfo, OffChainState, P2PRequest, World,
}
use algorand_state_channels.Server.Action.{ok}
use algorand_state_channels.Server.GlobalState.{log_state}
use algorand_state_channels.Server.Invariant.{IsLog, IsWellFormed}
use algorand_state_channels.Server.Peer.{is_alice, process_request}
use algorand_state_channels.Server.Peer.Progress.{next_latest}
use algorand_state_channels.Server.Rpc.{
  paid_balances, can_close, pay, pay_request_of, initiate_close,
}
use algorand_state_channels.Server.Rpc.Transfer.{exchange_of}
use algorand_state_channels.Server.Rpc.Agreement.{Knows, Shares, IsPayment}
use algorand_state_channels.Server.Rpc.Agreement.Payment.{alice_pays}
use algorand_state_channels.Server.Rpc.Closing.{closing_sent, initiate_close_latest}
use algorand_state_channels.Contract.State.{Channel, Chain}
use algorand_state_channels.Contract.Group.{run_submission}
use algorand_state_channels.Contract.Agreement.{
  SameCrypto, HasParties, Divides, with_state, closing_by, payouts_of,
}
use algorand_state_channels.Contract.Payout.{finalize_close_channel_runs}
use algorand_state_channels.Contract.Closing.{initiate_close_channel_runs}
use algorand_state_channels.Payment.Signing.{verify_state}

-- A later state put into the log of a known channel is its latest.
log_state-Knows :
    (c : Address) (s : Server) (info : PaymentChannelInfo) (latest st : OffChainState)
    → IsWellFormed s
    → Knows s c info latest
    → IsWord st.timestamp
    → slt latest.timestamp st.timestamp ≡ true
    → Knows (log_state c st s) c info st
unfolding log_state
log_state-Knows c s info latest st h k word later =
    let (log, logged, good) = h.channels c info k.channel in
    let same : log ≡ k.log = ground (arith, k.logged) in
    record {
      log = insert st.timestamp st k.log;
      channel = k.channel;
      logged = ground (
        arith,
        bytes_eq_iff c c,
        k.logged,
        lookup-insert c c (insert st.timestamp st k.log) s.offchain_states_log,
      );
      last =
          next_latest info.total_deposit k.log latest st
            (subst (IsLog info.total_deposit) same good) k.last word later;
    }

-- The contract of a channel and what a closing of it needs.
pub record Closes (sdk : Sdk) (chain : Chain) (ch : Channel) (a b : Server)
    (info : PaymentChannelInfo) (alice bob : ℕ) : Type 0 where
  pub parties : HasParties sdk ch a.algo_account.address b.algo_account.address
  pub same_crypto : SameCrypto sdk chain
  pub same_app : info.app_id ≡ chain.application_id
  pub whole : alice + bob ≡ ch.total_deposit
  pub deposit_word : IsWord ch.total_deposit
  pub timeout_word : IsWord (chain.round + ch.dispute_window)
  pub small_fee : chain.min_txn_fee ≤ 1000

module _ (wa wb : World) (a b : Server) (ia ib : PaymentChannelInfo) (la lb : OffChainState)
    (amount : ℕ) (ip : Bytes) (same_sdk : wb.sdk ≡ wa.sdk)
    (delivers : (r : P2PRequest)
      → wa.peer ia.partner_ip r ≡ exchange_of (process_request wb ip r b).0)
    (shares : Shares wa.sdk a b ia ib la lb) (is_true : is_alice ia a.algo_account.address ≡ true)
    (payment : IsPayment (is_alice ia a.algo_account.address) ib la lb amount wa.now)
    (chain : Chain) (ch : Channel)
    (closes : Closes wa.sdk chain ch a b ia la.alice_balance la.bob_balance) where
  abbrev alice_left : ℕ
  alice_left = la.alice_balance - amount

  abbrev bob_paid : ℕ
  bob_paid = la.bob_balance + amount

  abbrev started : Channel
  started = closing_by wa.sdk chain b.algo_account (with_state alice_left bob_paid wa.now ch)

  -- The state that Bob's node keeps, closed by that node.
  receiver_closes :
      (st : OffChainState)
      → IsWellFormed b
      → st.alice_balance ≡ alice_left
      → st.bob_balance ≡ bob_paid
      → st.timestamp ≡ wa.now
      → amount + 1000 ≤ la.alice_balance
      → 1000 ≤ bob_paid
      → initiate_close a.algo_account.address (log_state a.algo_account.address st b)
        ≡ (ok tt, closing_sent ib st (log_state a.algo_account.address st b))
  receiver_closes st h sa sb time left paid =
      let knows =
        log_state-Knows a.algo_account.address b ib lb st h shares.b_knows
          (subst IsWord (sym time) payment.time_word)
          (ap (slt lb.timestamp) time ∙ payment.later) in
      let enough : can_close st ≡ true = ground (arith, sa, sb) in
      initiate_close_latest (log_state a.algo_account.address st b) a.algo_account.address ib st
        knows
      ∙ ground (arith, enough)

  -- The contract, as Bob closes it with a state that verifies.
  closing_runs :
      (st : OffChainState)
      → st.alice_balance ≡ alice_left
      → st.bob_balance ≡ bob_paid
      → st.timestamp ≡ wa.now
      → amount + 1000 ≤ la.alice_balance
      → 1000 ≤ bob_paid
      → verify_state wa.sdk ia.app_id st.alice_balance st.bob_balance 4161 st.alice_signature
          a.algo_account.address st.timestamp
        ≡ true
      → verify_state wa.sdk ia.app_id st.alice_balance st.bob_balance 4161 st.bob_signature
          b.algo_account.address st.timestamp
        ≡ true
      → run_submission wa.sdk chain
          (initiate_close_channel b.algo_account 4161 ib.app_id st.alice_balance st.bob_balance
            st.timestamp st.alice_signature st.bob_signature)
          ch
        ≡ some (started, [])
  closing_runs st sa sb time left paid va vb =
      let app : ib.app_id ≡ chain.application_id =
        ground (arith, shares.same_app, closes.same_app) in
      let divides : Divides ch alice_left bob_paid wa.now = record {
        whole = ground (arith, closes.whole);
        deposit_word = closes.deposit_word;
        time_word = payment.time_word;
      } in
      rw (app, sa, sb, time)
        (initiate_close_channel_runs wa.sdk chain ch a.algo_account.address b.algo_account.address
          closes.same_crypto closes.parties alice_left bob_paid wa.now divides st.alice_signature
          st.bob_signature b.algo_account (inr (sym closes.parties.bob_key)) closes.timeout_word
          (rw (← closes.same_app, ← sa, ← sb, ← time) va)
          (rw (← closes.same_app, ← sa, ← sb, ← time) vb))

  -- The request that Pay makes, by the state that it keeps.
  paid_request :
      (st : OffChainState)
      → st.alice_balance ≡ sub64 la.alice_balance amount
      → st.bob_balance ≡ add64 la.bob_balance amount
      → st.timestamp ≡ wa.now
      → pay_request_of a.algo_account.address
          (paid_balances (is_alice ia a.algo_account.address) la amount).0
          (paid_balances (is_alice ia a.algo_account.address) la amount).1
          wa.now
          st.alice_signature
        ≡ pay_request_of a.algo_account.address st.alice_balance st.bob_balance st.timestamp
            st.alice_signature
  unfolding paid_balances
  paid_request st sa sb time = ground (arith, is_true, sa, sb, time)

  -- Two nodes with key pairs know one channel with the same latest balances, which have the sum of
  -- the contract's deposit, and requests of Alice's node reach Bob's well-formed node. Alice pays
  -- an amount that Bob's node accepts, and both sides have at least 1000 then. Both nodes keep a
  -- state with the new balances. Bob's node closes with it, and if it finalizes the closing in a
  -- round after the dispute window, the contract pays both their new balances, less a fee each. The
  -- chain has the nodes' hash and signature check, their id of the application and a fee of at
  -- most 1000, the contract has them as its parties, and deposit and timeout are uint64.
  pub paid_closing_pays_out :
      IsWellFormed b
      → amount + 1000 ≤ la.alice_balance
      → 1000 ≤ la.bob_balance + amount
      → (later : ℕ) → chain.round + ch.dispute_window < later
      → (st : OffChainState) × (b' b'' : Server) × (closing : Submission) × (pay wa
            b.algo_account.address amount a
          ≡ (ok tt, log_state b.algo_account.address st a))
        × ((process_request wb ip
              (pay_request_of a.algo_account.address st.alice_balance st.bob_balance st.timestamp
                st.alice_signature)
              b).1
            ≡ b')
        × (initiate_close a.algo_account.address b' ≡ (ok tt, b''))
        × (b''.submitted ≡ b'.submitted ++ closing ∷ [])
        × (run_submission wa.sdk chain closing ch ≡ some (started, []))
        × (run_submission wa.sdk
              (record chain { round = later })
              (finalize_close_channel b.algo_account a.algo_account.address chain.application_id)
              started
            ≡ some (started, payouts_of chain alice_left bob_paid ch))
  unfolding log_state
  paid_closing_pays_out h left paid later late =
      let (st, pays, receives, sa, sb, va, vb, time) =
        alice_pays wa wb a b ia ib la lb amount ip same_sdk delivers shares payment is_true in
      let alice_is : st.alice_balance ≡ alice_left = ground (arith, sa, shares.alice_word) in
      let bob_is : st.bob_balance ≡ bob_paid =
        ground (arith, sb, closes.whole, closes.deposit_word) in
      let request = paid_request st sa sb time in
      (
        st,
        log_state a.algo_account.address st b,
        closing_sent ib st (log_state a.algo_account.address st b),
        initiate_close_channel b.algo_account 4161 ib.app_id st.alice_balance st.bob_balance
            st.timestamp st.alice_signature st.bob_signature,
        pays,
        rw (← request) receives,
        receiver_closes st h alice_is bob_is time left paid,
        refl,
        closing_runs st alice_is bob_is time left paid va vb,
        finalize_close_channel_runs wa.sdk (record chain { round = later }) b.algo_account
            a.algo_account.address started late (omega arith) (omega arith),
      )
