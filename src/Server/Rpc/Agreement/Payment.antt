-- ===== src/Server/Rpc/Agreement/Payment.antt =====
-- A payment that the receiver accepts, on both nodes.
use algorand_state_channels.Base.{
  ℕ, ◌≡◌, inl, inr, refl, ap, ◌∙◌, Bool, true, false, not, Bytes, bytes_eq_iff, codes, bytes_has_eq,
  some, List, [], ◌∷◌, arith, Option-cases,
}
use algorand_state_channels.Base.Word.{IsWord, add64, sub64}
use algorand_state_channels.Payment.Sdk.{Address}
use algorand_state_channels.Payment.Signing.{
  sign_state, verify_state, verify_state-sign_state, sign_state-ne-none,
}
use algorand_state_channels.Server.State.{
  Server, PaymentChannelInfo, OffChainState, P2PRequest, World,
}
use algorand_state_channels.Server.Action.{Result, ok}
use algorand_state_channels.Server.GlobalState.{log_state}
use algorand_state_channels.Server.Peer.{is_alice, agreed_state, process_request}
use algorand_state_channels.Server.Peer.Acceptance.{Accepted, process_payment_accepts}
use algorand_state_channels.Server.Rpc.{
  pay_request_of, paid_state, paid_balances, exchange_payment, find_channel, find_latest, pay,
}
use algorand_state_channels.Server.Rpc.Transfer.{
  exchange_of, process_request-pay_request_of, exchange_payment_saves,
}
use algorand_state_channels.Server.Rpc.Agreement.{
  Knows, Shares, IsPayment, paid_balances-IsWord, paid_balances_acceptable,
}

-- Pay reaches the exchange with the partner.
pay_known :
    (w : World) (s : Server) (partner : Address) (info : PaymentChannelInfo)
    (latest : OffChainState) (amount : ℕ) (signature : Bytes)
    → Knows s partner info latest
    → sign_state w.sdk info.app_id s.algo_account
        (paid_balances (is_alice info s.algo_account.address) latest amount).0
        (paid_balances (is_alice info s.algo_account.address) latest amount).1
        4161
        w.now
      ≡ some signature
    → pay w partner amount s
      ≡ exchange_payment w s.algo_account info partner
          (paid_balances (is_alice info s.algo_account.address) latest amount).0
          (paid_balances (is_alice info s.algo_account.address) latest amount).1
          signature
          s
unfolding pay find_channel find_latest
pay_known w s partner info latest amount signature k e = ground (arith, k.channel, k.logged, k.last)

module _ (wa wb : World) (a b : Server) (ia ib : PaymentChannelInfo) (la lb : OffChainState)
    (amount : ℕ) (ip : Bytes) (same_sdk : wb.sdk ≡ wa.sdk)
    (delivers : (r : P2PRequest)
      → wa.peer ia.partner_ip r ≡ exchange_of (process_request wb ip r b).0)
    (shares : Shares wa.sdk a b ia ib la lb)
    (payment : IsPayment (is_alice ia a.algo_account.address) ib la lb amount wa.now) where
  abbrev payer_is_alice : Bool
  payer_is_alice = is_alice ia a.algo_account.address

  abbrev alice_after : ℕ
  alice_after = (paid_balances payer_is_alice la amount).0

  abbrev bob_after : ℕ
  bob_after = (paid_balances payer_is_alice la amount).1

  -- The receiver is on the other side.
  receiver_side : is_alice ib b.algo_account.address ≡ not payer_is_alice
  receiver_side = ground (
    arith,
    bytes_eq_iff ia.alice_address a.algo_account.address,
    bytes_eq_iff ib.alice_address b.algo_account.address,
    shares.same_alice,
    shares.alice_is,
    shares.distinct,
  )

  payment-Accepted :
      (sa sb : Bytes)
      → sign_state wa.sdk ia.app_id a.algo_account alice_after bob_after 4161 wa.now ≡ some sa
      → sign_state wb.sdk ib.app_id b.algo_account alice_after bob_after 4161 wa.now ≡ some sb
      → Accepted wb a.algo_account.address alice_after bob_after wa.now sa b ib shares.b_knows.log
          lb sb
  payment-Accepted sa sb ea eb = record {
    channel = shares.b_knows.channel;
    logged = shares.b_knows.logged;
    last = shares.b_knows.last;
    acceptable = rw receiver_side (
        paid_balances_acceptable payer_is_alice ib la lb amount wa.now shares.alice_word
          shares.bob_word shares.same_alice_balance shares.same_bob_balance payment);
    verified = cc (
      same_sdk,
      shares.same_app,
      verify_state-sign_state wa.sdk a.algo_account shares.a_keys ia.app_id alice_after bob_after
          4161 wa.now sa ea,
    );
    signed = eb;
  }

  -- Both sides sign.
  signatures :
      (sa : Bytes) × (sb : Bytes) × (sign_state wa.sdk ia.app_id a.algo_account alice_after
          bob_after 4161 wa.now
        ≡ some sa)
      × (sign_state wa.sdk ia.app_id b.algo_account alice_after bob_after 4161 wa.now ≡ some sb)
  signatures =
      elim (Option-cases
        (sign_state wa.sdk ia.app_id a.algo_account alice_after bob_after 4161 wa.now)) [
          | inl e ↦ absurd (
              sign_state-ne-none wa.sdk a.algo_account shares.a_keys ia.app_id alice_after bob_after
                4161 wa.now e)
          | inr (sa, ea) ↦
              elim (Option-cases
                (sign_state wa.sdk ia.app_id b.algo_account alice_after bob_after 4161 wa.now)) [
                  | inl e ↦ absurd (
                      sign_state-ne-none wa.sdk b.algo_account shares.b_keys ia.app_id alice_after
                        bob_after 4161 wa.now e)
                  | inr (sb, eb) ↦ (sa, sb, ea, eb)
                ]
        ]

  words : IsWord alice_after × IsWord bob_after × IsWord wa.now
  words =
      let (alice_word, bob_word) = paid_balances-IsWord payer_is_alice la amount in
      (alice_word, bob_word, payment.time_word)

  module _ (sa sb : Bytes)
      (ea : sign_state wa.sdk ia.app_id a.algo_account alice_after bob_after 4161 wa.now ≡ some sa)
      (eb : sign_state wa.sdk ia.app_id b.algo_account alice_after bob_after 4161 wa.now
        ≡ some sb) where
    abbrev answered : Server → Result (List Bytes) × Server
    answered s = (ok (sb ∷ []), s)

    -- What the receiver answers and saves.
    receiver_saves :
        process_request wb ip
          (pay_request_of a.algo_account.address alice_after bob_after wa.now sa)
          b
        ≡ (
          ok (record { message = codes "approve"; response_data = sb ∷ [] }),
          log_state a.algo_account.address
              (agreed_state (not payer_is_alice) ib.app_id alice_after bob_after wa.now sb sa)
              b,
        )
    receiver_saves =
        process_request-pay_request_of wb ip a.algo_account.address alice_after bob_after wa.now sa
          b _ (sb ∷ []) words
          (process_payment_accepts wb a.algo_account.address alice_after bob_after wa.now sa b ib
              shares.b_knows.log lb sb
              (payment-Accepted sa sb ea (cc (same_sdk, shares.same_app, eb)))
            ∙ ap
                (λ side.
                  let st : OffChainState =
                    agreed_state side ib.app_id alice_after bob_after wa.now sb sa in
                  answered (log_state a.algo_account.address st b))
                receiver_side)

    -- What the payer saves.
    payer_saves : pay wa b.algo_account.address amount a ≡ (
      ok tt,
      log_state b.algo_account.address (paid_state ia.app_id alice_after bob_after wa.now sa sb) a,
    )
    payer_saves =
        pay_known wa a b.algo_account.address ia la amount sa shares.a_knows ea
        ∙ exchange_payment_saves wa a.algo_account ia b.algo_account.address alice_after bob_after
            sa sb a
            (delivers (pay_request_of a.algo_account.address alice_after bob_after wa.now sa)
              ∙ ap (λ r. exchange_of r.0) receiver_saves)
            (verify_state-sign_state wa.sdk b.algo_account shares.b_keys ia.app_id alice_after
              bob_after 4161 wa.now sb eb)

  -- Two nodes with key pairs know one channel with the same latest balances, requests of the payer
  -- reach the other node, and the payment is one that the other node accepts. When Alice pays, both
  -- nodes then add one and the same state to their logs: it holds the balances after the payment
  -- and the time of Alice's clock, and it carries Alice's and Bob's signatures, each of which
  -- verifies.
  pub alice_pays :
      payer_is_alice ≡ true
      → (st : OffChainState) × (pay wa b.algo_account.address amount a
          ≡ (ok tt, log_state b.algo_account.address st a))
        × ((process_request wb ip
              (pay_request_of a.algo_account.address alice_after bob_after wa.now
                st.alice_signature)
              b).1
            ≡ log_state a.algo_account.address st b)
        × (st.alice_balance ≡ sub64 la.alice_balance amount)
        × (st.bob_balance ≡ add64 la.bob_balance amount)
        × (verify_state wa.sdk ia.app_id st.alice_balance st.bob_balance 4161 st.alice_signature
              a.algo_account.address st.timestamp
            ≡ true)
        × (verify_state wa.sdk ia.app_id st.alice_balance st.bob_balance 4161 st.bob_signature
              b.algo_account.address st.timestamp
            ≡ true)
        × (st.timestamp ≡ wa.now)
  unfolding paid_state agreed_state
  alice_pays is_true =
      let (sa, sb, ea, eb) = signatures in
      let same_state : agreed_state (not payer_is_alice) ib.app_id alice_after bob_after wa.now sb
            sa
          ≡ paid_state ia.app_id alice_after bob_after wa.now sa sb =
        ground (arith, shares.same_app) in
      (
        paid_state ia.app_id alice_after bob_after wa.now sa sb,
        payer_saves sa sb ea eb,
        ap (λ r. r.1) (receiver_saves sa sb ea eb)
            ∙ ap (λ st. log_state a.algo_account.address st b) same_state,
        unfold paid_balances in ground arith,
        unfold paid_balances in ground arith,
        verify_state-sign_state wa.sdk a.algo_account shares.a_keys ia.app_id alice_after bob_after
            4161 wa.now sa ea,
        verify_state-sign_state wa.sdk b.algo_account shares.b_keys ia.app_id alice_after bob_after
            4161 wa.now sb eb,
        refl,
      )

  -- Two nodes with key pairs know one channel with the same latest balances, requests of the payer
  -- reach the other node, and the payment is one that the other node accepts. When Bob pays, the two
  -- nodes add states with the same balances and timestamp, but with the two signatures exchanged:
  -- the signature that Bob's node keeps as Alice's is one that verifies as Bob's.
  pub bob_pays :
      payer_is_alice ≡ false
      → (st st' : OffChainState) × (pay wa b.algo_account.address amount a
          ≡ (ok tt, log_state b.algo_account.address st a))
        × ((process_request wb ip
              (pay_request_of a.algo_account.address alice_after bob_after wa.now
                st.alice_signature)
              b).1
            ≡ log_state a.algo_account.address st' b)
        × (st'.alice_signature ≡ st.bob_signature)
        × (st'.bob_signature ≡ st.alice_signature)
        × (st'.alice_balance ≡ st.alice_balance)
        × (st'.bob_balance ≡ st.bob_balance)
        × (st'.timestamp ≡ st.timestamp)
        × (verify_state wa.sdk ia.app_id st.alice_balance st.bob_balance 4161 st.alice_signature
              a.algo_account.address st.timestamp
            ≡ true)
  unfolding paid_state agreed_state
  bob_pays is_false =
      let (sa, sb, ea, eb) = signatures in
      (
        paid_state ia.app_id alice_after bob_after wa.now sa sb,
        agreed_state true ib.app_id alice_after bob_after wa.now sb sa,
        payer_saves sa sb ea eb,
        ap (λ r. r.1) (receiver_saves sa sb ea eb)
            ∙ ap
                (λ side.
                  let st : OffChainState =
                    agreed_state (not side) ib.app_id alice_after bob_after wa.now sb sa in
                  log_state a.algo_account.address st b)
                is_false,
        refl,
        refl,
        refl,
        refl,
        refl,
        verify_state-sign_state wa.sdk a.algo_account shares.a_keys ia.app_id alice_after bob_after
            4161 wa.now sa ea,
      )
