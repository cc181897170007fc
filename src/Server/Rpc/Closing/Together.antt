-- ===== src/Server/Rpc/Closing/Together.antt =====
-- CooperativeCloseChannel on one node and the answer of the other.
use algorand_state_channels.Base.{
  ◌≡◌, inl, inr, ap, ◌∙◌, true, Bytes, bytes_eq_iff, codes, bytes_has_eq, some, [], ◌∷◌, arith,
  Option-cases, if◌then◌else◌,
}
use algorand_state_channels.Payment.Signing.{
  sign_close, verify_close, verify_close-sign_close, sign_close-ne-none,
}
use algorand_state_channels.Server.State.{
  Server, PaymentChannelInfo, OffChainState, P2PRequest, World,
}
use algorand_state_channels.Server.Action.{ok}
use algorand_state_channels.Server.Peer.{is_alice, process_request}
use algorand_state_channels.Server.Rpc.{can_close, cooperative_close}
use algorand_state_channels.Server.Rpc.Transfer.{exchange_of}
use algorand_state_channels.Server.Rpc.Agreement.{Shares}
use algorand_state_channels.Server.Rpc.Closing.{
  closed_together, close_channel_request_answers, process_request-close, cooperative_close_sends,
}

module _ (wa wb : World) (a b : Server) (ia ib : PaymentChannelInfo) (la lb : OffChainState)
    (ip : Bytes) (same_sdk : wb.sdk ≡ wa.sdk)
    (delivers : (r : P2PRequest)
      → wa.peer ia.partner_ip r ≡ exchange_of (process_request wb ip r b).0)
    (shares : Shares wa.sdk a b ia ib la lb) (same_time : la.timestamp ≡ lb.timestamp) where
  closing_signatures :
      (sa sb : Bytes) × (sign_close wa.sdk ia.app_id a.algo_account la.alice_balance la.bob_balance
          4161 la.timestamp
        ≡ some sa)
      × (sign_close wa.sdk ia.app_id b.algo_account la.alice_balance la.bob_balance 4161
            la.timestamp
          ≡ some sb)
  closing_signatures =
      elim (Option-cases (
        sign_close wa.sdk ia.app_id a.algo_account la.alice_balance la.bob_balance 4161
          la.timestamp)) [
            | inl e ↦ absurd (
                sign_close-ne-none wa.sdk a.algo_account shares.a_keys ia.app_id la.alice_balance
                  la.bob_balance 4161 la.timestamp e)
            | inr (sa, ea) ↦
                elim (Option-cases (
                  sign_close wa.sdk ia.app_id b.algo_account la.alice_balance la.bob_balance 4161
                    la.timestamp)) [
                      | inl e ↦ absurd (
                          sign_close-ne-none wa.sdk b.algo_account shares.b_keys ia.app_id
                            la.alice_balance la.bob_balance 4161 la.timestamp e)
                      | inr (sb, eb) ↦ (sa, sb, ea, eb)
                    ]
          ]

  -- What the partner answers.
  answer_together :
      (sa sb : Bytes)
      → sign_close wa.sdk ia.app_id a.algo_account la.alice_balance la.bob_balance 4161 la.timestamp
        ≡ some sa
      → sign_close wa.sdk ia.app_id b.algo_account la.alice_balance la.bob_balance 4161 la.timestamp
        ≡ some sb
      → process_request wb ip
          (record {
            command = codes "close_channel_request";
            args = a.algo_account.address ∷ sa ∷ [];
          })
          b
        ≡ (ok (record { message = codes "approve"; response_data = sb ∷ [] }), b)
  answer_together sa sb ea eb =
      let verified =
        verify_close-sign_close wa.sdk a.algo_account shares.a_keys ia.app_id la.alice_balance
          la.bob_balance 4161 la.timestamp sa ea in
      process_request-close wb ip (a.algo_account.address ∷ sa ∷ []) b b (sb ∷ []) (
        close_channel_request_answers wb b a.algo_account.address ib lb sa sb shares.b_knows
          (cc (
            same_sdk, shares.same_app, shares.same_alice_balance, shares.same_bob_balance,
            same_time, verified,
          ))
          (cc (
            same_sdk, shares.same_app, shares.same_alice_balance, shares.same_bob_balance,
            same_time, eb,
          )))

  -- Two nodes with key pairs know one channel with the same latest balances and timestamp, and
  -- requests of the caller reach the other node. If each side has the 1000 that a closing needs,
  -- the caller sends that state to the contract, with a signature that verifies as Alice's and one
  -- that verifies as Bob's, and forgets the channel.
  pub cooperative_close_agrees :
      can_close la ≡ true
      → (alice_signature bob_signature : Bytes) × (cooperative_close wa b.algo_account.address a
          ≡ (ok tt, closed_together b.algo_account.address ia la alice_signature bob_signature a))
        × (verify_close wa.sdk ia.app_id la.alice_balance la.bob_balance 4161 alice_signature
              ia.alice_address la.timestamp
            ≡ true)
        × (verify_close wa.sdk ia.app_id la.alice_balance la.bob_balance 4161 bob_signature
              (if is_alice ia a.algo_account.address
                then b.algo_account.address
                else a.algo_account.address)
              la.timestamp
            ≡ true)
  cooperative_close_agrees enough =
      let (sa, sb, ea, eb) = closing_signatures in
      let me_alice = is_alice ia a.algo_account.address in
      let a_verified =
        verify_close-sign_close wa.sdk a.algo_account shares.a_keys ia.app_id la.alice_balance
          la.bob_balance 4161 la.timestamp sa ea in
      let b_verified =
        verify_close-sign_close wa.sdk b.algo_account shares.b_keys ia.app_id la.alice_balance
          la.bob_balance 4161 la.timestamp sb eb in
      (
        if me_alice then sa else sb,
        if me_alice then sb else sa,
        cooperative_close_sends wa a b.algo_account.address ia la sa sb shares.a_knows enough ea
            (delivers _ ∙ ap (λ r. exchange_of r.0) (answer_together sa sb ea eb)) b_verified,
        ground (
          arith,
          a_verified,
          b_verified,
          shares.alice_is,
          bytes_eq_iff ia.alice_address a.algo_account.address,
        ),
        ground (arith, a_verified, b_verified),
      )
