-- ===== src/Process/Transport/Requests.antt =====
-- A pay request on its way to the receiver's process, which may lose it or its response.
use mathlib.Core.Path.{subst}
use algorand_state_channels.Base.{
  ℕ, ◌≡◌, ◌≢◌, ◌⊎◌, inl, inr, ap, sym, ◌∙◌, Bytes, bytes_eq, bytes_has_eq, nat_has_eq, codes, [],
  arith, Option-cases,
}
use algorand_state_channels.Base.Word.{IsWord}
use algorand_state_channels.Payment.Sdk.{Address}
use algorand_state_channels.Server.State.{
  Server, PaymentChannelInfo, OffChainState, PaymentLog, P2PRequest, P2PResponse, Exchange, replied,
  World,
}
use algorand_state_channels.Server.Action.{Result, Stop, reject, error, fatal, panic, ok, stop}
use algorand_state_channels.Server.GlobalState.{log_state}
use algorand_state_channels.Server.Peer.{
  is_alice, agreed_state, process_payment, process_request, handle_connection,
}
use algorand_state_channels.Server.Peer.Acceptance.{
  Accepted, process_payment_inversion, process_payment_atomic,
}
use algorand_state_channels.Server.Rpc.{pay_request_of}
use algorand_state_channels.Server.Rpc.Transfer.{
  pay_request-pay_request_of, process_request-pay_request_of,
}
use algorand_state_channels.Server.Steps.{Result-cases}
use algorand_state_channels.Process.{Json, read_request}
use algorand_state_channels.Process.Transport.{
  ClientJson, IsJson, read_response, reply_bytes, exchange_over,
}

-- The receiver has accepted a payment and has added it to its log.
pub record HasLogged (w : World) (payer : Address) (alice bob t : ℕ) (signature : Bytes)
    (s s' : Server) : Type 0 where
  pub info : PaymentChannelInfo
  pub payment_log : PaymentLog
  pub latest : OffChainState
  pub my_signature : Bytes
  pub accepted : Accepted w payer alice bob t signature s info payment_log latest my_signature
  pub logged :
      s'
      ≡ log_state payer
          (agreed_state
            (is_alice info s.algo_account.address)
            info.app_id
            alice
            bob
            t
            my_signature
            signature)
          s

-- The payer has read no approval.
abbrev pub NoApproval : Exchange → Type 0
NoApproval x = (response : P2PResponse) → x ≡ replied response → response.message ≢ codes "approve"

-- A payment that is not accepted is rejected, or ends the receiver's process.
stopped_request :
    (w : World) (ip : Bytes) (payer : Address) (alice bob t : ℕ) (signature : Bytes) (s s' : Server)
    (e : Stop)
    → IsWord alice × IsWord bob × IsWord t
    → process_payment w payer alice bob t signature s ≡ (stop e, s')
    → let r = pay_request_of payer alice bob t signature in
      (process_request w ip r s ≡ (stop e, s'))
      ⊎ (process_request w ip r s
          ≡ (ok (record { message = codes "reject"; response_data = [] }), s'))
unfolding process_request pay_request_of bytes_eq
stopped_request w ip payer alice bob t signature s s' reject words h =
    inr (ground (arith, pay_request-pay_request_of w payer alice bob t signature s words))
stopped_request w ip payer alice bob t signature s s' (error x) words h =
    inl (ground (arith, pay_request-pay_request_of w payer alice bob t signature s words))
stopped_request w ip payer alice bob t signature s s' fatal words h =
    inl (ground (arith, pay_request-pay_request_of w payer alice bob t signature s words))
stopped_request w ip payer alice bob t signature s s' panic words h =
    inl (ground (arith, pay_request-pay_request_of w payer alice bob t signature s words))

module _ (w : World) (json : Json) (client : ClientJson) (ip : Bytes) (r : P2PRequest) (s : Server)
    (is_json : IsJson json client r) where
  -- A request is lost, or it is handled and its response is on its way back.
  exchange_over-cases :
      (((exchange_over w json client ip r s).1 ≡ s)
        × NoApproval (exchange_over w json client ip r s).0)
      ⊎ (exchange_over w json client ip r s ≡ (
        read_response client (reply_bytes json (process_request w ip r s).0),
        (process_request w ip r s).1,
      ))
  unfolding exchange_over read_request handle_connection read_response
  exchange_over-cases = elim (Option-cases (client.marshal_request r)) [
    | inl unsent ↦ inl (ground arith, λ response e. ground arith)
    | inr (text, sent) ↦ elim (is_json.request_reads text sent) [
      | inl cut ↦ inl (ground arith, λ response e. ground arith)
      | inr whole ↦ inr (ground arith)
    ]
  ]

  -- A response that is no approval is read as none.
  read_response-NoApproval :
      (response : P2PResponse)
      → response.message ≢ codes "approve"
      → NoApproval (read_response client (reply_bytes json (ok response)))
  unfolding read_response
  read_response-NoApproval response refused = elim (Option-cases (json.marshal_response response)) [
    | inl unsent ↦ λ other e. ground arith
    | inr (text, sent) ↦ elim (is_json.response_reads response text sent) [
      | inl cut ↦ λ other e. ground arith
      | inr whole ↦ λ other e approves. refused (ground arith)
    ]
  ]

-- A request that is handled and not accepted.
not_accepted :
    (w : World) (json : Json) (client : ClientJson) (ip : Bytes) (payer : Address) (alice bob t : ℕ)
    (signature : Bytes) (s : Server)
    → IsWord alice × IsWord bob × IsWord t
    → (is_json : IsJson json client (pay_request_of payer alice bob t signature))
    → let r = pay_request_of payer alice bob t signature in
      let x = exchange_over w json client ip r s in
      (e : Stop)
      → process_payment w payer alice bob t signature s
        ≡ (stop e, (process_payment w payer alice bob t signature s).1)
      → x ≡ (
        read_response client (reply_bytes json (process_request w ip r s).0),
        (process_request w ip r s).1,
      )
      → (x.1 ≡ s) × NoApproval x.0
unfolding read_response
not_accepted w json client ip payer alice bob t signature s words is_json e stops handled =
    let after = (process_payment w payer alice bob t signature s).1 in
    let same = process_payment_atomic w payer alice bob t signature s after e stops in
    let rejection : P2PResponse = record { message = codes "reject"; response_data = [] } in
    let r = pay_request_of payer alice bob t signature in
    let read = λ (y : Result P2PResponse × Server). read_response client (reply_bytes json y.0) in
    elim (stopped_request w ip payer alice bob t signature s after e words stops) [
      | inl ends ↦ (
        ap (λ x. x.1) handled ∙ ap (λ x. x.1) ends ∙ same,
        subst NoApproval (sym (ap (λ x. x.0) handled ∙ ap read ends)) (λ response x. ground arith),
      )
      | inr rejects ↦ (
        ap (λ x. x.1) handled ∙ ap (λ x. x.1) rejects ∙ same,
        subst NoApproval (sym (ap (λ x. x.0) handled ∙ ap read rejects))
            (read_response-NoApproval w json client ip r s is_json rejection (λ x. ground arith)),
      )
    ]

-- What becomes of a pay request: the receiver is as it was and the payer reads no approval, or the
-- receiver has logged the payment.
pub received_pay :
    (w : World) (json : Json) (client : ClientJson) (ip : Bytes) (payer : Address) (alice bob t : ℕ)
    (signature : Bytes) (s : Server)
    → IsWord alice × IsWord bob × IsWord t
    → IsJson json client (pay_request_of payer alice bob t signature)
    → let x = exchange_over w json client ip (pay_request_of payer alice bob t signature) s in
      ((x.1 ≡ s) × NoApproval x.0) ⊎ HasLogged w payer alice bob t signature s x.1
received_pay w json client ip payer alice bob t signature s words is_json =
    let r = pay_request_of payer alice bob t signature in
    elim (exchange_over-cases w json client ip r s is_json) [
      | inl lost ↦ inl lost
      | inr handled ↦ elim (Result-cases (process_payment w payer alice bob t signature s)) [
        | inl (d, accepts) ↦
            let after = (process_payment w payer alice bob t signature s).1 in
            let (info, payment_log, latest, my_signature, accepted, _, logged) =
              process_payment_inversion w payer alice bob t signature s after d accepts in
            let runs =
              process_request-pay_request_of w ip payer alice bob t signature s after d words
                accepts in
            inr (record {
              info = info;
              payment_log = payment_log;
              latest = latest;
              my_signature = my_signature;
              accepted = accepted;
              logged = ap (λ x. x.1) handled ∙ ap (λ x. x.1) runs ∙ logged;
            })
        | inr (e, stops) ↦ inl (
            not_accepted w json client ip payer alice bob t signature s words is_json e stops
              handled)
      ]
    ]
