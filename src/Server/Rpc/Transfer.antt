-- ===== src/Server/Rpc/Transfer.antt =====
-- A payment between two nodes: the payer's Pay and the receiver's handleConnection, joined by a
-- network that carries the request and the response unchanged.
use algorand_state_channels.Base.{
  ℕ, ◌≡◌, true, Bytes, bytes_eq, bytes_has_eq, List, [], ◌∷◌, arith, nat_has_eq, codes,
}
use algorand_state_channels.Base.Word.{IsWord}
use algorand_state_channels.Base.BigEndian.{uint64-put_uint64}
use algorand_state_channels.Payment.Sdk.{Account, Address}
use algorand_state_channels.Payment.Signing.{verify_state}
use algorand_state_channels.Server.State.{
  Server, PaymentChannelInfo, P2PResponse, Exchange, read_failed, replied, World,
}
use algorand_state_channels.Server.Action.{Result, ok, stop}
use algorand_state_channels.Server.GlobalState.{log_state}
use algorand_state_channels.Server.Peer.{process_payment, pay_request, process_request}
use algorand_state_channels.Server.Rpc.{send_request, pay_request_of, paid_state, exchange_payment}

-- What the payer reads when the receiver's handler has ended: its response, or a connection that
-- the death of the process has closed.
abbrev pub exchange_of : Result P2PResponse → Exchange
exchange_of (ok response) = replied response
exchange_of (stop _) = read_failed

-- The arguments that Pay writes for balances and a time below 2 ^ 64 are read back as they were: the
-- request runs as a payment of these values, however that ends.
pub pay_request-pay_request_of :
    (w : World) (payer : Address) (alice bob t : ℕ) (signature : Bytes) (s : Server)
    → IsWord alice × IsWord bob × IsWord t
    → pay_request w (pay_request_of payer alice bob t signature).args s
      ≡ process_payment w payer alice bob t signature s
unfolding pay_request pay_request_of
pay_request-pay_request_of w payer alice bob t signature s h =
    ground (arith, uint64-put_uint64 alice, uint64-put_uint64 bob, uint64-put_uint64 t)

pub process_request-pay_request_of :
    (w : World) (ip : Bytes) (payer : Address) (alice bob t : ℕ) (signature : Bytes) (s s' : Server)
    (d : List Bytes)
    → IsWord alice × IsWord bob × IsWord t
    → process_payment w payer alice bob t signature s ≡ (ok d, s')
    → process_request w ip (pay_request_of payer alice bob t signature) s
      ≡ (ok (record { message = codes "approve"; response_data = d }), s')
unfolding process_request pay_request_of bytes_eq
process_request-pay_request_of w ip payer alice bob t signature s s' d h e =
    ground (arith, pay_request-pay_request_of w payer alice bob t signature s h)

-- Pay, where the partner approves with a signature that verifies.
pub exchange_payment_saves :
    (w : World) (account : Account) (info : PaymentChannelInfo) (partner : Address) (alice bob : ℕ)
    (my_signature partner_signature : Bytes) (s : Server)
    → w.peer info.partner_ip (pay_request_of account.address alice bob w.now my_signature)
      ≡ replied (record { message = codes "approve"; response_data = partner_signature ∷ [] })
    → verify_state w.sdk info.app_id alice bob 4161 partner_signature partner w.now ≡ true
    → exchange_payment w account info partner alice bob my_signature s ≡ (
      ok tt,
      log_state partner (paid_state info.app_id alice bob w.now my_signature partner_signature) s,
    )
unfolding exchange_payment send_request bytes_eq
exchange_payment_saves w account info partner alice bob my_signature partner_signature s e v =
    ground arith
