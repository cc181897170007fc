-- ===== src/Server/Rpc/Failures.antt =====
-- How the RPC methods end when a partner cannot be reached or misbehaves.
use algorand_state_channels.Base.{
  ℕ, ◌≡◌, ◌≢◌, Bytes, bytes_has_eq, bytes_eq, bytes_eq_iff, codes, [], ◌∷◌, ◌++◌, arith,
}
use algorand_state_channels.Payment.Sdk.{Address}
use algorand_state_channels.Payment.Calls.{create_payment_app, setup_payment_app}
use algorand_state_channels.Server.State.{
  Server, PaymentChannelInfo, OffChainState, P2PRequest, P2PResponse, dial_failed, replied, World,
}
use algorand_state_channels.Server.Action.{Stop, stop, error, panic}
use algorand_state_channels.Server.Rpc.{
  refusal, send_request, open_channel, pay, exchange_payment, find_channel, find_latest,
}
use algorand_state_channels.Server.Rpc.Agreement.{Knows}

-- A payment of a known channel whose partner cannot be dialled ends in a panic, not in an error.
pub pay_unreachable :
    (w : World) (s : Server) (partner : Address) (info : PaymentChannelInfo)
    (latest : OffChainState) (amount : ℕ)
    → Knows s partner info latest
    → ((r : P2PRequest) → w.peer info.partner_ip r ≡ dial_failed)
    → pay w partner amount s ≡ (stop panic, s)
unfolding pay find_channel find_latest exchange_payment send_request
pay_unreachable w s partner info latest amount k unreachable =
    grind (arith, k.channel, k.logged, k.last)

-- A payment of a known channel whose partner approves every request without a signature ends in
-- a panic, not in an error.
pub pay_no_signature :
    (w : World) (s : Server) (partner : Address) (info : PaymentChannelInfo)
    (latest : OffChainState) (amount : ℕ)
    → Knows s partner info latest
    → ((r : P2PRequest)
        → w.peer info.partner_ip r
          ≡ replied (record { message = codes "approve"; response_data = [] }))
    → pay w partner amount s ≡ (stop panic, s)
unfolding pay find_channel find_latest exchange_payment send_request bytes_eq
pay_no_signature w s partner info latest amount k empty = grind (arith, k.channel, k.logged, k.last)

-- A payment that does not return normally leaves the paying node as it was: its channels, logs and
-- submissions. Of the partner's node this says nothing.
pub pay_atomic :
    (w : World) (s s' : Server) (partner : Address) (amount : ℕ) (e : Stop)
    → pay w partner amount s ≡ (stop e, s')
    → s' ≡ s
unfolding pay find_channel find_latest exchange_payment send_request
pay_atomic w s s' partner amount e h = ground arith

-- When the partner's answer to a new channel is not an approval, the creation and the funding of
-- the contract have been sent to the chain, and the node keeps no channel for it.
pub open_channel_refused :
    (w : World) (s : Server) (host : Bytes) (partner : Address) (funding penalty window : ℕ)
    (response : P2PResponse)
    → ((r : P2PRequest) → w.peer host r ≡ replied response)
    → response.message ≢ codes "approve"
    → open_channel w host partner funding penalty window s ≡ (
      stop (error (refusal response.message)),
      record s {
        submitted =
            (s.submitted
              ++ create_payment_app w.sdk w.compiler s.algo_account partner penalty window ∷ [])
            ++ setup_payment_app w.sdk w.created_app_id s.algo_account funding ∷ [];
      },
    )
unfolding open_channel send_request
open_channel_refused w s host partner funding penalty window response answers refused =
    grind (arith, bytes_eq_iff response.message (codes "approve"))
