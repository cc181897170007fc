-- ===== src/Server/Rpc/Closing.antt =====
-- How a node closes a channel: InitiateCloseChannel, FinalizeCloseChannel and, with the partner,
-- CooperativeCloseChannel.
pub mod Together
use algorand_state_channels.Base.{
  ℕ, ◌≡◌, ◌≢◌, ◌⊎◌, inl, inr, refl, ap, sym, ◌∙◌, Bool, true, false, not, Bytes, bytes_eq,
  bytes_eq_iff, codes, bytes_has_eq, Option, none, some, List, [], ◌∷◌, ◌++◌, arith, Bool-cases,
  Option-cases, if◌then◌else◌, ◌==◌,
}
use algorand_state_channels.Base.Dict.{lookup, lookup-erase}
use algorand_state_channels.Payment.Sdk.{Address}
use algorand_state_channels.Payment.Signing.{
  sign_close, verify_close, verify_close-sign_close, sign_close-ne-none,
}
use algorand_state_channels.Payment.Calls.{
  initiate_close_channel, finalize_close_channel, cooperative_close_channel,
}
use algorand_state_channels.Server.State.{
  Server, PaymentChannelInfo, OffChainState, P2PRequest, replied, World,
}
use algorand_state_channels.Server.Action.{Result, ok, stop, error, not_enough_balance, ◌>>=◌, ◌>>◌}
use algorand_state_channels.Server.Peer.{is_alice, close_channel_request, process_request}
use algorand_state_channels.Server.Watchtower.{forget_channel}
use algorand_state_channels.Server.Rpc.{
  find_channel, find_latest, can_close, submit_closing, initiate_close, finalize_close,
  cooperative_close, send_request,
}
use algorand_state_channels.Server.Rpc.Transfer.{exchange_of}
use algorand_state_channels.Server.Rpc.Agreement.{Knows, Shares}

-- The server that has also sent a call of the contract with the state `st`.
abbrev pub closing_sent : PaymentChannelInfo → OffChainState → Server → Server
closing_sent info st s = record s {
  submitted =
      s.submitted
      ++ initiate_close_channel s.algo_account 4161 info.app_id st.alice_balance st.bob_balance
          st.timestamp st.alice_signature st.bob_signature
        ∷ [];
}

-- InitiateCloseChannel of a known channel sends its latest state to the contract and keeps all
-- else, if each side has the 1000 that a closing needs; otherwise it changes nothing.
pub initiate_close_latest :
    (s : Server) (partner : Address) (info : PaymentChannelInfo) (latest : OffChainState)
    → Knows s partner info latest
    → initiate_close partner s ≡ (
        if can_close latest
        then (ok tt, closing_sent info latest s)
        else (stop (error not_enough_balance), s))
unfolding initiate_close find_channel find_latest submit_closing
initiate_close_latest s partner info latest k = ground (arith, k.channel, k.logged, k.last)

-- FinalizeCloseChannel of a known channel forgets that channel and no other, keeps the logs, and
-- sends one transaction, whose other account is the channel's other side.
pub finalize_close_forgets :
    (s : Server) (partner : Address) (info : PaymentChannelInfo)
    → lookup partner s.onchain_states ≡ some info
    → (info.alice_address ≡ s.algo_account.address) × (info.bob_address ≡ partner)
      ⊎ (info.bob_address ≡ s.algo_account.address) × (info.alice_address ≡ partner)
    → partner ≢ s.algo_account.address
    → (s' : Server) × (finalize_close partner s ≡ (ok tt, s'))
      × (s'.submitted
          ≡ s.submitted ++ finalize_close_channel s.algo_account partner info.app_id ∷ [])
      × (s'.offchain_states_log ≡ s.offchain_states_log)
      × ((c : Address)
          → lookup c s'.onchain_states ≡ (if partner == c then none else lookup c s.onchain_states))
unfolding finalize_close find_channel forget_channel
finalize_close_forgets s partner info known sides distinct = (
  forget_channel partner (record s {
    submitted = s.submitted ++ finalize_close_channel s.algo_account partner info.app_id ∷ [];
  }),
  ground (arith, bytes_eq_iff s.algo_account.address info.alice_address),
  refl,
  refl,
  λ c. lookup-erase partner c s.onchain_states,
)

-- The partner's answer to a signature over the latest state that both have.
pub close_channel_request_answers :
    (w : World) (s : Server) (c : Address) (info : PaymentChannelInfo) (latest : OffChainState)
    (theirs mine : Bytes)
    → Knows s c info latest
    → verify_close w.sdk info.app_id latest.alice_balance latest.bob_balance 4161 theirs c
        latest.timestamp
      ≡ true
    → sign_close w.sdk info.app_id s.algo_account latest.alice_balance latest.bob_balance 4161
        latest.timestamp
      ≡ some mine
    → close_channel_request w (c ∷ theirs ∷ []) s ≡ (ok (mine ∷ []), s)
unfolding close_channel_request
close_channel_request_answers w s c info latest theirs mine k v e =
    ground (arith, k.channel, k.logged, k.last)

pub process_request-close :
    (w : World) (ip : Bytes) (args : List Bytes) (s s' : Server) (d : List Bytes)
    → close_channel_request w args s ≡ (ok d, s')
    → process_request w ip (record { command = codes "close_channel_request"; args = args }) s
      ≡ (ok (record { message = codes "approve"; response_data = d }), s')
unfolding process_request bytes_eq
process_request-close w ip args s s' d e = ground arith

-- The server that has closed a channel together with the partner.
abbrev pub closed_together :
    Address → PaymentChannelInfo → OffChainState → Bytes → Bytes → Server → Server
closed_together partner info st alice_signature bob_signature s = forget_channel partner (record s {
  submitted =
      s.submitted
      ++ cooperative_close_channel s.algo_account partner 4161 info.app_id st.alice_balance
          st.bob_balance st.timestamp alice_signature bob_signature
        ∷ [];
})

pub cooperative_close_sends :
    (w : World) (s : Server) (partner : Address) (info : PaymentChannelInfo)
    (latest : OffChainState) (mine theirs : Bytes)
    → Knows s partner info latest
    → can_close latest ≡ true
    → sign_close w.sdk info.app_id s.algo_account latest.alice_balance latest.bob_balance 4161
        latest.timestamp
      ≡ some mine
    → w.peer info.partner_ip (record {
      command = codes "close_channel_request";
      args = s.algo_account.address ∷ mine ∷ [];
    })
      ≡ replied (record { message = codes "approve"; response_data = theirs ∷ [] })
    → verify_close w.sdk info.app_id latest.alice_balance latest.bob_balance 4161 theirs partner
        latest.timestamp
      ≡ true
    → let me_alice = is_alice info s.algo_account.address in
      cooperative_close w partner s ≡ (
        ok tt,
        closed_together partner info latest
            (if me_alice then mine else theirs)
            (if me_alice then theirs else mine)
            s,
      )
unfolding cooperative_close find_channel find_latest send_request bytes_eq
cooperative_close_sends w s partner info latest mine theirs k enough signed answered verified =
    grind (arith, k.channel, k.logged, k.last)
