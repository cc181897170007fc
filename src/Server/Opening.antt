-- ===== src/Server/Opening.antt =====
-- How a node adds a channel: OpenChannel, and the request of a partner to open one.
use algorand_state_channels.Base.{
  ℕ, ◌+◌, ◌≡◌, ◌⊎◌, inl, inr, refl, true, Bytes, bytes_has_eq, codes, none, some, List, [], ◌∷◌,
  ◌++◌, arith, Option-cases, Bool-cases, nat_has_eq, get_elem?, ◌==◌,
}
use algorand_state_channels.Base.Decimal.{parse_uint, format_uint}
use algorand_state_channels.Base.Word.{slt, IsWord}
use algorand_state_channels.Base.Dict.{lookup}
use algorand_state_channels.Payment.Sdk.{Address}
use algorand_state_channels.Payment.Calls.{create_payment_app, setup_payment_app}
use algorand_state_channels.Server.State.{
  Server, PaymentChannelInfo, Application, World, P2PRequest,
}
use algorand_state_channels.Server.GlobalState.{
  log_state, save_channel, first_state, new_channel_info, read_channel_info,
  save_payment_channel_on_chain_state,
}
use algorand_state_channels.Server.Invariant.{IsWellFormed, open-IsWellFormed}
use algorand_state_channels.Server.GlobalState.Checks.{security_checks-cases}
use algorand_state_channels.Server.Peer.{open_channel_request, update_watchtower_state}
use algorand_state_channels.Server.Rpc.{open_channel, opened_channel}
use algorand_state_channels.Server.Growth.{send_request-cases}

-- The server keeps its channels and logs.
pub record Keeps (s s' : Server) : Type 0 where
  pub same_channels : s'.onchain_states ≡ s.onchain_states
  pub same_logs : s'.offchain_states_log ≡ s.offchain_states_log

pub Keeps-IsWellFormed : (s s' : Server) → Keeps s s' → IsWellFormed s → IsWellFormed s'
Keeps-IsWellFormed s s' k h = record {
  channels = λ c info open_c.
      let (log, logged, good) = h.channels c info (ground (arith, k.same_channels)) in
      (log, ground (arith, k.same_logs), good);
}

-- OpenChannel keeps the channels and logs, or adds a channel with its first state.
pub open_channel-cases :
    (w : World) (host : Bytes) (partner : Address) (funding penalty window : ℕ) (s : Server)
    → let info =
        opened_channel host s.algo_account.address partner w.created_app_id funding penalty
          window in
      Keeps s (open_channel w host partner funding penalty window s).1
      ⊎ ((s' : Server) × Keeps s s'
          × ((open_channel w host partner funding penalty window s).1
              ≡ log_state partner (first_state w.now info) (save_channel partner info s')))
unfolding open_channel update_watchtower_state save_channel log_state
open_channel-cases w host partner funding penalty window s =
    let account = s.algo_account in
    let created : Server = record s {
      submitted =
          (s.submitted ++ create_payment_app w.sdk w.compiler account partner penalty window ∷ [])
          ++ setup_payment_app w.sdk w.created_app_id account funding ∷ [];
    } in
    let request : P2PRequest = record {
      command = codes "open_channel_request";
      args = format_uint w.created_app_id ∷ [];
    } in
    elim (send_request-cases w host request created) [
      | inl (e, failed) ↦ inl (record { same_channels = ground arith; same_logs = ground arith })
      | inr (response, answered) ↦ elim (Bool-cases (response.message == codes "approve")) [
        | inl approves ↦ inr (
          record created { watchtowers = s.watchtowers + 1 },
          record { same_channels = refl; same_logs = refl },
          ground arith,
        )
        | inr other ↦ inl (record { same_channels = ground arith; same_logs = ground arith })
      ]
    ]

-- A request to open a channel keeps the channels and logs, or adds the channel that the contract
-- of the request describes.
pub open_channel_request-cases :
    (w : World) (ip : Bytes) (args : List Bytes) (s : Server)
    → Keeps s (open_channel_request w ip args s).1
      ⊎ ((app_id_text : Bytes) × (app_id : ℕ) × (app : Application) × (info : PaymentChannelInfo)
          × (s' : Server) × (get_elem? args 0 ≡ some app_id_text)
          × (parse_uint app_id_text ≡ some app_id)
          × (w.application_by_id app_id ≡ some app)
          × (read_channel_info w app.global_state (new_channel_info ip app_id) ≡ some info)
          × Keeps s s'
          × ((open_channel_request w ip args s).1
              ≡ log_state info.alice_address
                  (first_state w.now info)
                  (save_channel info.alice_address info s')))
unfolding open_channel_request update_watchtower_state save_channel log_state
    save_payment_channel_on_chain_state
open_channel_request-cases w ip args s = elim (Option-cases (get_elem? args 0)) [
  | inl e0 ↦ inl (record { same_channels = ground arith; same_logs = ground arith })
  | inr (text, e0) ↦ elim (Option-cases (parse_uint text)) [
    | inl e1 ↦ inl (record { same_channels = ground arith; same_logs = ground arith })
    | inr (app_id, e1) ↦ elim (Option-cases (w.application_by_id app_id)) [
      | inl e2 ↦ inl (record { same_channels = ground arith; same_logs = ground arith })
      | inr (app, e2) ↦ elim (security_checks-cases w app s) [
        | inl (e, failed) ↦ inl (record { same_channels = ground arith; same_logs = ground arith })
        | inr (inl unsafe) ↦ inl (record { same_channels = ground arith; same_logs = ground arith })
        | inr (inr passed) ↦
            elim (Option-cases
              (read_channel_info w app.global_state (new_channel_info ip app_id))) [
                | inl e3 ↦ inl (record { same_channels = ground arith; same_logs = ground arith })
                | inr (info, e3) ↦ inr (
                  text,
                  app_id,
                  app,
                  info,
                  record s { watchtowers = s.watchtowers + 1 },
                  e0,
                  e1,
                  e2,
                  e3,
                  record { same_channels = refl; same_logs = refl },
                  ground arith,
                )
              ]
      ]
    ]
  ]
]

-- A channel that may be added at the time `now`: its balances make up its deposit, the time is
-- positive, and no log is kept of an earlier channel with the partner `c`.
pub record Opens (s : Server) (c : Address) (now : ℕ) (info : PaymentChannelInfo) : Type 0 where
  pub no_log : lookup c s.offchain_states_log ≡ none
  pub now_word : IsWord now
  pub now_positive : slt 0 now ≡ true
  pub alice_word : IsWord info.alice_onchain_balance
  pub bob_word : IsWord info.bob_onchain_balance
  pub whole : info.alice_onchain_balance + info.bob_onchain_balance ≡ info.total_deposit

pub opened-IsWellFormed :
    (s s' : Server) (c : Address) (now : ℕ) (info : PaymentChannelInfo)
    → Keeps s s'
    → Opens s c now info
    → IsWellFormed s
    → IsWellFormed (log_state c (first_state now info) (save_channel c info s'))
opened-IsWellFormed s s' c now info k o h =
    open-IsWellFormed s' c info (first_state now info) (Keeps-IsWellFormed s s' k h)
      (ground (arith, k.same_logs, o.no_log))
      (record {
        key_word = o.now_word;
        keyed = refl;
        alice_word = o.alice_word;
        bob_word = o.bob_word;
        conserved = ground (arith, o.whole);
      })
      o.now_positive
