-- ===== src/Server/Reach.antt =====
-- The node as a state machine: its start and its operations, in any order.
pub mod Distinct
use mathlib.Core.Path.{subst}
use algorand_state_channels.Base.{
  ℕ, ◌+◌, ◌%◌, ◌≡◌, inl, inr, sym, Bytes, IsBytes, All, bytes_has_eq, some, List, [], arith,
  Option-cases, nat_has_eq,
}
use algorand_state_channels.Base.Word.{IsWord, word_mod}
use algorand_state_channels.Base.Dict.{lookup}
use algorand_state_channels.Payment.Sdk.{Address}
use algorand_state_channels.Server.State.{
  Server, PaymentChannelInfo, OffChainState, Application, World,
}
use algorand_state_channels.Server.Action.{ok}
use algorand_state_channels.Server.GlobalState.{new_channel_info, read_channel_info}
use algorand_state_channels.Server.Invariant.{IsLog-latest, IsWellFormed, Drops-IsWellFormed}
use algorand_state_channels.Server.Log.{get_latest_off_chain_state}
use algorand_state_channels.Server.Peer.Progress.{get_latest_off_chain_state-IsEntry}
use algorand_state_channels.Server.Peer.{open_channel_request, pay_request, close_channel_request}
use algorand_state_channels.Server.Start.{initialize_server, reset, fund_account, deliver}
use algorand_state_channels.Server.Rpc.{
  open_channel, opened_channel, pay, initiate_close, finalize_close, cooperative_close,
  try_to_cheat, find_latest,
}
use algorand_state_channels.Server.Watchtower.{watch_channel, watch_round}
use algorand_state_channels.Server.Opening.{
  Keeps-IsWellFormed, Opens, opened-IsWellFormed, open_channel-cases, open_channel_request-cases,
}
use algorand_state_channels.Server.Growth.{pay-IsWellFormed}
use algorand_state_channels.Server.Steps.{
  pay_request-IsWellFormed, close_channel_request_pure, watch_round-IsWellFormed,
  initiate_close-Drops, finalize_close-Drops, cooperative_close-Drops, try_to_cheat-Drops,
  watch_channel-Drops,
}

-- The operations of a node and what they need. A contract that a request to open a channel names
-- has a state that describes a channel which may be added.
pub data Step : Server → Server → Type 0 where
  resets : (w : World) (s : Server) → Step s (reset w s).1
  opens :
      (w : World) (host : Bytes) (partner : Address) (funding penalty window : ℕ) (s : Server)
      → Opens s partner w.now (
          opened_channel host s.algo_account.address partner w.created_app_id funding penalty
            window)
      → Step s (open_channel w host partner funding penalty window s).1
  open_requested :
      (w : World) (ip : Bytes) (args : List Bytes) (s : Server)
      → ((app_id : ℕ) (app : Application) (info : PaymentChannelInfo)
          → w.application_by_id app_id ≡ some app
          → read_channel_info w app.global_state (new_channel_info ip app_id) ≡ some info
          → Opens s info.alice_address w.now info)
      → Step s (open_channel_request w ip args s).1
  pays :
      (w : World) (partner : Address) (amount : ℕ) (s : Server)
      → IsWord w.now × IsWord amount
      → Step s (pay w partner amount s).1
  pay_requested :
      (w : World) (args : List Bytes) (s : Server)
      → All IsBytes args
      → Step s (pay_request w args s).1
  close_requested :
      (w : World) (args : List Bytes) (s : Server) → Step s (close_channel_request w args s).1
  initiates_close : (partner : Address) (s : Server) → Step s (initiate_close partner s).1
  finalizes_close : (partner : Address) (s : Server) → Step s (finalize_close partner s).1
  closes : (w : World) (partner : Address) (s : Server) → Step s (cooperative_close w partner s).1
  cheats : (partner : Address) (s : Server) → Step s (try_to_cheat partner s).1
  watches_channel :
      (w : World) (address : Address) (info : PaymentChannelInfo) (s : Server)
      → Step s (watch_channel w address info s).1
  watches : (w : World) (s : Server) → Step s (watch_round w s).1

-- What a node reaches from its start, whose server before initializeServer is arbitrary.
pub data Reach : Server → Type 0 where
  starts : (w : World) (s s' : Server) → initialize_server w s ≡ (ok tt, s') → Reach s'
  next : {s s' : Server} → Reach s → Step s s' → Reach s'

no_channels-IsWellFormed : (s : Server) → s.onchain_states ≡ [] → IsWellFormed s
unfolding lookup
no_channels-IsWellFormed s e = record { channels = λ c info open_c. absurd (ground arith) }

-- Every step keeps the invariant, also one that ends in an error.
pub Step-IsWellFormed : {s s' : Server} → Step s s' → IsWellFormed s → IsWellFormed s'
unfolding reset fund_account deliver
Step-IsWellFormed (resets w s) h = no_channels-IsWellFormed (reset w s).1 (ground arith)
Step-IsWellFormed (opens w host partner funding penalty window s o) h =
    elim (open_channel-cases w host partner funding penalty window s) [
      | inl k ↦ Keeps-IsWellFormed s (open_channel w host partner funding penalty window s).1 k h
      | inr (s', k, e) ↦ subst IsWellFormed (sym e) (
          opened-IsWellFormed s s' partner w.now
            (opened_channel host s.algo_account.address partner w.created_app_id funding penalty
              window)
            k o h)
    ]
Step-IsWellFormed (open_requested w ip args s o) h = elim (open_channel_request-cases w ip args s) [
  | inl k ↦ Keeps-IsWellFormed s (open_channel_request w ip args s).1 k h
  | inr (text, app_id, app, info, s', _, _, known, reads, k, e) ↦
      subst IsWellFormed (sym e)
        (opened-IsWellFormed s s' info.alice_address w.now info k (o app_id app info known reads) h)
]
Step-IsWellFormed (pays w partner amount s words) h = pay-IsWellFormed w s partner amount words h
Step-IsWellFormed (pay_requested w args s bytes) h = pay_request-IsWellFormed w args s bytes h
Step-IsWellFormed (close_requested w args s) h =
    subst IsWellFormed (sym (close_channel_request_pure w args s)) h
Step-IsWellFormed (initiates_close partner s) h =
    Drops-IsWellFormed partner s (initiate_close partner s).1 (initiate_close-Drops partner s) h
Step-IsWellFormed (finalizes_close partner s) h =
    Drops-IsWellFormed partner s (finalize_close partner s).1 (finalize_close-Drops partner s) h
Step-IsWellFormed (closes w partner s) h =
    Drops-IsWellFormed partner s (cooperative_close w partner s).1
      (cooperative_close-Drops w partner s) h
Step-IsWellFormed (cheats partner s) h =
    Drops-IsWellFormed partner s (try_to_cheat partner s).1 (try_to_cheat-Drops partner s) h
Step-IsWellFormed (watches_channel w address info s) h =
    Drops-IsWellFormed address s (watch_channel w address info s).1
      (watch_channel-Drops w address info s) h
Step-IsWellFormed (watches w s) h = watch_round-IsWellFormed w s h

start-IsWellFormed :
    (w : World) (s s' : Server) → initialize_server w s ≡ (ok tt, s') → IsWellFormed s'
unfolding initialize_server fund_account deliver
start-IsWellFormed w s s' e = no_channels-IsWellFormed s' (ground arith)

-- Whatever a node does from its start on, under the conditions that its steps name, every open
-- channel has a log: its entries stand under their timestamps, hold uint64 balances with the sum
-- of the channel's deposit in uint64 arithmetic, and one of them has a positive timestamp.
pub Reach-IsWellFormed : {s : Server} → Reach s → IsWellFormed s
Reach-IsWellFormed (starts w s s' e) = start-IsWellFormed w s s' e
Reach-IsWellFormed (next r st) = Step-IsWellFormed st (Reach-IsWellFormed r)

-- For every open channel of a reached node, the latest state of its log is found, and its balances
-- have the sum of the channel's deposit in uint64 arithmetic.
pub Reach-find_latest :
    {s : Server} (partner : Address) (info : PaymentChannelInfo)
    → Reach s
    → lookup partner s.onchain_states ≡ some info
    → (latest : OffChainState) × (find_latest partner s ≡ (ok latest, s))
      × ((latest.alice_balance + latest.bob_balance) % word_mod ≡ info.total_deposit % word_mod)
unfolding find_latest
Reach-find_latest {s} partner info r open_partner =
    let (log, logged, good) = (Reach-IsWellFormed r).channels partner info open_partner in
    elim (Option-cases (get_latest_off_chain_state log)) [
      | inl missing ↦ absurd (IsLog-latest info.total_deposit log good missing)
      | inr (latest, last) ↦
          let (entry, _) =
            get_latest_off_chain_state-IsEntry info.total_deposit log latest good last in
          (latest, ground arith, entry.conserved)
    ]
