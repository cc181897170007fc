-- ===== src/Server/Reach/Distinct.antt =====
-- No two channels of a node have one partner.
use mathlib.Core.Path.{subst}
use algorand_state_channels.Base.{
  ℕ, ◌≡◌, inl, inr, sym, ◌∙◌, ap, Bytes, bytes_has_eq, nat_has_eq, List, [], ◌∷◌, arith,
}
use algorand_state_channels.Base.Dict.{Dict, insert}
use algorand_state_channels.Base.Dict.Keys.{HasDistinct, insert-HasDistinct, erase-HasDistinct}
use algorand_state_channels.Payment.Sdk.{Address}
use algorand_state_channels.Server.State.{Server, PaymentChannelInfo, World}
use algorand_state_channels.Server.Action.{ok}
use algorand_state_channels.Server.GlobalState.{save_channel, log_state, first_state}
use algorand_state_channels.Server.Invariant.{Drops}
use algorand_state_channels.Server.Opening.{Keeps, open_channel-cases, open_channel_request-cases}
use algorand_state_channels.Server.Peer.{pay_request, process_payment, open_channel_request}
use algorand_state_channels.Server.Rpc.{
  pay, find_channel, find_latest, exchange_payment, send_request, open_channel, opened_channel,
  initiate_close, finalize_close, cooperative_close, try_to_cheat,
}
use algorand_state_channels.Server.Start.{initialize_server, reset, fund_account, deliver}
use algorand_state_channels.Server.Steps.{
  watch_channel-Drops, initiate_close-Drops, finalize_close-Drops, cooperative_close-Drops,
  try_to_cheat-Drops, continue-keeps, close_channel_request_pure,
}
use algorand_state_channels.Server.Watchtower.{watch_channel, watch_channels, watch_round}
use algorand_state_channels.Server.Reach.{
  Reach, starts, next, Step, resets, opens, open_requested, pays, pay_requested, close_requested,
  initiates_close, finalizes_close, closes, cheats, watches_channel, watches,
}

abbrev Channels : Server → Type 0
Channels s = HasDistinct s.onchain_states

same-Channels : (s s' : Server) → s'.onchain_states ≡ s.onchain_states → Channels s → Channels s'
same-Channels s s' e h = subst HasDistinct (sym e) h

Drops-Channels : (c : Address) (s s' : Server) → Drops c s s' → Channels s → Channels s'
Drops-Channels c s s' d h = elim d.dropped [
  | inl same ↦ same-Channels s s' same h
  | inr less ↦ subst HasDistinct (sym less) (erase-HasDistinct c s.onchain_states h)
]

added-Channels :
    (s s' after : Server) (c : Address) (info : PaymentChannelInfo) (now : ℕ)
    → Keeps s s'
    → after ≡ log_state c (first_state now info) (save_channel c info s')
    → Channels s
    → Channels after
unfolding log_state save_channel
added-Channels s s' after c info now k e h =
    let more : after.onchain_states ≡ insert c info s.onchain_states =
      ap (λ x. x.onchain_states) e ∙ ap (insert c info) k.same_channels in
    subst HasDistinct (sym more) (insert-HasDistinct c info s.onchain_states h)

pay-same :
    (w : World) (partner : Address) (amount : ℕ) (s : Server)
    → (pay w partner amount s).1.onchain_states ≡ s.onchain_states
unfolding pay find_channel find_latest exchange_payment send_request log_state
pay-same w partner amount s = ground arith

pay_request-same :
    (w : World) (args : List Bytes) (s : Server)
    → (pay_request w args s).1.onchain_states ≡ s.onchain_states
unfolding pay_request process_payment log_state
pay_request-same w args s = ground arith

watch_channels-Channels :
    (w : World) (channels : Dict Address PaymentChannelInfo) (s : Server)
    → Channels s
    → Channels (watch_channels w channels s).1
unfolding watch_channels
watch_channels-Channels w [] s h = h
watch_channels-Channels w ((c, info) ∷ rest) s h =
    let first =
      Drops-Channels c s (watch_channel w c info s).1 (watch_channel-Drops w c info s) h in
    continue-keeps Channels (λ _. watch_channels w rest) (watch_channel w c info s) s first
      (λ _ s' g. watch_channels-Channels w rest s' g)

no_entries-Channels : (s : Server) → s.onchain_states ≡ [] → Channels s
no_entries-Channels s e = subst HasDistinct (sym e) tt

Step-Channels : {s s' : Server} → Step s s' → Channels s → Channels s'
unfolding reset fund_account deliver watch_round
Step-Channels (resets w s) h = no_entries-Channels (reset w s).1 (ground arith)
Step-Channels (opens w host partner funding penalty window s o) h =
    let after = (open_channel w host partner funding penalty window s).1 in
    let info =
      opened_channel host s.algo_account.address partner w.created_app_id funding penalty window in
    elim (open_channel-cases w host partner funding penalty window s) [
      | inl k ↦ same-Channels s after k.same_channels h
      | inr (s', k, e) ↦ added-Channels s s' after partner info w.now k e h
    ]
Step-Channels (open_requested w ip args s o) h =
    let after = (open_channel_request w ip args s).1 in
    elim (open_channel_request-cases w ip args s) [
      | inl k ↦ same-Channels s after k.same_channels h
      | inr (text, app_id, app, info, s', _, _, known, reads, k, e) ↦
          added-Channels s s' after info.alice_address info w.now k e h
    ]
Step-Channels (pays w partner amount s words) h =
    same-Channels s (pay w partner amount s).1 (pay-same w partner amount s) h
Step-Channels (pay_requested w args s bytes) h =
    same-Channels s (pay_request w args s).1 (pay_request-same w args s) h
Step-Channels (close_requested w args s) h =
    subst Channels (sym (close_channel_request_pure w args s)) h
Step-Channels (initiates_close partner s) h =
    Drops-Channels partner s (initiate_close partner s).1 (initiate_close-Drops partner s) h
Step-Channels (finalizes_close partner s) h =
    Drops-Channels partner s (finalize_close partner s).1 (finalize_close-Drops partner s) h
Step-Channels (closes w partner s) h =
    Drops-Channels partner s (cooperative_close w partner s).1 (cooperative_close-Drops w partner s)
      h
Step-Channels (cheats partner s) h =
    Drops-Channels partner s (try_to_cheat partner s).1 (try_to_cheat-Drops partner s) h
Step-Channels (watches_channel w address info s) h =
    Drops-Channels address s (watch_channel w address info s).1
      (watch_channel-Drops w address info s) h
Step-Channels (watches w s) h = watch_channels-Channels w s.onchain_states s h

start-Channels : (w : World) (s s' : Server) → initialize_server w s ≡ (ok tt, s') → Channels s'
unfolding initialize_server fund_account deliver
start-Channels w s s' e = no_entries-Channels s' (ground arith)

-- No two open channels of a reached node have one partner.
pub Reach-HasDistinct : {s : Server} → Reach s → HasDistinct s.onchain_states
Reach-HasDistinct (starts w s s' e) = start-Channels w s s' e
Reach-HasDistinct (next r st) = Step-Channels st (Reach-HasDistinct r)
