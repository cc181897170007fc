-- ===== src/Process/Running.antt =====
-- What the events of a process do to its node, also the event that ends the process.
use mathlib.Core.Path.{subst}
use algorand_state_channels.Base.{
  ℕ, ◌+◌, ◌%◌, ◌≡◌, ◌⊎◌, inl, inr, refl, sym, ◌∙◌, Bool, IsBytes, All, Bytes, codes, bytes_has_eq,
  bytes_eq_iff, some, List, [], ◌∷◌, ltb, ◌==◌, arith, Option-cases, Bool-cases,
}
use algorand_state_channels.Base.Word.{IsWord, word_mod}
use algorand_state_channels.Base.Dict.{lookup}
use algorand_state_channels.Payment.Sdk.{Address}
use algorand_state_channels.Server.Rpc.{find_latest}
use algorand_state_channels.Server.State.{
  Server, PaymentChannelInfo, OffChainState, Application, P2PRequest, World,
}
use algorand_state_channels.Server.Action.{ok}
use algorand_state_channels.Server.GlobalState.{new_channel_info, read_channel_info}
use algorand_state_channels.Server.Opening.{Opens}
use algorand_state_channels.Server.Peer.{
  process_request, handle_connection, open_channel_request, pay_request, close_channel_request,
}
use algorand_state_channels.Server.Rpc as Rpc
use algorand_state_channels.Server.Start as Start
use algorand_state_channels.Server.Start.{initialize_server}
use algorand_state_channels.Server.Watchtower.{watch_round}
use algorand_state_channels.Server.Reach.{
  Reach-find_latest, Reach, starts, next, Step, resets, opens, open_requested, pays, pay_requested,
  close_requested, initiates_close, finalizes_close, closes, cheats, watches,
}
use algorand_state_channels.Server.Steps.{responds}
use algorand_state_channels.Cli.{
  Request, reset, get_info, open_channel, pay, cooperative_close_channel, initiate_close_channel,
  finalize_close_channel, try_to_cheat,
}
use algorand_state_channels.Cli.Serving.{nothing, app_id_of, serve}
use algorand_state_channels.Process as Process
use algorand_state_channels.Process.{
  Json, Connection, Event, accept_fails, connects, calls, Listeners, read_request, serve_connection,
  handle, run_events, serving_fails, write_response, is_end, load_main, start_listening, new_server,
}

-- A step, or none.
abbrev AtMostStep : Server → Server → Type 0
AtMostStep s s' = (s' ≡ s) ⊎ Step s s'

-- What the node relies on in a request of a peer, where it opens a channel: the contract describes a
-- channel that may be added. Arguments are bytes.
pub record Suits (w : World) (ip : Bytes) (request : P2PRequest) (s : Server) : Type 0 where
  pub bytes : All IsBytes request.args
  pub describes :
      (app_id : ℕ) (app : Application) (info : PaymentChannelInfo)
      → request.command ≡ codes "open_channel_request"
      → w.application_by_id app_id ≡ some app
      → read_channel_info w app.global_state (new_channel_info ip app_id) ≡ some info
      → Opens s info.alice_address w.now info

process_request-AtMostStep :
    (w : World) (ip : Bytes) (r : P2PRequest) (s : Server)
    → Suits w ip r s
    → AtMostStep s (process_request w ip r s).1
unfolding process_request
process_request-AtMostStep w ip r s h =
    let after = (process_request w ip r s).1 in
    elim (Bool-cases (r.command == codes "open_channel_request")) [
      | inl opening ↦
          let same : (open_channel_request w ip r.args s).1 ≡ after = ground arith in
          inr (
            subst (Step s) same (
              open_requested w ip r.args s (λ app_id app info.
                h.describes app_id app info
                  (ground (arith, bytes_eq_iff r.command (codes "open_channel_request"))))))
      | inr not_opening ↦ elim (Bool-cases (r.command == codes "pay_request")) [
        | inl paying ↦
            let same : (pay_request w r.args s).1 ≡ after = ground arith in
            inr (subst (Step s) same (pay_requested w r.args s h.bytes))
        | inr not_paying ↦ elim (Bool-cases (r.command == codes "close_channel_request")) [
          | inl closing ↦
              let same : (close_channel_request w r.args s).1 ≡ after = ground arith in
              inr (subst (Step s) same (close_requested w r.args s))
          | inr other ↦ inl (ground arith)
        ]
      ]
    ]

-- What is read of the request, and written, changes nothing.
serve_connection-server :
    (w : World) (json : Json) (conn : Connection) (s : Server)
    → (serve_connection w json conn s).1
      ≡ (handle_connection w conn.partner_ip (read_request json conn) s).1
unfolding serve_connection write_response
serve_connection-server w json conn s = ground arith

-- What the node relies on in a call of an RPC method: numbers are uint64, and a channel that is
-- opened may be added.
abbrev pub SuitsCall : World → Request → Server → Type 0
SuitsCall w reset s = Unit
SuitsCall w get_info s = Unit
SuitsCall w (open_channel host address funding penalty window) s =
    Opens s address w.now (
      Rpc.opened_channel host s.algo_account.address address w.created_app_id funding penalty
        window)
SuitsCall w (pay address amount) s = IsWord w.now × IsWord amount
SuitsCall w (cooperative_close_channel address) s = Unit
SuitsCall w (initiate_close_channel address) s = Unit
SuitsCall w (finalize_close_channel address) s = Unit
SuitsCall w (try_to_cheat address) s = Unit

serve-AtMostStep :
    (w : World) (r : Request) (s : Server) → SuitsCall w r s → AtMostStep s (serve w r s).1
unfolding serve Rpc.get_info
serve-AtMostStep w reset s h =
    inr (subst (Step s) (sym (responds (Start.reset w) (λ _. nothing) s)) (resets w s))
serve-AtMostStep w get_info s h = inl (ground arith)
serve-AtMostStep w (open_channel host address funding penalty window) s h = inr (
    subst (Step s)
      (sym (responds (Rpc.open_channel w host address funding penalty window) app_id_of s))
      (opens w host address funding penalty window s h))
serve-AtMostStep w (pay address amount) s h = inr (
    subst (Step s) (sym (responds (Rpc.pay w address amount) (λ _. nothing) s))
      (pays w address amount s h))
serve-AtMostStep w (cooperative_close_channel address) s h = inr (
    subst (Step s) (sym (responds (Rpc.cooperative_close w address) (λ _. nothing) s))
      (closes w address s))
serve-AtMostStep w (initiate_close_channel address) s h = inr (
    subst (Step s) (sym (responds (Rpc.initiate_close address) (λ _. nothing) s))
      (initiates_close address s))
serve-AtMostStep w (finalize_close_channel address) s h = inr (
    subst (Step s) (sym (responds (Rpc.finalize_close address) (λ _. nothing) s))
      (finalizes_close address s))
serve-AtMostStep w (try_to_cheat address) s h =
    inr (
      subst (Step s) (sym (responds (Rpc.try_to_cheat address) (λ _. nothing) s))
        (cheats address s))

abbrev pub SuitsEvent : Json → Event → Server → Type 0
SuitsEvent json accept_fails s = Unit
SuitsEvent json serving_fails s = Unit
SuitsEvent json (connects w conn) s =
    (request : P2PRequest)
    → read_request json conn ≡ some request
    → Suits w conn.partner_ip request s
SuitsEvent json (calls w r) s = SuitsCall w r s
SuitsEvent json (Process.watches w) s = Unit

-- Every event of the sequence is as the node relies on, where it happens.
abbrev pub Suit : Json → List Event → Server → Type 0
Suit json [] s = Unit
Suit json (event ∷ events) s = SuitsEvent json event s × Suit json events (handle json event s).1

handle-AtMostStep :
    (json : Json) (event : Event) (s : Server)
    → SuitsEvent json event s
    → AtMostStep s (handle json event s).1
unfolding handle handle_connection
handle-AtMostStep json accept_fails s h = inl refl
handle-AtMostStep json serving_fails s h = inl refl
handle-AtMostStep json (connects w conn) s h = elim (Option-cases (read_request json conn)) [
  | inl unreadable ↦ inl (serve_connection-server w json conn s ∙ ground arith)
  | inr (request, reads) ↦
      let same : (process_request w conn.partner_ip request s).1
          ≡ (serve_connection w json conn s).1 =
        sym (serve_connection-server w json conn s ∙ ground arith) in
      subst (AtMostStep s) same
        (process_request-AtMostStep w conn.partner_ip request s (h request reads))
]
handle-AtMostStep json (calls w r) s h =
    subst (AtMostStep s) (sym (responds (serve w r) (λ _. tt) s)) (serve-AtMostStep w r s h)
handle-AtMostStep json (Process.watches w) s h = elim (Bool-cases (ltb 0 s.watchtowers)) [
  | inl loops ↦
      let same : (watch_round w s).1 ≡ (handle json (Process.watches w) s).1 = ground arith in
      inr (subst (Step s) same (watches w s))
  | inr idle ↦ inl (ground arith)
]

handle-Reach :
    (json : Json) (event : Event) (s : Server)
    → SuitsEvent json event s
    → Reach s
    → Reach (handle json event s).1
handle-Reach json event s h reached = elim (handle-AtMostStep json event s h) [
  | inl same ↦ subst Reach (sym same) reached
  | inr step ↦ next reached step
]

run-Reach :
    (json : Json) (events : List Event) (s : Server)
    → Suit json events s
    → Reach s
    → Reach (run_events json events s).1
unfolding run_events
run-Reach json [] s h reached = reached
run-Reach json (event ∷ events) s (now, later) reached =
    let after = (handle json event s).1 in
    let reached_after = handle-Reach json event s now reached in
    let rest = run-Reach json events after later reached_after in
    elim (Bool-cases (is_end (handle json event s).0)) [
      | inl ends ↦
          let same : after ≡ (run_events json (event ∷ events) s).1 = ground arith in
          subst Reach same reached_after
      | inr goes_on ↦
          let same : (run_events json events after).1 ≡ (run_events json (event ∷ events) s).1 =
            ground arith in
          subst Reach same rest
    ]

loaded-Reach :
    (w : World) (can_listen : ℕ → Bool) (l : Listeners) (s : Server)
    → load_main w can_listen ≡ (ok l, s)
    → Reach s
unfolding load_main start_listening
loaded-Reach w can_listen l s e = starts w new_server s (ground arith)

process-Reach :
    (w : World) (can_listen : ℕ → Bool) (l : Listeners) (s : Server) (json : Json)
    (events : List Event)
    → load_main w can_listen ≡ (ok l, s)
    → Suit json events s
    → Reach (run_events json events s).1
process-Reach w can_listen l s json events e h =
    run-Reach json events s h (loaded-Reach w can_listen l s e)

-- Whatever connections, calls and passes of the watchtower a started process handles, up to one
-- that ends it or to the last: for every channel that the node has then, the latest state of its
-- log is found, and its balances have the sum of the channel's deposit in uint64 arithmetic. Each
-- event is as the node relies on: arguments are bytes, the amounts and times of payments uint64,
-- and a channel that is opened has balances that are uint64 and make up its deposit, and is opened
-- at a positive time with a partner of whom the node has no log.
pub process_keeps_sums :
    (w : World) (can_listen : ℕ → Bool) (l : Listeners) (s : Server) (json : Json)
    (events : List Event) (partner : Address) (info : PaymentChannelInfo)
    → load_main w can_listen ≡ (ok l, s)
    → Suit json events s
    → lookup partner (run_events json events s).1.onchain_states ≡ some info
    → let after = (run_events json events s).1 in
      (latest : OffChainState) × (find_latest partner after ≡ (ok latest, after))
      × ((latest.alice_balance + latest.bob_balance) % word_mod ≡ info.total_deposit % word_mod)
process_keeps_sums w can_listen l s json events partner info e h known =
    Reach-find_latest partner info (process-Reach w can_listen l s json events e h) known
