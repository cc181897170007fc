-- ===== src/Tests/Processes.antt =====
-- A process that starts, opens a channel and is ended by a request of a peer.
use mathlib.Core.Path.{subst}
use algorand_state_channels.Base.{
  ◌+◌, ◌%◌, ◌==◌, ◌&&◌, if◌then◌else◌, inl, inr, Option, none, Bytes, bytes_eq_iff, ◌≡◌, ◌↔◌, refl,
  true, false, codes, bytes_eq, bytes_has_eq, some, [], ◌∷◌, List, arith,
}
use algorand_state_channels.Base.Word.{slt, word_mod}
use algorand_state_channels.Base.Dict.{lookup, insert}
use algorand_state_channels.Payment.Sdk.{Account}
use algorand_state_channels.Payment.Sandbox.{
  node_account, get_sandbox_accounts, get_algod_client, get_kmd_client, get_env_or_default,
  find_wallet, export_accounts,
}
use algorand_state_channels.Server.State.{Server, P2PRequest, P2PResponse, World, OffChainState}
use algorand_state_channels.Server.Action.{ok}
use algorand_state_channels.Server.Opening.{Opens}
use algorand_state_channels.Server.Rpc.{opened_channel, pay_request_of}
use algorand_state_channels.Server.Peer.{
  process_request, pay_request, handle_connection, update_watchtower_state,
}
use algorand_state_channels.Process.Transport.{ClientJson, IsJson, exchange_over}
use algorand_state_channels.Process.Transport.Payments.{PayOutcome, pay_outcome}
use algorand_state_channels.Server.Rpc as Rpc
use algorand_state_channels.Server.Rpc.{find_latest, paid_balances, pay, send_request}
use algorand_state_channels.Server.GlobalState.{save_channel, log_state, get_value_of_global_state}
use algorand_state_channels.Server.Watchtower.{watch_round, watch_channels, watch_channel}
use algorand_state_channels.Payment.Signing.{sign_state}
use algorand_state_channels.Cli.Serving.{serve}
use algorand_state_channels.Server.Start.{initialize_server, fund_account, deliver}
use algorand_state_channels.Cli.{open_channel}
use algorand_state_channels.Process.{
  Json, Connection, Event, connects, calls, watches, read_request, handle, is_end, run_events,
  serve_connection, write_response, load_main, start_listening,
}
use algorand_state_channels.Process.Starting.{
  CanStart, default_listeners, started_server, load_main_iff,
}
use algorand_state_channels.Process.Running.{Suits, process_keeps_sums}
use algorand_state_channels.Process.Survival.{IsComplete, request_survives_iff}
use algorand_state_channels.Tests.Nodes.{
  alice, bob, alice_node, bob_node, alone, world, channel_info, paid_once, alice-Knows,
}
use algorand_state_channels.Tests.Requests.{alice_signs, bob_signs}
use algorand_state_channels.Tests.Runs.{start_world}

load_main_iff_example :
    (load_main start_world (λ port. true) ≡ (ok default_listeners, started_server alice bob)) ↔ (
      (account : Account) × (funder : Account) × CanStart start_world (λ port. true) account funder
      × (default_listeners ≡ default_listeners)
      × (started_server alice bob ≡ started_server account funder))
load_main_iff_example =
    load_main_iff start_world (λ port. true) default_listeners (started_server alice bob)

-- Every text is a pay request without arguments.
abbrev short_request : P2PRequest
short_request = record { command = codes "pay_request"; args = [] }

abbrev json : Json
json = record { unmarshal_request = λ b. some short_request; marshal_response = λ r. some [] }

abbrev conn : Connection
conn = record { partner_ip = codes "10.0.0.2"; arrives = some (codes "{}"); takes = λ b. true }

short_read : read_request json conn ≡ some short_request
unfolding read_request
short_read = refl

request_survives_iff_example :
    (is_end (handle json (connects start_world conn) bob_node).0 ≡ false) ↔ IsComplete short_request
request_survives_iff_example =
    request_survives_iff start_world json conn
      (record {
        signs = λ key m e. ground arith;
        marshals = λ r e. ground arith;
        written = λ b. refl;
      })
      short_request bob_node short_read (λ e. ground arith)

started : Server
started = started_server alice bob

load_run : load_main start_world (λ port. true) ≡ (ok default_listeners, started)
unfolding started load_main initialize_server fund_account deliver start_listening node_account
    get_sandbox_accounts get_algod_client get_kmd_client get_env_or_default find_wallet
    export_accounts bytes_eq
load_run = refl

abbrev events : List Event
events =
    calls start_world (open_channel (codes "10.0.0.2") bob.address 1_000_000 100_000 1000)
    ∷ watches start_world
    ∷ connects start_world conn
    ∷ []

opening-Opens :
    Opens started bob.address 2000
      (opened_channel (codes "10.0.0.2") alice.address bob.address 7 1_000_000 100_000 1000)
unfolding started opened_channel lookup slt
opening-Opens = record {
  no_log = refl;
  now_word = omega arith;
  now_positive = refl;
  alice_word = omega arith;
  bob_word = omega arith;
  whole = refl;
}

short-Suits : (s : Server) → Suits start_world conn.partner_ip short_request s
short-Suits s = record { bytes = tt; describes = λ app_id app info e. absurd (ground arith) }

read-Suits :
    (request : P2PRequest) (s : Server)
    → read_request json conn ≡ some request
    → Suits start_world conn.partner_ip request s
unfolding read_request
read-Suits request s e =
    let same : short_request ≡ request = ground arith in
    subst (λ r. Suits start_world conn.partner_ip r s) same (short-Suits s)

run_known :
    lookup bob.address (run_events json events started).1.onchain_states
    ≡ some (opened_channel (codes "10.0.0.2") alice.address bob.address 7 1_000_000 100_000 1000)
unfolding started run_events handle serve serve_connection handle_connection process_request
    pay_request read_request write_response Rpc.open_channel send_request update_watchtower_state
    save_channel log_state lookup insert watch_round watch_channels watch_channel
    get_value_of_global_state bytes_eq
run_known = refl

process_keeps_sums_example :
    let after = (run_events json events started).1 in
    (latest : OffChainState) × (find_latest bob.address after ≡ (ok latest, after))
    × ((latest.alice_balance + latest.bob_balance) % word_mod ≡ 1_000_000 % word_mod)
unfolding started read_request opened_channel
process_keeps_sums_example =
    process_keeps_sums start_world (λ port. true) default_listeners started json events bob.address
      (opened_channel (codes "10.0.0.2") alice.address bob.address 7 1_000_000 100_000 1000)
      load_run (opening-Opens, (tt, ((λ request e. read-Suits request _ e), tt))) run_known

-- Alice's pay request and Bob's approval, the only messages, each encoded in one byte.
abbrev pay_5000 : P2PRequest
pay_5000 = pay_request_of alice.address 595_000 405_000 2000 alice_signs

abbrev approval : P2PResponse
approval = record { message = codes "approve"; response_data = bob_signs ∷ [] }

encode_response : Bytes → List Bytes → Option Bytes
encode_response message [] = none
encode_response message (x ∷ []) =
    if message == codes "approve" && x == bob_signs then some (codes "a") else none
encode_response message (x ∷ y ∷ xs) = none

encodes_approval :
    (message : Bytes) (response_data : List Bytes) (text : Bytes)
    → encode_response message response_data ≡ some text
    → some approval ≡ some (record { message = message; response_data = response_data })
unfolding encode_response
encodes_approval message [] text e = absurd (ground arith)
encodes_approval message (x ∷ []) text e =
    let approves : message ≡ codes "approve" =
      ground (arith, bytes_eq_iff message (codes "approve")) in
    let signs : x ≡ bob_signs = ground (arith, bytes_eq_iff x bob_signs) in cc (approves, signs)
encodes_approval message (x ∷ y ∷ xs) text e = absurd (ground arith)

abbrev bob_json : Json
bob_json = record {
  unmarshal_request = λ b. some pay_5000;
  marshal_response = λ r. encode_response r.message r.response_data;
}

abbrev alice_json : ClientJson
alice_json = record {
  marshal_request = λ r. some (codes "p");
  unmarshal_response = λ b. some approval;
}

codecs-IsJson : IsJson bob_json alice_json pay_5000
codecs-IsJson = record {
  request_reads = λ text e. inr refl;
  response_reads =
      λ response text e. inr (encodes_approval response.message response.response_data text e);
}

-- The world of Alice's node, whose peer is Bob's process.
abbrev to_bob : World
to_bob =
    world (λ ip r. (exchange_over alone bob_json alice_json (codes "10.0.0.1") r bob_node).0) none

pay_outcome_example :
    PayOutcome to_bob alone alice_node bob_node bob.address
      (channel_info (codes "10.0.0.2"))
      595_000
      405_000
      alice_signs
      (pay to_bob bob.address 5000 alice_node).0
      (pay to_bob bob.address 5000 alice_node).1
      (exchange_over alone bob_json alice_json (codes "10.0.0.1") pay_5000 bob_node).1
unfolding paid_balances sign_state bytes_eq
pay_outcome_example =
    pay_outcome to_bob alone bob_json alice_json (codes "10.0.0.1") alice_node bob_node bob.address
      (channel_info (codes "10.0.0.2")) paid_once 5000 alice-Knows (omega arith) codecs-IsJson
      (inl refl)
