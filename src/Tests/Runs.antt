-- ===== src/Tests/Runs.antt =====
-- A run of a node from its start, and a contract that passes the checks.
use algorand_state_channels.Base.{
  true, false, leb, if◌then◌else◌, ◌⊎◌, ◌+◌, ◌%◌, ◌≡◌, ◌↔◌, refl, codes, bytes_eq, bytes_has_eq,
  none, some, [], ◌∷◌, arith,
}
use algorand_state_channels.Base.Word.{slt, word_mod}
use algorand_state_channels.Base.Base64.{base64_decode}
use algorand_state_channels.Base.Decimal.{format_uint, sscanf_int-format_uint}
use algorand_state_channels.Base.Dict.{lookup, insert}
use algorand_state_channels.Payment.Calls.{compile_payment_programs, compile_teal}
use algorand_state_channels.Server.State.{
  Server, OffChainState, PaymentChannelInfo, Application, World, replied,
}
use algorand_state_channels.Server.Action.{ok}
use algorand_state_channels.Server.GlobalState.{
  first_state, save_channel, log_state, get_value_of_global_state, do_open_channel_security_checks,
}
use algorand_state_channels.Server.GlobalState.Checks.{HoldsIn, IsSafe, security_checks_iff}
use algorand_state_channels.Server.Invariant.{IsWellFormed}
use algorand_state_channels.Server.Opening.{Opens}
use algorand_state_channels.Server.Peer.{update_watchtower_state}
use algorand_state_channels.Server.Reach.{
  Reach, starts, next, opens, Reach-IsWellFormed, Reach-find_latest,
}
use algorand_state_channels.Server.Start.{initialize_server, fund_account, deliver}
use algorand_state_channels.Payment.Sandbox.{
  node_account, get_sandbox_accounts, get_algod_client, get_kmd_client, get_env_or_default,
  find_wallet, export_accounts,
}
use algorand_state_channels.Server.Rpc.{open_channel, opened_channel, find_latest, send_request}
use algorand_state_channels.Server.Watchtower.{watch_round, watch_channels, watch_channel}
use algorand_state_channels.Server.Watchtower.Rounds.Passes.{watch_round_disputes}
use algorand_state_channels.Payment.Sdk.{Address}
use algorand_state_channels.Payment.Calls.{raise_dispute}
use algorand_state_channels.Server.Log.{balance_of, get_latest_off_chain_state}
use algorand_state_channels.Server.Peer.{is_alice}
use algorand_state_channels.Server.Watchtower.Disputes.{IsClosing, disputed, watch_channel_closing}
use algorand_state_channels.Server.Watchtower.Rounds.Effects.{Sent}
use algorand_state_channels.Tests.Channels.{
  closing_app, closing_world, closing_timeout, closing_alice, closing_bob,
}
use algorand_state_channels.Tests.Nodes.{alice, bob, alice_node, bob_node, alone, world}

-- Alice's node as it starts, in a world whose peers approve.
abbrev pub start_world : World
start_world =
    world (λ ip r. replied (record { message = codes "approve"; response_data = [] })) none

started : Reach (initialize_server start_world alice_node).1
unfolding initialize_server fund_account deliver node_account get_sandbox_accounts get_algod_client
    get_kmd_client get_env_or_default find_wallet export_accounts bytes_eq
started = starts start_world alice_node (initialize_server start_world alice_node).1 refl

abbrev pub opened : Server
opened =
    (open_channel start_world (codes "10.0.0.2") bob.address 1_000_000 100_000 1000
      (initialize_server start_world alice_node).1).1

bob-Opens :
    Opens
      (initialize_server start_world alice_node).1
      bob.address
      2000
      (opened_channel (codes "10.0.0.2") alice.address bob.address 7 1_000_000 100_000 1000)
unfolding initialize_server fund_account deliver node_account get_sandbox_accounts get_algod_client
    get_kmd_client get_env_or_default find_wallet export_accounts bytes_eq opened_channel lookup slt
bob-Opens = record {
  no_log = refl;
  now_word = omega arith;
  now_positive = refl;
  alice_word = omega arith;
  bob_word = omega arith;
  whole = refl;
}

pub opened_run : Reach opened
unfolding initialize_server fund_account deliver node_account get_sandbox_accounts get_algod_client
    get_kmd_client get_env_or_default find_wallet export_accounts bytes_eq
opened_run = next started (
    opens start_world (codes "10.0.0.2") bob.address 1_000_000 100_000 1000
      (initialize_server start_world alice_node).1 bob-Opens)

Reach-IsWellFormed_example : IsWellFormed opened
Reach-IsWellFormed_example = Reach-IsWellFormed opened_run

abbrev pub opened_info : PaymentChannelInfo
opened_info = opened_channel (codes "10.0.0.2") alice.address bob.address 7 1_000_000 100_000 1000

pub opened_known : lookup bob.address opened.onchain_states ≡ some opened_info
unfolding initialize_server fund_account deliver node_account get_sandbox_accounts get_algod_client
    get_kmd_client get_env_or_default find_wallet export_accounts open_channel opened_channel
    send_request update_watchtower_state save_channel log_state lookup insert bytes_eq
opened_known = refl

Reach-find_latest_example :
    (latest : OffChainState) × (find_latest bob.address opened ≡ (ok latest, opened))
    × ((latest.alice_balance + latest.bob_balance) % word_mod ≡ 1_000_000 % word_mod)
unfolding opened_channel
Reach-find_latest_example = Reach-find_latest bob.address opened_info opened_run opened_known

-- A contract with the programs of the world, which are empty, that suits Bob's node.
abbrev suitable_app : Application
suitable_app = record {
  approval_program = [];
  clear_state_program = [];
  global_state =
      record {
        key = codes "Ym9iX2FkZHJlc3M=";
        value_type = 1;
        value_bytes = codes "Qk9C";
        value_uint = 0;
      }
      ∷ record {
        key = codes "ZGlzcHV0ZV93aW5kb3c=";
        value_type = 2;
        value_bytes = [];
        value_uint = 1000;
      }
      ∷ record {
        key = codes "cGVuYWx0eV9yZXNlcnZl";
        value_type = 2;
        value_bytes = [];
        value_uint = 100_000;
      }
      ∷ [];
}

security_checks_iff_example :
    (do_open_channel_security_checks alone suitable_app bob_node ≡ (ok true, bob_node))
    ↔ IsSafe alone suitable_app bob.address
security_checks_iff_example = security_checks_iff alone suitable_app bob_node

suitable_window : HoldsIn suitable_app.global_state (codes "dispute_window") 2 10_000
unfolding get_value_of_global_state base64_decode bytes_eq
suitable_window = record {
  text = format_uint 1000;
  value = 1000;
  holds = refl;
  scans = sscanf_int-format_uint 1000 (omega arith);
  from = omega arith;
  to = omega arith;
}

suitable_reserve : HoldsIn suitable_app.global_state (codes "penalty_reserve") 100 100_000_000
unfolding get_value_of_global_state base64_decode bytes_eq
suitable_reserve = record {
  text = format_uint 100_000;
  value = 100_000;
  holds = refl;
  scans = sscanf_int-format_uint 100_000 (omega arith);
  from = omega arith;
  to = omega arith;
}

suitable_passes : do_open_channel_security_checks alone suitable_app bob_node ≡ (ok true, bob_node)
unfolding get_value_of_global_state base64_decode bytes_eq compile_payment_programs compile_teal
suitable_passes = (security_checks_iff alone suitable_app bob_node).1 (record {
  approval = refl;
  clear = refl;
  bob_value = bob.address;
  has_bob = refl;
  is_bob = refl;
  dispute_window = suitable_window;
  penalty_reserve = suitable_reserve;
})

abbrev opened_state : OffChainState
opened_state = first_state 2000 opened_info

-- A closing of the channel with an older state, which the watchtower finds and disputes.
opened_sees-IsClosing :
    IsClosing closing_world opened bob.address opened_info opened_state 600_000 400_000
unfolding lookup bytes_eq open_channel send_request update_watchtower_state log_state save_channel
    insert initialize_server node_account fund_account deliver get_sandbox_accounts get_algod_client
    get_kmd_client get_env_or_default find_wallet export_accounts opened_channel
    get_latest_off_chain_state slt
opened_sees-IsClosing = record {
  app = closing_app;
  timeout = 30;
  log = (2000, opened_state) ∷ [];
  known_app = refl;
  has_timeout = closing_timeout;
  timeout_positive = omega arith;
  timeout_small = omega arith;
  logged = refl;
  last = refl;
  has_alice = closing_alice;
  has_bob = closing_bob;
}

-- A pass over one channel.
single_pass :
    (w : World) (s s' : Server) (a : Address) (info : PaymentChannelInfo)
    → s.onchain_states ≡ (a, info) ∷ []
    → watch_channel w a info s ≡ (ok tt, s')
    → watch_round w s ≡ (ok tt, s')
unfolding watch_round watch_channels
single_pass w s s' a info one visited = ground (arith, one, visited)

opened_one : opened.onchain_states ≡ (bob.address, opened_info) ∷ []
unfolding initialize_server fund_account deliver node_account get_sandbox_accounts get_algod_client
    get_kmd_client get_env_or_default find_wallet export_accounts open_channel opened_channel
    send_request update_watchtower_state save_channel log_state lookup insert bytes_eq
opened_one = refl

opened_disputed :
    watch_channel closing_world bob.address opened_info opened
    ≡ (ok tt, disputed bob.address opened_info opened_state opened)
unfolding opened_channel initialize_server node_account fund_account deliver open_channel
    send_request bytes_eq update_watchtower_state log_state save_channel get_algod_client
    get_sandbox_accounts get_kmd_client find_wallet export_accounts
opened_disputed =
    watch_channel_closing closing_world opened bob.address opened_info opened_state 600_000 400_000
      opened_sees-IsClosing

watch_round_disputes_example :
    let s' = disputed bob.address opened_info opened_state opened in
    let me_alice = is_alice opened_info alice.address in
    let is_fair = leb (balance_of me_alice opened_state) (if me_alice then 600_000 else 400_000) in
    ((is_fair ≡ true) × (lookup bob.address s'.onchain_states ≡ some opened_info))
    ⊎ ((is_fair ≡ false)
        × (lookup bob.address s'.onchain_states ≡ none)
        × Sent (raise_dispute alice 4161 7 1_000_000 0 2000 [] []) s')
unfolding opened_channel initialize_server node_account fund_account deliver open_channel
    raise_dispute send_request bytes_eq update_watchtower_state log_state save_channel
    get_algod_client get_sandbox_accounts get_kmd_client find_wallet export_accounts
watch_round_disputes_example =
    watch_round_disputes closing_world opened (disputed bob.address opened_info opened_state opened)
      bob.address opened_info opened_state 600_000 400_000 opened_run
      (single_pass closing_world opened (disputed bob.address opened_info opened_state opened)
        bob.address opened_info opened_one opened_disputed)
      opened_known opened_sees-IsClosing
