-- ===== src/Tests/Channels.antt =====
-- Logs, the watchtower and the opening of a channel, at concrete states.
use algorand_state_channels.Base.{
  ℕ, ◌≡◌, ◌↔◌, refl, Bytes, codes, bytes_eq, bytes_has_eq, none, some, [], ◌∷◌, arith, nat_eq_iff,
  nat_has_eq,
}
use algorand_state_channels.Base.Word.{slt}
use algorand_state_channels.Base.Base64.{base64_decode}
use algorand_state_channels.Base.Dict.{lookup}
use algorand_state_channels.Payment.Calls.{create_payment_app, setup_payment_app}
use algorand_state_channels.Server.State.{
  Server, OffChainState, PaymentLog, TealKeyValue, Application, World, replied, P2PResponse,
}
use algorand_state_channels.Server.Action.{ok, stop, error}
use algorand_state_channels.Server.Log.{get_latest_off_chain_state}
use algorand_state_channels.Server.Log.Latest.{IsLatest, HasWords, get_latest_off_chain_state_iff}
use algorand_state_channels.Server.GlobalState.{get_value_of_global_state}
use algorand_state_channels.Server.Watchtower.{watch_channel}
use algorand_state_channels.Server.Watchtower.Disputes.{
  HoldsUint, IsClosing, disputed, watch_channel_closing,
}
use algorand_state_channels.Server.Rpc.{open_channel, refusal}
use algorand_state_channels.Server.Rpc.Failures.{open_channel_refused}
use algorand_state_channels.Tests.Nodes.{
  sample_sdk, alice, bob, channel_info, paid_once, alice_node, bob_node, alone, world,
}

-- A later state, and the two logs of both states.
abbrev pub paid_twice : OffChainState
paid_twice = record paid_once { timestamp = 2000; alice_balance = 500_000; bob_balance = 500_000 }

abbrev two_log : PaymentLog
two_log = (1000, paid_once) ∷ (2000, paid_twice) ∷ []

two_log-HasWords : HasWords two_log
unfolding lookup
two_log-HasWords k st e = ground (arith, nat_eq_iff 1000 k, nat_eq_iff 2000 k)

two_log_latest : get_latest_off_chain_state two_log ≡ some paid_twice
unfolding get_latest_off_chain_state slt
two_log_latest = refl

get_latest_off_chain_state_iff_example :
    (get_latest_off_chain_state two_log ≡ some paid_twice)
    ↔ ((t : ℕ) × IsLatest t paid_twice two_log)
get_latest_off_chain_state_iff_example =
    get_latest_off_chain_state_iff two_log paid_twice two_log-HasWords

-- The contract's state after a closing with the balances of `paid_once`.
abbrev pub uint_entry : Bytes → ℕ → TealKeyValue
uint_entry key value = record { key = key; value_type = 2; value_bytes = []; value_uint = value }

abbrev pub closing_app : Application
closing_app = record {
  approval_program = [];
  clear_state_program = [];
  global_state =
      uint_entry (codes "dGltZW91dA==") 30
      ∷ uint_entry (codes "bGF0ZXN0X2FsaWNlX2JhbGFuY2U=") 600_000
      ∷ uint_entry (codes "bGF0ZXN0X2JvYl9iYWxhbmNl") 400_000
      ∷ [];
}

abbrev pub closing_world : World
closing_world = world alone.peer (some closing_app)

-- Bob's node, whose log has a later state.
abbrev pub bob_node_later : Server
bob_node_later = record bob_node { offchain_states_log = (alice.address, two_log) ∷ [] }

pub closing_timeout : HoldsUint closing_app.global_state (codes "timeout") 30
unfolding get_value_of_global_state base64_decode bytes_eq
closing_timeout = (refl, omega arith)

pub closing_alice : HoldsUint closing_app.global_state (codes "latest_alice_balance") 600_000
unfolding get_value_of_global_state base64_decode bytes_eq
closing_alice = (refl, omega arith)

pub closing_bob : HoldsUint closing_app.global_state (codes "latest_bob_balance") 400_000
unfolding get_value_of_global_state base64_decode bytes_eq
closing_bob = (refl, omega arith)

pub bob_sees-IsClosing :
    IsClosing closing_world bob_node_later alice.address
      (channel_info (codes "10.0.0.1"))
      paid_twice
      600_000
      400_000
unfolding lookup bytes_eq
bob_sees-IsClosing = record {
  app = closing_app;
  timeout = 30;
  log = two_log;
  known_app = refl;
  has_timeout = closing_timeout;
  timeout_positive = omega arith;
  timeout_small = omega arith;
  logged = refl;
  last = two_log_latest;
  has_alice = closing_alice;
  has_bob = closing_bob;
}

watch_channel_closing_example :
    watch_channel closing_world alice.address (channel_info (codes "10.0.0.1")) bob_node_later
    ≡ (ok tt, disputed alice.address (channel_info (codes "10.0.0.1")) paid_twice bob_node_later)
unfolding bytes_eq
watch_channel_closing_example =
    watch_channel_closing closing_world bob_node_later alice.address
      (channel_info (codes "10.0.0.1")) paid_twice 600_000 400_000 bob_sees-IsClosing

-- The answer of a partner that does not want the channel.
abbrev rejection : P2PResponse
rejection = record { message = codes "reject"; response_data = [] }

abbrev rejecting : World
rejecting = world (λ ip r. replied rejection) none

open_channel_refused_example :
    open_channel rejecting (codes "10.0.0.2") bob.address 1_000_000 100_000 1000 alice_node ≡ (
      stop (error (refusal (codes "reject"))),
      record alice_node {
        submitted =
            create_payment_app sample_sdk rejecting.compiler alice bob.address 100_000 1000
            ∷ setup_payment_app sample_sdk 7 alice 1_000_000
            ∷ [];
      },
    )
open_channel_refused_example =
    open_channel_refused rejecting alice_node (codes "10.0.0.2") bob.address 1_000_000 100_000 1000
      rejection (λ r. refl) (λ e. ground arith)
