-- ===== src/Process.antt =====
-- The process of a node: asd.go, config.go, startListening and the two ends of handleConnection of
-- server.go. It handles connections of peers, calls of its RPC methods and passes of its watchtower
-- one after the other, until the first that ends it.
pub mod Starting
pub mod Running
pub mod Survival
pub mod Transport
use algorand_state_channels.Base.{
  ℕ, Bool, true, false, Bytes, Option, none, some, List, [], ◌∷◌, ltb, take, if◌then◌else◌,
}
use algorand_state_channels.Payment.Sdk.{Account}
use algorand_state_channels.Server.State.{Server, P2PRequest, P2PResponse, World}
use algorand_state_channels.Server.Action.{
  Stop, reject, error, fatal, panic, Result, ok, stop, Action, pure, halt, gets, or_halt, require,
  ◌>>=◌, ◌>>◌,
}
use algorand_state_channels.Server.Peer.{handle_connection}
use algorand_state_channels.Server.Start.{initialize_server}
use algorand_state_channels.Server.Watchtower.{watch_round}
use algorand_state_channels.Cli.{Request}
use algorand_state_channels.Cli.Serving.{serve}

-- config
pub record Config : Type 0 where
  pub grpc_port : ℕ
  pub peer_port : ℕ

-- loadConfig
abbrev pub load_config : Config
load_config = record { grpc_port = 50051; peer_port = 28547 }

-- The ports of the two listeners.
pub record Listeners : Type 0 where
  pub peer_listener : ℕ
  pub grpc_listener : ℕ

-- startListening, up to the loop that accepts connections. net.Listen succeeds on the ports of
-- `can_listen`.
unfoldable pub start_listening : (can_listen : ℕ → Bool) → Config → Action Listeners
start_listening can_listen config = do
  require (can_listen config.peer_port) fatal
  require (can_listen config.grpc_port) fatal
  pure (record { peer_listener = config.peer_port; grpc_listener = config.grpc_port })

-- The server before initializeServer.
abbrev pub no_account : Account
no_account = record { address = []; private_key = [] }

abbrev pub new_server : Server
new_server = record {
  algo_account = no_account;
  onchain_states = [];
  offchain_states_log = [];
  submitted = [];
  watchtowers = 0;
}

-- loadMain, up to grpcServer.Serve
unfoldable pub load_main : World → (can_listen : ℕ → Bool) → Result Listeners × Server
load_main w can_listen = (do initialize_server w; start_listening can_listen load_config) new_server

-- json.Unmarshal of a request and json.Marshal of a response; `none` is an error.
pub record Json : Type 0 where
  pub unmarshal_request : Bytes → Option P2PRequest
  pub marshal_response : P2PResponse → Option Bytes

-- A connection: the address of the peer, what one Read would return if the buffer were large enough,
-- or an error, and whether Write succeeds.
pub record Connection : Type 0 where
  pub partner_ip : Bytes
  pub arrives : Option Bytes
  pub takes : Bytes → Bool

-- The request that is read: at most 2 KB of the data.
unfoldable pub read_request : Json → Connection → Option P2PRequest
read_request json conn = elim conn.arrives [
  | none ↦ none
  | some client_request_data ↦ json.unmarshal_request (take 2048 client_request_data)
]

-- The end of handleConnection.
unfoldable pub write_response : Json → Connection → P2PResponse → Action (Unit {0})
write_response json conn server_response = do
  server_response_data ← or_halt fatal (json.marshal_response server_response)
  require (conn.takes server_response_data) fatal

-- handleConnection, from the reading of the request to the writing of the response.
unfoldable pub serve_connection : World → Json → Connection → Action (Unit {0})
unfolding read_request write_response
serve_connection w json conn = do
  server_response ← handle_connection w conn.partner_ip (read_request json conn)
  write_response json conn server_response

-- What happens to a node: Accept fails or returns a connection, grpcServer.Serve fails or calls a
-- method, or the watchtower makes a pass.
pub data Event : Type 0 where
  accept_fails serving_fails : Event
  connects : World → Connection → Event
  calls : World → Request → Event
  watches : World → Event

-- What the process does then. Only a node with a loop of the watchtower makes a pass.
unfoldable pub handle : Json → Event → Action (Unit {0})
handle json accept_fails = halt fatal
handle json serving_fails = halt fatal
handle json (connects w conn) = serve_connection w json conn
handle json (calls w r) = serve w r >>= λ response. pure tt
handle json (watches w) = do
  loops ← gets (λ s. s.watchtowers)
  if ltb 0 loops then watch_round w else pure tt

-- log.Fatalf and a panic end the process; an error of an RPC method is its response.
abbrev pub is_end : {A : Type 0} → Result A → Bool
is_end (ok a) = false
is_end (stop reject) = false
is_end (stop (error e)) = false
is_end (stop fatal) = true
is_end (stop panic) = true

-- The events one after the other: whether the process still runs, and its last server.
unfoldable pub run_events : Json → List Event → Server → Bool × Server
run_events json [] s = (true, s)
run_events json (event ∷ events) s =
    let (r, after) = handle json event s in
    let rest = run_events json events after in if is_end r then (false, after) else rest
