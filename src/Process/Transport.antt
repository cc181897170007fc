-- ===== src/Process/Transport.antt =====
-- A request of sendRequest on its way to the process of another node, and the response on its way
-- back: JSON in buffers of 2 KB and 1 KB.
pub mod Requests
pub mod Payments
use algorand_state_channels.Base.{◌≡◌, ◌⊎◌, Bool, true, Bytes, Option, none, some, take}
use algorand_state_channels.Server.State.{
  Server, P2PRequest, P2PResponse, Exchange, write_failed, read_failed, unmarshal_failed, replied,
  World,
}
use algorand_state_channels.Server.Action.{Result, ok, stop}
use algorand_state_channels.Server.Peer.{handle_connection}
use algorand_state_channels.Process.{Json, Connection, read_request}

-- json.Marshal of a request and json.Unmarshal of a response.
pub record ClientJson : Type 0 where
  pub marshal_request : P2PRequest → Option Bytes
  pub unmarshal_response : Bytes → Option P2PResponse

-- What sendRequest makes of the bytes of a response, of which it reads at most 1 KB.
unfoldable pub read_response : ClientJson → Option Bytes → Exchange
read_response client none = read_failed
read_response client (some response_data) =
    elim (client.unmarshal_response (take 1024 response_data)) [
      | none ↦ unmarshal_failed
      | some server_response ↦ replied server_response
    ]

-- The bytes that a connection to a node's process gives back: none if the process ends first.
abbrev pub reply_bytes : Json → Result P2PResponse → Option Bytes
reply_bytes json (stop e) = none
reply_bytes json (ok response) = json.marshal_response response

-- The exchange that sendRequest makes with another node's process.
unfoldable pub exchange_over :
    World → Json → ClientJson → Bytes → P2PRequest → Server → Exchange × Server
unfolding read_response
exchange_over w json client ip r s = elim (client.marshal_request r) [
  | none ↦ (write_failed, s)
  | some json_request ↦
      let conn : Connection = record {
        partner_ip = ip;
        arrives = some json_request;
        takes = λ b. true;
      } in
      let (response, after) = handle_connection w ip (read_request json conn) s in
      (read_response client (reply_bytes json response), after)
]

-- What json is relied on for: a text that the buffer cuts is an error or is read as a whole one.
pub record IsJson (json : Json) (client : ClientJson) (r : P2PRequest) : Type 0 where
  pub request_reads :
      (text : Bytes)
      → client.marshal_request r ≡ some text
      → (json.unmarshal_request (take 2048 text) ≡ none)
        ⊎ (json.unmarshal_request (take 2048 text) ≡ some r)
  pub response_reads :
      (response : P2PResponse) (text : Bytes)
      → json.marshal_response response ≡ some text
      → (client.unmarshal_response (take 1024 text) ≡ none)
        ⊎ (client.unmarshal_response (take 1024 text) ≡ some response)
