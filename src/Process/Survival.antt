-- ===== src/Process/Survival.antt =====
-- Which requests end the process of a node.
use algorand_state_channels.Base.{
  ℕ, ◌≡◌, ◌≢◌, ◌↔◌, inl, inr, true, false, Bytes, codes, bytes_has_eq, bytes_eq_iff, nat_has_eq,
  none, some, List, get_elem?, ◌==◌, arith, Option-cases, Bool-cases,
}
use algorand_state_channels.Base.Dict.{lookup}
use algorand_state_channels.Server.GlobalState.{or_empty}
use algorand_state_channels.Payment.Sdk.{Account, Address}
use algorand_state_channels.Payment.Signing.{sign_state, sign_close}
use algorand_state_channels.Server.State.{Server, P2PRequest, P2PResponse, World}
use algorand_state_channels.Server.Log.{get_latest_off_chain_state}
use algorand_state_channels.Server.Peer.{
  process_request, handle_connection, process_payment, pay_request, close_channel_request,
}
use algorand_state_channels.Server.Steps.{Result-cases, number_at}
use algorand_state_channels.Process.{
  Json, Connection, connects, read_request, serve_connection, write_response, handle, is_end,
}

-- The arguments that the node reads of a request.
pub record HasPayment (args : List Bytes) : Type 0 where
  pub counterparty : Bytes
  pub alice : ℕ
  pub bob : ℕ
  pub timestamp : ℕ
  pub signature : Bytes
  pub counterparty_at : get_elem? args 0 ≡ some counterparty
  pub alice_at : number_at args 1 ≡ some alice
  pub bob_at : number_at args 2 ≡ some bob
  pub timestamp_at : number_at args 3 ≡ some timestamp
  pub signature_at : get_elem? args 4 ≡ some signature

pub record HasClosing (args : List Bytes) : Type 0 where
  pub counterparty : Bytes
  pub signature : Bytes
  pub counterparty_at : get_elem? args 0 ≡ some counterparty
  pub signature_at : get_elem? args 1 ≡ some signature

pub record IsComplete (r : P2PRequest) : Type 0 where
  pub of_payment : r.command ≡ codes "pay_request" → HasPayment r.args
  pub of_closing : r.command ≡ codes "close_channel_request" → HasClosing r.args

-- The node can sign, and the response can be encoded and is taken.
pub record Answers (w : World) (json : Json) (conn : Connection) : Type 0 where
  pub signs : (key m : Bytes) → w.sdk.sign key m ≢ none
  pub marshals : (r : P2PResponse) → json.marshal_response r ≢ none
  pub written : (b : Bytes) → conn.takes b ≡ true

module _ (w : World) (json : Json) (conn : Connection) (h : Answers w json conn) where
  sign_state-ne_none :
      (app_id : ℕ) (account : Account) (alice bob port timestamp : ℕ)
      → sign_state w.sdk app_id account alice bob port timestamp ≢ none
  unfolding sign_state
  sign_state-ne_none app_id account alice bob port timestamp = h.signs _ _

  sign_close-ne_none :
      (app_id : ℕ) (account : Account) (alice bob port timestamp : ℕ)
      → sign_close w.sdk app_id account alice bob port timestamp ≢ none
  unfolding sign_close
  sign_close-ne_none app_id account alice bob port timestamp = h.signs _ _

  process_payment_survives :
      (c : Address) (alice bob timestamp : ℕ) (signature : Bytes) (s : Server)
      → is_end (process_payment w c alice bob timestamp signature s).0 ≡ false
  unfolding process_payment
  process_payment_survives c alice bob timestamp signature s =
      elim (Option-cases (lookup c s.onchain_states)) [
        | inl unknown ↦ ground arith
        | inr (info, found) ↦
            ground (arith, sign_state-ne_none info.app_id s.algo_account alice bob 4161 timestamp)
      ]

  -- A pay request ends the node exactly if its arguments cannot be read.
  pay_request_survives :
      (args : List Bytes) (s : Server) → (is_end (pay_request w args s).0 ≡ false) ↔ HasPayment args
  unfolding pay_request
  pay_request_survives args s = (
    λ e. elim (Option-cases (get_elem? args 0)) [
      | inl e0 ↦ absurd (ground arith)
      | inr (c, e0) ↦ elim (Option-cases (number_at args 1)) [
        | inl e1 ↦ absurd (ground arith)
        | inr (alice, e1) ↦ elim (Option-cases (number_at args 2)) [
          | inl e2 ↦ absurd (ground arith)
          | inr (bob, e2) ↦ elim (Option-cases (number_at args 3)) [
            | inl e3 ↦ absurd (ground arith)
            | inr (t, e3) ↦ elim (Option-cases (get_elem? args 4)) [
              | inl e4 ↦ absurd (ground arith)
              | inr (signature, e4) ↦ record {
                counterparty = c;
                alice = alice;
                bob = bob;
                timestamp = t;
                signature = signature;
                counterparty_at = e0;
                alice_at = e1;
                bob_at = e2;
                timestamp_at = e3;
                signature_at = e4;
              }
            ]
          ]
        ]
      ]
    ],
    λ a. ground (
      arith,
      a.counterparty_at,
      a.alice_at,
      a.bob_at,
      a.timestamp_at,
      a.signature_at,
      process_payment_survives a.counterparty a.alice a.bob a.timestamp a.signature s,
    ),
  )

  -- A closing request ends the node exactly if an argument is missing.
  close_channel_request_survives :
      (args : List Bytes) (s : Server)
      → (is_end (close_channel_request w args s).0 ≡ false) ↔ HasClosing args
  unfolding close_channel_request
  close_channel_request_survives args s = (
    λ e. elim (Option-cases (get_elem? args 0)) [
      | inl e0 ↦ absurd (ground arith)
      | inr (c, e0) ↦ elim (Option-cases (get_elem? args 1)) [
        | inl e1 ↦ absurd (ground arith)
        | inr (signature, e1) ↦ record {
          counterparty = c;
          signature = signature;
          counterparty_at = e0;
          signature_at = e1;
        }
      ]
    ],
    λ a. elim (Option-cases (lookup a.counterparty s.onchain_states)) [
      | inl unknown ↦ ground (arith, a.counterparty_at, a.signature_at)
      | inr (info, found) ↦
          elim (Option-cases
            (get_latest_off_chain_state (or_empty (lookup a.counterparty s.offchain_states_log)))) [
              | inl unset ↦ ground (arith, a.counterparty_at, a.signature_at)
              | inr (latest, last) ↦ ground (
                arith,
                a.counterparty_at,
                a.signature_at,
                sign_close-ne_none info.app_id s.algo_account latest.alice_balance
                    latest.bob_balance 4161 latest.timestamp,
              )
            ]
    ],
  )

  -- Only the handling of the request matters.
  connection_survives :
      (r : P2PRequest) (s : Server)
      → read_request json conn ≡ some r
      → is_end (handle json (connects w conn) s).0
        ≡ is_end (process_request w conn.partner_ip r s).0
  unfolding handle serve_connection write_response handle_connection
  connection_survives r s e = elim (Result-cases (process_request w conn.partner_ip r s)) [
    | inr (stopped, ends) ↦ ground (arith, e)
    | inl (response, answered) ↦ elim (Option-cases (json.marshal_response response)) [
      | inl unencoded ↦ absurd (h.marshals response unencoded)
      | inr (text, encoded) ↦ ground (arith, e, h.written text)
    ]
  ]

  -- If the node can sign and the response can be encoded and sent, a request that is no request to
  -- open a channel ends the process exactly if it is a pay request with fewer than five arguments
  -- or a number of fewer than eight bytes, or a closing request with fewer than two arguments,
  -- whatever channels the node has.
  pub request_survives_iff :
      (r : P2PRequest) (s : Server)
      → read_request json conn ≡ some r
      → r.command ≢ codes "open_channel_request"
      → (is_end (handle json (connects w conn) s).0 ≡ false) ↔ IsComplete r
  unfolding process_request
  request_survives_iff r s e not_opening =
      let opening = bytes_eq_iff r.command (codes "open_channel_request") in
      let paying = bytes_eq_iff r.command (codes "pay_request") in
      let closing = bytes_eq_iff r.command (codes "close_channel_request") in
      let goes_on = connection_survives r s e in
      elim (Bool-cases (r.command == codes "pay_request")) [
        | inl pays ↦
            let same : is_end (process_request w conn.partner_ip r s).0
                ≡ is_end (pay_request w r.args s).0 =
              ground arith in
            let survives = pay_request_survives r.args s in
            (
              λ alive. record {
                of_payment = λ _. survives.0 (ground arith);
                of_closing = λ closes. absurd (ground arith);
              },
              λ complete.
                  ground (arith, goes_on, same, survives.1 (complete.of_payment (ground arith))),
            )
        | inr not_paying ↦ elim (Bool-cases (r.command == codes "close_channel_request")) [
          | inl closes ↦
              let same : is_end (process_request w conn.partner_ip r s).0
                  ≡ is_end (close_channel_request w r.args s).0 =
                ground arith in
              let survives = close_channel_request_survives r.args s in
              (
                λ alive. record {
                  of_payment = λ pays. absurd (ground arith);
                  of_closing = λ _. survives.0 (ground arith);
                },
                λ complete.
                    ground (arith, goes_on, same, survives.1 (complete.of_closing (ground arith))),
              )
          | inr unknown ↦ (
            λ alive. record {
              of_payment = λ pays. absurd (ground arith);
              of_closing = λ closes. absurd (ground arith);
            },
            λ complete. ground (arith, goes_on),
          )
        ]
      ]
