-- ===== src/Server/Watchtower/Rounds/Effects.antt =====
-- What one iteration leaves of the other channels, and of what has been sent.
use mathlib.Core.List.{append-nil, append_assoc}
use algorand_state_channels.Base.{
  ℕ, ◌≡◌, ◌≢◌, ◌⊎◌, inl, inr, ap, sym, ◌∙◌, bytes_has_eq, bytes_eq_iff, List, [], ◌∷◌, ◌++◌, arith,
  Option-cases,
}
use algorand_state_channels.Base.Dict.{lookup, lookup-erase}
use algorand_state_channels.Payment.Sdk.{Address}
use algorand_state_channels.Payment.Calls.{Submission, raise_dispute}
use algorand_state_channels.Server.State.{Server, PaymentChannelInfo, OffChainState, World}
use algorand_state_channels.Server.Log.{get_latest_off_chain_state}
use algorand_state_channels.Server.Steps.{watch_channel-Drops}
use algorand_state_channels.Server.Watchtower.{
  watch_channel, on_closing, dispute_if_worse, forget_channel,
}
use algorand_state_channels.Server.Watchtower.Disputes.{IsClosing}
use algorand_state_channels.Server.GlobalState.{parse_int}

-- The node has sent the transactions.
abbrev pub Sent : Submission → Server → Type 0
Sent t s = (before after : List Submission) × (s.submitted ≡ before ++ t ∷ after)

-- An action adds at most to what has been sent.
abbrev pub Grows : Server → Server → Type 0
Grows s s' = (sent : List Submission) × (s'.submitted ≡ s.submitted ++ sent)

same-Grows : (s s' : Server) → s'.submitted ≡ s.submitted → Grows s s'
same-Grows s s' e = ([], e ∙ sym (append-nil s.submitted))

pub watch_channel-Grows :
    (w : World) (address : Address) (info : PaymentChannelInfo) (s : Server)
    → Grows s (watch_channel w address info s).1
unfolding watch_channel on_closing dispute_if_worse forget_channel parse_int
watch_channel-Grows w address info s = elim (Option-cases (w.application_by_id info.app_id)) [
  | inl missing ↦ same-Grows s (watch_channel w address info s).1 (ground arith)
  | inr (app, known) ↦ elim (Option-cases (lookup address s.offchain_states_log)) [
    | inl no_log ↦ same-Grows s (watch_channel w address info s).1 (ground arith)
    | inr (log, logged) ↦ elim (Option-cases (get_latest_off_chain_state log)) [
      | inl unset ↦ same-Grows s (watch_channel w address info s).1 (ground arith)
      | inr (latest, last) ↦
          let after = (watch_channel w address info s).1 in
          let dispute =
            raise_dispute s.algo_account 4161 info.app_id latest.alice_balance latest.bob_balance
              latest.timestamp latest.alice_signature latest.bob_signature in
          let either : (after.submitted ≡ s.submitted)
              ⊎ (after.submitted ≡ s.submitted ++ dispute ∷ []) =
            ground arith in
          elim either [ inl same ↦ same-Grows s after same | inr e ↦ (dispute ∷ [], e) ]
    ]
  ]
]

pub Sent-grows :
    (t : Submission) (s s' : Server) (sent : List Submission)
    → s'.submitted ≡ s.submitted ++ sent
    → Sent t s
    → Sent t s'
Sent-grows t s s' sent grows (before, after, e) =
    (before, after ++ sent, grows ∙ ap (λ l. l ++ sent) e ∙ append_assoc before (t ∷ after) sent)

-- Only the node's logs matter for what the watchtower finds.
pub IsClosing-logs :
    (w : World) (s s' : Server) (address : Address) (info : PaymentChannelInfo)
    (latest : OffChainState) (alice bob : ℕ)
    → s'.offchain_states_log ≡ s.offchain_states_log
    → IsClosing w s address info latest alice bob
    → IsClosing w s' address info latest alice bob
IsClosing-logs w s s' address info latest alice bob same h = record {
  app = h.app;
  timeout = h.timeout;
  log = h.log;
  known_app = h.known_app;
  has_timeout = h.has_timeout;
  timeout_positive = h.timeout_positive;
  timeout_small = h.timeout_small;
  logged = ap (λ logs. lookup address logs) same ∙ h.logged;
  last = h.last;
  has_alice = h.has_alice;
  has_bob = h.has_bob;
}

-- An iteration for another channel.
pub other_channel :
    (w : World) (address other : Address) (info : PaymentChannelInfo) (s : Server)
    → address ≢ other
    → lookup other (watch_channel w address info s).1.onchain_states ≡ lookup other s.onchain_states
other_channel w address other info s distinct = ground (
  arith,
  (watch_channel-Drops w address info s).dropped,
  lookup-erase address other s.onchain_states,
  bytes_eq_iff address other,
)
