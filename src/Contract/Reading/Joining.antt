-- ===== src/Contract/Reading/Joining.antt =====
-- The partner's side of OpenChannel: the node reads the contract that the opener has described.
use mathlib.Core.Path.{subst}
use algorand_state_channels.Base.{
  ℕ, ◌+◌, ◌≤◌, ◌≡◌, refl, ap, sym, ◌∙◌, Bytes, codes, bytes_eq, bytes_eq_iff, bytes_has_eq, none,
  some, [], ◌∷◌, arith,
}
use algorand_state_channels.Base.Word.{IsWord}
use algorand_state_channels.Base.Decimal.{
  format_uint, sscanf_int-format_uint, parse_uint-format_uint,
}
use algorand_state_channels.Base.Dict.{lookup, lookup-insert}
use algorand_state_channels.Payment.Calls.{compile_payment_programs}
use algorand_state_channels.Server.State.{Server, PaymentChannelInfo, Application, World}
use algorand_state_channels.Server.Action.{ok}
use algorand_state_channels.Server.GlobalState.{
  save_payment_channel_on_chain_state, save_channel, log_state, first_state, read_channel_info,
  new_channel_info,
}
use algorand_state_channels.Server.GlobalState.Checks.{HoldsIn, IsSafe, security_checks_iff}
use algorand_state_channels.Server.Peer.{open_channel_request, update_watchtower_state}
use algorand_state_channels.Contract.State.{Channel}
use algorand_state_channels.Contract.Opening.{Describes}
use algorand_state_channels.Contract.Reading.{stored_bytes, stored_uint, Reports}
use algorand_state_channels.Contract.Reading.Channels.{read_channel_info-Reports}
use algorand_state_channels.Contract.Reading.Values.{value_uint-IsStored, value_bytes-IsStored}

-- What the partner's node finds of the contract: the repository's programs, a report of the state,
-- and amounts within its bounds.
pub record IsOffered (w : World) (info : PaymentChannelInfo) (ch : Channel) (app : Application)
    : Type 0 where
  pub known : w.application_by_id info.app_id ≡ some app
  pub approval : app.approval_program ≡ (compile_payment_programs w.compiler).0
  pub clear : app.clear_state_program ≡ (compile_payment_programs w.compiler).1
  pub reports : Reports ch app.global_state
  pub unopened : ch.closing_initiator ≡ none
  pub app_id_word : IsWord info.app_id
  pub window_from : 2 ≤ info.dispute_window
  pub window_to : info.dispute_window ≤ 10_000
  pub reserve_from : 100 ≤ info.penalty_reserve
  pub reserve_to : info.penalty_reserve ≤ 100_000_000
  -- an address is what the codec makes of its key
  pub alice_encodes :
      w.sdk.encode_address (w.sdk.decode_address info.alice_address) ≡ some info.alice_address
  pub bob_encodes :
      w.sdk.encode_address (w.sdk.decode_address info.bob_address) ≡ some info.bob_address

module _ (w : World) (info : PaymentChannelInfo) (ch : Channel) (app : Application)
    (described : Describes w.sdk info ch) (offered : IsOffered w info ch app) where
  holds_uint :
      (key : Bytes) (v lo hi : ℕ)
      → stored_uint ch key ≡ some v
      → stored_bytes ch key ≡ none
      → 2 ≤ lo
      → hi ≤ 100_000_000
      → lo ≤ v
      → v ≤ hi
      → HoldsIn app.global_state key lo hi
  holds_uint key v lo hi e no_bytes positive small from to = record {
    text = format_uint v;
    value = v;
    holds =
        value_uint-IsStored ch key v app.global_state e no_bytes offered.reports.entries
          (offered.reports.has_uint key v e (λ z. omega arith));
    scans = sscanf_int-format_uint v (omega arith);
    from = from;
    to = to;
  }

  offered-IsSafe : IsSafe w app info.bob_address
  unfolding stored_bytes stored_uint bytes_eq
  offered-IsSafe = record {
    approval = offered.approval;
    clear = offered.clear;
    bob_value = ch.bob_address;
    has_bob =
        value_bytes-IsStored ch (codes "bob_address") ch.bob_address app.global_state refl refl
          offered.reports.entries
          (offered.reports.has_bytes (codes "bob_address") ch.bob_address refl);
    is_bob = ap w.sdk.encode_address described.parties.bob_key ∙ offered.bob_encodes;
    dispute_window =
        holds_uint (codes "dispute_window") info.dispute_window 2 10_000 (ap some described.window)
          refl (omega arith) (omega arith) offered.window_from offered.window_to;
    penalty_reserve =
        holds_uint (codes "penalty_reserve") info.penalty_reserve 100 100_000_000
          (ap some described.reserve) refl (omega arith) (omega arith) offered.reserve_from
          offered.reserve_to;
  }

  read_info-Describes :
      (ip : Bytes)
      → read_channel_info w app.global_state (new_channel_info ip info.app_id)
        ≡ some (record info { partner_ip = ip })
  read_info-Describes ip =
      read_channel_info-Reports w ch info.alice_address info.bob_address
        (ap w.sdk.encode_address described.parties.alice_key ∙ offered.alice_encodes)
        (ap w.sdk.encode_address described.parties.bob_key ∙ offered.bob_encodes) offered.unopened
        app.global_state ip info.app_id offered.reports
      ∙ ap some (λ i. record info {
        partner_ip = ip;
        alice_onchain_balance = described.alice_balance i;
        bob_onchain_balance = described.bob_balance i;
        total_deposit = described.deposit i;
        penalty_reserve = described.reserve i;
        dispute_window = described.window i;
      })

  -- A contract's state is what the opener keeps of the channel. The partner's node, Bob of that
  -- channel, finds the contract on the chain with the repository's programs and a report of its
  -- state, in which no closing has been started; the dispute window is from 2 to 10000, the penalty
  -- reserve from 100 to 100000000, the application's id is a uint64, and both addresses are what the
  -- codec makes of their keys. Asked to open the channel, the node approves and keeps the opener's
  -- record, with the ip address of the connection as its partner's.
  pub open_channel_request-Describes :
      (ip : Bytes) (s : Server)
      → s.algo_account.address ≡ info.bob_address
      → (s' : Server) × (open_channel_request w ip (format_uint info.app_id ∷ []) s ≡ (ok [], s'))
        × (lookup info.alice_address s'.onchain_states ≡ some (record info { partner_ip = ip }))
  unfolding open_channel_request save_payment_channel_on_chain_state update_watchtower_state
      save_channel log_state
  open_channel_request-Describes ip s me =
      let kept : PaymentChannelInfo = record info { partner_ip = ip } in
      let saved : Server =
        log_state info.alice_address (first_state w.now kept)
          (save_channel info.alice_address kept s) in
      let safe = (security_checks_iff w app s).1 (subst (IsSafe w app) (sym me) offered-IsSafe) in
      (
        record saved { watchtowers = s.watchtowers + 1 },
        ground (
          arith,
          parse_uint-format_uint info.app_id offered.app_id_word,
          offered.known,
          safe,
          read_info-Describes ip,
        ),
        ground (
          arith,
          bytes_eq_iff info.alice_address info.alice_address,
          lookup-insert info.alice_address info.alice_address kept s.onchain_states,
        ),
      )
