-- ===== src/Server/Growth.antt =====
-- The operations of a node that add a state of its own to a log: Pay, OpenChannel and the request
-- to open a channel.
use mathlib.Core.Path.{subst}
use algorand_state_channels.Base.{
  ℕ, ◌+◌, ◌%◌, ◌≡◌, ◌⊎◌, inl, inr, refl, sym, Bool, true, false, Bytes, bytes_has_eq, some, arith,
  Option-cases, nat_has_eq, get_elem?,
}
use algorand_state_channels.Base.Word.{IsWord, word_mod}
use algorand_state_channels.Base.Dict.{lookup}
use algorand_state_channels.Payment.Sdk.{Account, Address}
use algorand_state_channels.Payment.Signing.{sign_state, verify_state}
use algorand_state_channels.Payment.Calls.{or_nil}
use algorand_state_channels.Server.State.{
  Server, PaymentChannelInfo, OffChainState, World, P2PRequest, P2PResponse, Exchange, dial_failed,
  write_failed, read_failed, unmarshal_failed, replied,
}
use algorand_state_channels.Server.Action.{Result, Stop, ok, stop, panic, error, request_failed}
use algorand_state_channels.Server.Log.{get_latest_off_chain_state}
use algorand_state_channels.Server.GlobalState.{log_state}
use algorand_state_channels.Server.Invariant.{IsEntry, IsWellFormed, log_state-IsWellFormed}
use algorand_state_channels.Server.Peer.{is_alice}
use algorand_state_channels.Server.Peer.Progress.{get_latest_off_chain_state-IsEntry, next-IsEntry}
use algorand_state_channels.Server.Rpc.{
  pay_request_of, paid_balances, paid_state, pay, find_channel, find_latest, exchange_payment,
  send_request,
}
use algorand_state_channels.Server.Rpc.Agreement.{Knows, paid_balances-IsWord}
use algorand_state_channels.Server.Rpc.Failures.{pay_atomic}

pub Exchange-cases :
    (x : Exchange)
    → (x ≡ dial_failed)
      ⊎ ((x ≡ write_failed)
          ⊎ ((x ≡ read_failed)
              ⊎ ((x ≡ unmarshal_failed) ⊎ ((response : P2PResponse) × (x ≡ replied response)))))
Exchange-cases dial_failed = inl refl
Exchange-cases write_failed = inr (inl refl)
Exchange-cases read_failed = inr (inr (inl refl))
Exchange-cases unmarshal_failed = inr (inr (inr (inl refl)))
Exchange-cases (replied response) = inr (inr (inr (inr (response, refl))))

pub send_request-cases :
    (w : World) (ip : Bytes) (r : P2PRequest) (s : Server)
    → ((e : Stop) × (send_request w ip r s ≡ (stop e, s)))
      ⊎ ((response : P2PResponse) × (send_request w ip r s ≡ (ok response, s)))
unfolding send_request
send_request-cases w ip r s = elim (Exchange-cases (w.peer ip r)) [
  | inl e ↦ inl (panic, ground arith)
  | inr (inl e) ↦ inl (error request_failed, ground arith)
  | inr (inr (inl e)) ↦ inl (error request_failed, ground arith)
  | inr (inr (inr (inl e))) ↦ inl (error request_failed, ground arith)
  | inr (inr (inr (inr (response, e)))) ↦ inr (response, ground arith)
]

-- What a payment's exchange that returns normally has done.
pub exchange_payment_inversion :
    (w : World) (account : Account) (info : PaymentChannelInfo) (partner : Address) (alice bob : ℕ)
    (mine : Bytes) (s s' : Server)
    → exchange_payment w account info partner alice bob mine s ≡ (ok tt, s')
    → (theirs : Bytes) × (verify_state w.sdk info.app_id alice bob 4161 theirs partner w.now ≡ true)
      × (s' ≡ log_state partner (paid_state info.app_id alice bob w.now mine theirs) s)
unfolding exchange_payment
exchange_payment_inversion w account info partner alice bob mine s s' h =
    elim (send_request-cases w info.partner_ip (pay_request_of account.address alice bob w.now mine)
      s) [
        | inl (e, failed) ↦ absurd (ground arith)
        | inr (response, answered) ↦ elim (Option-cases (get_elem? response.response_data 0)) [
          | inl missing ↦ absurd (ground arith)
          | inr (theirs, found) ↦ (theirs, ground arith, ground arith)
        ]
      ]

-- What a payment of the node that returns normally has done.
pub pay_inversion :
    (w : World) (s s' : Server) (partner : Address) (amount : ℕ)
    → pay w partner amount s ≡ (ok tt, s')
    → (info : PaymentChannelInfo) × (latest : OffChainState) × (mine theirs : Bytes) × Knows s
        partner info latest
      × (verify_state w.sdk info.app_id
            (paid_balances (is_alice info s.algo_account.address) latest amount).0
            (paid_balances (is_alice info s.algo_account.address) latest amount).1
            4161
            theirs
            partner
            w.now
          ≡ true)
      × (s'
          ≡ log_state partner
              (paid_state info.app_id
                (paid_balances (is_alice info s.algo_account.address) latest amount).0
                (paid_balances (is_alice info s.algo_account.address) latest amount).1
                w.now
                mine
                theirs)
              s)
unfolding pay find_channel find_latest
pay_inversion w s s' partner amount h = elim (Option-cases (lookup partner s.onchain_states)) [
  | inl e1 ↦ absurd (ground arith)
  | inr (info, e1) ↦ elim (Option-cases (lookup partner s.offchain_states_log)) [
    | inl e2 ↦ absurd (ground arith)
    | inr (log, e2) ↦ elim (Option-cases (get_latest_off_chain_state log)) [
      | inl e3 ↦ absurd (ground arith)
      | inr (latest, e3) ↦
          let balances = paid_balances (is_alice info s.algo_account.address) latest amount in
          let mine =
            or_nil (sign_state w.sdk info.app_id s.algo_account balances.0 balances.1 4161 w.now) in
          let (theirs, verified, after) =
            exchange_payment_inversion w s.algo_account info partner balances.0 balances.1 mine s s'
              (ground arith) in
          (
            info,
            latest,
            mine,
            theirs,
            record { log = log; channel = e1; logged = e2; last = e3 },
            verified,
            after,
          )
    ]
  ]
]

paid_balances_conserve :
    (me_alice : Bool) (latest : OffChainState) (amount : ℕ)
    → IsWord amount
    → IsWord latest.alice_balance
    → IsWord latest.bob_balance
    → ((paid_balances me_alice latest amount).0 + (paid_balances me_alice latest amount).1)
        % word_mod
      ≡ (latest.alice_balance + latest.bob_balance) % word_mod
unfolding paid_balances
paid_balances_conserve true latest amount w wa wb = omega arith
paid_balances_conserve false latest amount w wa wb = omega arith

-- The entry that a payment of the node adds.
paid-IsEntry :
    (w : World) (s : Server) (partner : Address) (info : PaymentChannelInfo)
    (latest : OffChainState) (me_alice : Bool) (amount : ℕ) (mine theirs : Bytes)
    → IsWord w.now × IsWord amount
    → IsWellFormed s
    → Knows s partner info latest
    → IsEntry info.total_deposit w.now (
        paid_state info.app_id
          (paid_balances me_alice latest amount).0
          (paid_balances me_alice latest amount).1
          w.now
          mine
          theirs)
unfolding paid_state
paid-IsEntry w s partner info latest me_alice amount mine theirs words h k =
    let (log, logged, good) = h.channels partner info k.channel in
    let last : get_latest_off_chain_state log ≡ some latest = ground (arith, k.logged, k.last) in
    let (entry, _) = get_latest_off_chain_state-IsEntry info.total_deposit log latest good last in
    let balances = paid_balances-IsWord me_alice latest amount in
    next-IsEntry info.total_deposit log latest _ good last (words.0, balances.0, balances.1)
      (paid_balances_conserve me_alice latest amount words.1 entry.alice_word entry.bob_word)

-- A payment of the node keeps the invariant, however it ends.
pub pay-IsWellFormed :
    (w : World) (s : Server) (partner : Address) (amount : ℕ)
    → IsWord w.now × IsWord amount
    → IsWellFormed s
    → IsWellFormed (pay w partner amount s).1
unfolding paid_state
pay-IsWellFormed w s partner amount words h = paid (pay w partner amount s) refl
  where
    paid : (r : Result (Unit {0}) × Server) → pay w partner amount s ≡ r → IsWellFormed r.1
    paid (stop e, s') ran = subst IsWellFormed (sym (pay_atomic w s s' partner amount e ran)) h
    paid (ok tt, s') ran =
        let (info, latest, mine, theirs, k, _, after) = pay_inversion w s s' partner amount ran in
        let me_alice = is_alice info s.algo_account.address in
        let balances = paid_balances me_alice latest amount in
        let st = paid_state info.app_id balances.0 balances.1 w.now mine theirs in
        subst IsWellFormed (sym after) (
          log_state-IsWellFormed s partner st h (λ info' open_c.
            let same : info ≡ info' = ground (arith, k.channel) in
            subst (λ i. IsEntry i.total_deposit w.now st) same
              (paid-IsEntry w s partner info latest me_alice amount mine theirs words h k)))
