-- ===== src/Process/Transport/Payments.antt =====
-- A payment between two processes, also where the request or the response is lost.
use mathlib.Core.Path.{subst}
use algorand_state_channels.Base.{
  ℕ, ◌≡◌, ◌⊎◌, inl, inr, ap, sym, ◌∙◌, true, Bytes, bytes_eq_iff, bytes_has_eq, nat_has_eq, codes,
  arith,
}
use algorand_state_channels.Base.Word.{IsWord}
use algorand_state_channels.Payment.Sdk.{Address}
use algorand_state_channels.Server.State.{
  Server, PaymentChannelInfo, OffChainState, P2PResponse, read_failed, replied, World,
}
use algorand_state_channels.Server.Action.{Result, Stop, ok, stop}
use algorand_state_channels.Server.GlobalState.{log_state}
use algorand_state_channels.Server.Peer.{is_alice}
use algorand_state_channels.Server.Rpc.{
  pay_request_of, pay, paid_balances, paid_state, find_channel, find_latest, exchange_payment,
  send_request,
}
use algorand_state_channels.Server.Rpc.Agreement.{Knows, paid_balances-IsWord}
use algorand_state_channels.Server.Rpc.Failures.{pay_atomic}
use algorand_state_channels.Server.Growth.{Exchange-cases, exchange_payment_inversion}
use algorand_state_channels.Payment.Calls.{or_nil}
use algorand_state_channels.Payment.Signing.{sign_state, verify_state}
use algorand_state_channels.Server.Steps.{Result-cases}
use algorand_state_channels.Process.{Json}
use algorand_state_channels.Process.Transport.{ClientJson, IsJson, exchange_over}
use algorand_state_channels.Process.Transport.Requests.{HasLogged, received_pay}

-- What Pay reads when it returns normally.
approved_pay :
    (w : World) (s s' : Server) (partner : Address) (info : PaymentChannelInfo)
    (latest : OffChainState) (amount : ℕ)
    → Knows s partner info latest
    → pay w partner amount s ≡ (ok tt, s')
    → let balances = paid_balances (is_alice info s.algo_account.address) latest amount in
      let mine =
        or_nil (sign_state w.sdk info.app_id s.algo_account balances.0 balances.1 4161 w.now) in
      (response : P2PResponse) × (w.peer info.partner_ip
          (pay_request_of s.algo_account.address balances.0 balances.1 w.now mine)
        ≡ replied response)
      × (response.message ≡ codes "approve")
unfolding pay find_channel find_latest exchange_payment send_request
approved_pay w s s' partner info latest amount k e =
    let balances = paid_balances (is_alice info s.algo_account.address) latest amount in
    let mine =
      or_nil (sign_state w.sdk info.app_id s.algo_account balances.0 balances.1 4161 w.now) in
    let r = pay_request_of s.algo_account.address balances.0 balances.1 w.now mine in
    elim (Exchange-cases (w.peer info.partner_ip r)) [
      | inl x ↦ absurd (ground (arith, k.channel, k.logged, k.last))
      | inr (inl x) ↦ absurd (ground (arith, k.channel, k.logged, k.last))
      | inr (inr (inl x)) ↦ absurd (ground (arith, k.channel, k.logged, k.last))
      | inr (inr (inr (inl x))) ↦ absurd (ground (arith, k.channel, k.logged, k.last))
      | inr (inr (inr (inr (response, x)))) ↦ (
        response,
        x,
        ground
            (arith, k.channel, k.logged, k.last, bytes_eq_iff response.message (codes "approve")),
      )
    ]

-- What Pay has saved when it returns normally.
paid_pay :
    (w : World) (s s' : Server) (partner : Address) (info : PaymentChannelInfo)
    (latest : OffChainState) (amount : ℕ)
    → Knows s partner info latest
    → pay w partner amount s ≡ (ok tt, s')
    → let balances = paid_balances (is_alice info s.algo_account.address) latest amount in
      let mine =
        or_nil (sign_state w.sdk info.app_id s.algo_account balances.0 balances.1 4161 w.now) in
      (theirs : Bytes) × (verify_state w.sdk info.app_id balances.0 balances.1 4161 theirs partner
          w.now
        ≡ true)
      × (s' ≡ log_state partner (paid_state info.app_id balances.0 balances.1 w.now mine theirs) s)
unfolding pay find_channel find_latest
paid_pay w s s' partner info latest amount k e =
    let balances = paid_balances (is_alice info s.algo_account.address) latest amount in
    let mine =
      or_nil (sign_state w.sdk info.app_id s.algo_account balances.0 balances.1 4161 w.now) in
    exchange_payment_inversion w s.algo_account info partner balances.0 balances.1 mine s s'
      (ground (arith, k.channel, k.logged, k.last))

-- The three ends of a payment from a node in the state `a` to one in the state `b`, after which they
-- are in `a'` and `b'`: neither has saved anything, only the receiver has, or both have.
pub data PayOutcome (wa wb : World) (a b : Server) (partner : Address) (info : PaymentChannelInfo)
    (alice bob : ℕ) (mine : Bytes) : Result (Unit {0}) → Server → Server → Type 0 where
  neither : (e : Stop) → PayOutcome wa wb a b partner info alice bob mine (stop e) a b
  receiver_only :
      (e : Stop) (b' : Server)
      → HasLogged wb a.algo_account.address alice bob wa.now mine b b'
      → PayOutcome wa wb a b partner info alice bob mine (stop e) a b'
  both :
      (theirs : Bytes) (b' : Server)
      → HasLogged wb a.algo_account.address alice bob wa.now mine b b'
      → verify_state wa.sdk info.app_id alice bob 4161 theirs partner wa.now ≡ true
      → PayOutcome wa wb a b partner info alice bob mine
          (ok tt)
          (log_state partner (paid_state info.app_id alice bob wa.now mine theirs) a)
          b'

module _ (wa wb : World) (json : Json) (client : ClientJson) (ip : Bytes) (a b : Server)
    (partner : Address) (info : PaymentChannelInfo) (latest : OffChainState) (amount : ℕ) where
  -- A payment to the process of another node ends in one of three ways. Pay fails, and neither node
  -- has saved anything; Pay fails and the payer has saved nothing, but the receiver has accepted and
  -- logged the payment; or Pay succeeds, the receiver has accepted and logged the payment, and the
  -- payer has saved the same balances and time, with a signature of the partner that it has
  -- verified. So the payer never saves a payment that the receiver has not. The payer knows the
  -- channel, the time is a uint64, a JSON text that a buffer cuts is an error or is read as a whole
  -- one, and Pay reads what the receiver's process sends back, or fails to read it.
  pub pay_outcome :
      let balances = paid_balances (is_alice info a.algo_account.address) latest amount in
      let mine =
        or_nil (sign_state wa.sdk info.app_id a.algo_account balances.0 balances.1 4161 wa.now) in
      let r = pay_request_of a.algo_account.address balances.0 balances.1 wa.now mine in
      let x = exchange_over wb json client ip r b in
      let y = pay wa partner amount a in
      Knows a partner info latest
      → IsWord wa.now
      → IsJson json client r
      → (wa.peer info.partner_ip r ≡ x.0) ⊎ (wa.peer info.partner_ip r ≡ read_failed)
      → PayOutcome wa wb a b partner info balances.0 balances.1 mine y.0 y.1 x.1
  pay_outcome k now_word is_json delivers =
      let balances = paid_balances (is_alice info a.algo_account.address) latest amount in
      let mine =
        or_nil (sign_state wa.sdk info.app_id a.algo_account balances.0 balances.1 4161 wa.now) in
      let r = pay_request_of a.algo_account.address balances.0 balances.1 wa.now mine in
      let x = exchange_over wb json client ip r b in
      let a' = (pay wa partner amount a).1 in
      let words = paid_balances-IsWord (is_alice info a.algo_account.address) latest amount in
      let receives =
        received_pay wb json client ip a.algo_account.address balances.0 balances.1 wa.now mine b
          (words.0, words.1, now_word) is_json in
      let Outcome = λ (y : Result (Unit {0}) × Server) (b' : Server).
        PayOutcome wa wb a b partner info balances.0 balances.1 mine y.0 y.1 b' in
      elim (Result-cases (pay wa partner amount a)) [
        | inr (e, fails) ↦
            let same = pay_atomic wa a a' partner amount e fails in
            let fails_as : (stop e, a) ≡ pay wa partner amount a =
              sym (fails ∙ ap (λ s. (stop e, s)) same) in
            subst (λ y. Outcome y x.1) fails_as
              (elim receives [
                | inl (unchanged, _) ↦
                    subst (λ s. Outcome (stop e, a) s) (sym unchanged) (neither e)
                | inr logged ↦ receiver_only e x.1 logged
              ])
        | inl (tt, pays) ↦ elim receives [
          | inl (_, no_approval) ↦
              let (response, replies, approves) =
                approved_pay wa a a' partner info latest amount k pays in
              elim delivers [
                | inl arrives ↦ absurd (no_approval response (sym arrives ∙ replies) approves)
                | inr lost ↦ absurd (ground arith)
              ]
          | inr logged ↦
              let (theirs, verified, saves) = paid_pay wa a a' partner info latest amount k pays in
              subst (λ y. Outcome y x.1) (sym (pays ∙ ap (λ s. (ok tt, s)) saves))
                (both theirs x.1 logged verified)
        ]
      ]
