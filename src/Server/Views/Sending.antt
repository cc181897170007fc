-- ===== src/Server/Views/Sending.antt =====
-- The payments that a node makes, on its views.
use mathlib.Core.Path.{subst}
use algorand_state_channels.Base.{
  ℕ, ◌≡◌, inl, inr, refl, ap, sym, ◌∙◌, Bool, true, false, not, bytes_eq, bytes_eq_iff,
  bytes_has_eq, some, arith, Bool-cases,
}
use algorand_state_channels.Base.Word.{slt, IsWord}
use algorand_state_channels.Payment.Sdk.{Address}
use algorand_state_channels.Server.State.{Server, OffChainState, World}
use algorand_state_channels.Server.Action.{Result, ok, stop}
use algorand_state_channels.Server.Invariant.{IsWellFormed}
use algorand_state_channels.Server.Peer.{is_alice}
use algorand_state_channels.Server.Rpc.{pay, paid_balances, paid_state}
use algorand_state_channels.Server.Rpc.Failures.{pay_atomic}
use algorand_state_channels.Server.Growth.{pay_inversion}
use algorand_state_channels.Server.Views.{View, view, transfer, Evolves, outgoing, stays, sends}
use algorand_state_channels.Server.Views.Payments.{view-log_state_ne, view-known, view-log_state}

-- The balances of a payment, as a transfer to the partner.
transfer-paid_balances :
    (me_alice : Bool) (latest : OffChainState) (amount t : ℕ) (v : View)
    → v.alice ≡ latest.alice_balance
    → v.bob ≡ latest.bob_balance
    → record v {
      alice = (paid_balances me_alice latest amount).0;
      bob = (paid_balances me_alice latest amount).1;
      time = t;
    }
      ≡ transfer (not me_alice) amount t v
unfolding paid_balances
transfer-paid_balances true latest amount t v a b = cc (a, b)
transfer-paid_balances false latest amount t v a b = cc (a, b)

module _ (w : World) (partner : Address) (amount : ℕ) (s : Server) (h : IsWellFormed s)
    (time_word : IsWord w.now)
    (later : (v : View) → view partner s ≡ some v → slt v.time w.now ≡ true) where
  sent-Evolves :
      (d : Address) (s' : Server)
      → pay w partner amount s ≡ (ok tt, s')
      → Evolves (outgoing amount w.now) (view d s) (view d s')
  unfolding paid_state
  sent-Evolves d s' ran =
      let (info, latest, mine, theirs, knows, _, after) = pay_inversion w s s' partner amount ran in
      let me_alice = is_alice info s.algo_account.address in
      let balances = paid_balances me_alice latest amount in
      let st = paid_state info.app_id balances.0 balances.1 w.now mine theirs in
      let v : View = record {
        me_alice = me_alice;
        alice = latest.alice_balance;
        bob = latest.bob_balance;
        time = latest.timestamp;
      } in
      let before : view partner s ≡ some v =
        view-known partner s info knows.log latest knows.channel knows.logged knows.last in
      let now : view partner s' ≡ some (transfer (not me_alice) amount w.now v) =
        ap (view partner) after
        ∙ view-log_state partner s info knows.log latest st h knows.channel knows.logged knows.last
            time_word (later v before)
        ∙ ap some (transfer-paid_balances me_alice latest amount w.now v refl refl) in
      elim (Bool-cases (bytes_eq partner d)) [
        | inl same ↦
            subst (λ x. Evolves (outgoing amount w.now) (view x s) (view x s'))
              ((bytes_eq_iff partner d).0 same)
              (rw (before, now) (sends v amount w.now (later v before)))
        | inr other ↦
            subst (Evolves (outgoing amount w.now) (view d s))
              (sym (
                ap (view d) after
                ∙ view-log_state_ne partner d st s (ground (arith, bytes_eq_iff partner d))))
              (stays (outgoing amount w.now) (view d s))
      ]

  ran-Evolves :
      (d : Address) (r : Result (Unit {0}) × Server)
      → pay w partner amount s ≡ r
      → Evolves (outgoing amount w.now) (view d s) (view d r.1)
  ran-Evolves d (stop e, s') ran =
      subst (λ x. Evolves (outgoing amount w.now) (view d s) (view d x))
        (sym (pay_atomic w s s' partner amount e ran)) (stays (outgoing amount w.now) (view d s))
  ran-Evolves d (ok tt, s') ran = sent-Evolves d s' ran

  -- If the clock of a well-formed node is a uint64 and past the time of its view of the partner,
  -- each view stays as it is under Pay, or the amount moves from the node to the other side in it,
  -- and its time becomes that of the clock.
  pub pay-Evolves :
      (d : Address) → Evolves (outgoing amount w.now) (view d s) (view d (pay w partner amount s).1)
  pay-Evolves d = ran-Evolves d (pay w partner amount s) refl
