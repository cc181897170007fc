-- ===== src/Server/Watchtower/Rounds/Outcomes.antt =====
-- How a round ends for a channel whose contract is being closed, if the node does nothing else.
use algorand_state_channels.Base.{
  ℕ, ◌≡◌, ◌≢◌, ◌⊎◌, inl, inr, refl, ap, sym, ◌∙◌, Bool, true, false, All, bytes_has_eq,
  bytes_eq_iff, none, some, List, [], ◌∷◌, ◌++◌, ◌==◌, leb, if◌then◌else◌, arith, Bool-cases,
}
use algorand_state_channels.Base.Dict.{lookup, lookup-erase_self}
use algorand_state_channels.Base.Dict.Keys.{contains, contains-keys}
use algorand_state_channels.Payment.Sdk.{Address}
use algorand_state_channels.Payment.Calls.{Submission, raise_dispute}
use algorand_state_channels.Server.State.{Server, PaymentChannelInfo, OffChainState, World}
use algorand_state_channels.Server.Action.{ok}
use algorand_state_channels.Server.Log.{balance_of}
use algorand_state_channels.Server.Peer.{is_alice}
use algorand_state_channels.Server.Steps.{watch_channel-Drops}
use algorand_state_channels.Server.Watchtower.{watch_channel, forget_channel}
use algorand_state_channels.Server.Watchtower.Disputes.{IsClosing, disputed, watch_channel_closing}
use algorand_state_channels.Server.Watchtower.Rounds.{
  Range, advance, Visit, Round, begins, visits, elapses, IsAlone,
}
use algorand_state_channels.Server.Watchtower.Rounds.Visits.{advance-due}
use algorand_state_channels.Server.Watchtower.Rounds.Effects.{
  Sent, Sent-grows, watch_channel-Grows, IsClosing-logs, other_channel,
}

-- A round in which nothing else happens keeps the logs and the account.
alone_keeps :
    {start s : Server} {r : Range} {vs : List Visit} (round : Round start s r vs)
    → IsAlone round
    → (s.offchain_states_log ≡ start.offchain_states_log)
      × (s.algo_account ≡ start.algo_account)
      × (r.replaced ≡ none)
unfolding IsAlone advance
alone_keeps begins alone = (refl, refl, refl)
alone_keeps (visits {s = s} w address info s' round _ _ ends) alone =
    let (logs, account, live) = alone_keeps round alone in
    let drops = watch_channel-Drops w address info s in
    let after : (watch_channel w address info s).1 ≡ s' = ap (λ x. x.1) ends in
    (
      ap (λ x. x.offchain_states_log) (sym after) ∙ drops.same_logs ∙ logs,
      ap (λ x. x.algo_account) (sym after) ∙ drops.same_account ∙ account,
      live,
    )
alone_keeps (elapses round st) alone = absurd alone

module _ (start : Server) (a : Address) (info : PaymentChannelInfo) (latest : OffChainState)
    (alice bob : ℕ) where
  -- The contract's balance for the node is at least that of its latest state.
  abbrev is_fair : Bool
  is_fair =
      let me_alice = is_alice info start.algo_account.address in
      leb (balance_of me_alice latest) (if me_alice then alice else bob)

  -- The dispute with the latest state.
  abbrev dispute : Submission
  dispute =
      raise_dispute start.algo_account 4161 info.app_id latest.alice_balance latest.bob_balance
        latest.timestamp latest.alice_signature latest.bob_signature

  -- What holds of the channel during a round.
  pub data Meanwhile (s : Server) (r : Range) : Type 0 where
    waits :
        lookup a s.onchain_states ≡ some info
        → (contains a r.due ≡ true) ⊎ (is_fair ≡ true)
        → Meanwhile s r
    is_over : is_fair ≡ false → lookup a s.onchain_states ≡ none → Sent dispute s → Meanwhile s r

  other-Meanwhile :
      (w : World) (address : Address) (other : PaymentChannelInfo) (s s' : Server) (r : Range)
      → r.replaced ≡ none
      → address ≢ a
      → (watch_channel w address other s).1 ≡ s'
      → Meanwhile s r
      → Meanwhile s' (advance address s' r)
  unfolding contains
  other-Meanwhile w address other s s' r live distinct after (waits found stage) =
      let still : lookup a s'.onchain_states ≡ some info =
        ap (λ x. lookup a x.onchain_states) (sym after)
        ∙ other_channel w address a other s distinct
        ∙ found in
      waits still
        (ground (arith, stage, advance-due address a s' r, live, still, bytes_eq_iff address a))
  other-Meanwhile w address other s s' r live distinct after (is_over worse gone sent) =
      let (more, grows) = watch_channel-Grows w address other s in
      is_over worse
        (ap (λ x. lookup a x.onchain_states) (sym after)
          ∙ other_channel w address a other s distinct
          ∙ gone)
        (Sent-grows dispute s s' more (ap (λ x. x.submitted) (sym after) ∙ grows) sent)

  own-Meanwhile :
      (w : World) (s s' : Server) (r r' : Range)
      → IsClosing w s a info latest alice bob
      → s.algo_account ≡ start.algo_account
      → (watch_channel w a info s).1 ≡ s'
      → lookup a s.onchain_states ≡ some info
      → Meanwhile s' r'
  unfolding forget_channel
  own-Meanwhile w s s' r r' closing account after found =
      let run : watch_channel w a info s
          ≡ (if is_fair then (ok tt, s) else (ok tt, disputed a info latest s)) =
        rw (← account) (watch_channel_closing w s a info latest alice bob closing) in
      elim (Bool-cases is_fair) [
        | inl fair ↦
            let same : s ≡ s' = ground arith in
            waits (ap (λ x. lookup a x.onchain_states) (sym same) ∙ found) (inr fair)
        | inr worse ↦
            let same : disputed a info latest s ≡ s' = ground arith in
            is_over worse
              (ap (λ x. lookup a x.onchain_states) (sym same)
                ∙ lookup-erase_self a s.onchain_states)
              (
                s.submitted,
                [],
                ap (λ x. x.submitted) (sym same)
                    ∙ ap
                        (λ x.
                          s.submitted
                          ++ raise_dispute x 4161 info.app_id latest.alice_balance
                              latest.bob_balance latest.timestamp latest.alice_signature
                              latest.bob_signature
                            ∷ [])
                        account,
              )
      ]

  -- What a round so far has done with the channel.
  alone-Meanwhile :
      {s : Server} {r : Range} {vs : List Visit} (round : Round start s r vs)
      → IsAlone round
      → lookup a start.onchain_states ≡ some info
      → All (λ v. v.address ≡ a → IsClosing v.world start a info latest alice bob) vs
      → Meanwhile s r
  unfolding IsAlone
  alone-Meanwhile begins alone found closing =
      waits found (inl (ground (arith, contains-keys a start.onchain_states)))
  alone-Meanwhile (visits {s = s} {r = r} w address other s' round known may ends) alone found
        (closing, earlier) =
      let (logs, account, live) = alone_keeps round alone in
      let after : (watch_channel w address other s).1 ≡ s' = ap (λ x. x.1) ends in
      let before = alone-Meanwhile round alone found earlier in
      elim (Bool-cases (address == a)) [
        | inr differs ↦
            other-Meanwhile w address other s s' r live
              (λ e. ground (arith, bytes_eq_iff address a)) after before
        | inl same ↦
            let own : address ≡ a = (bytes_eq_iff address a).0 same in
            elim before [
              | is_over worse gone sent ↦ absurd (ground (arith, live, own, gone, known))
              | waits still stage ↦
                  let known_info : info ≡ other = ground (arith, live, own, still, known) in
                  own-Meanwhile w s s' r (advance address s' r)
                    (IsClosing-logs w start s a info latest alice bob logs (closing own)) account
                    (rw (known_info, ← own) after) still
            ]
      ]
  alone-Meanwhile (elapses round st) alone found closing = absurd alone

  -- If nothing else happens during a round, and every iteration for a channel finds its contract
  -- being closed with the same balances, then after the round the node still has the channel if
  -- the contract's balance for the node is at least that of its latest state; otherwise it has
  -- forgotten the channel and has sent a dispute with that state. The order of the iterations does
  -- not matter.
  pub round_disputes :
      {s : Server} {r : Range} {vs : List Visit} (round : Round start s r vs)
      → IsAlone round
      → r.due ≡ []
      → lookup a start.onchain_states ≡ some info
      → All (λ v. v.address ≡ a → IsClosing v.world start a info latest alice bob) vs
      → let me_alice = is_alice info start.algo_account.address in
        let is_fair = leb (balance_of me_alice latest) (if me_alice then alice else bob) in
        ((is_fair ≡ true) × (lookup a s.onchain_states ≡ some info))
        ⊎ ((is_fair ≡ false)
            × (lookup a s.onchain_states ≡ none)
            × Sent
                (raise_dispute start.algo_account 4161 info.app_id latest.alice_balance
                  latest.bob_balance latest.timestamp latest.alice_signature latest.bob_signature)
                s)
  unfolding contains
  round_disputes {s} {r} round alone over found closing =
      elim (alone-Meanwhile round alone found closing) [
        | is_over worse gone sent ↦ inr (worse, gone, sent)
        | waits still (inr fair) ↦ inl (fair, still)
        | waits still (inl due) ↦ absurd (ground (arith, over))
      ]
