-- ===== src/Server/Watchtower/Rounds/Passes.antt =====
-- A pass over the channels in the order of the list, as a round in which nothing else happens.
use mathlib.Core.Path.{subst}
use algorand_state_channels.Base.{ℕ, ◌⊎◌, sym, some, leb, if◌then◌else◌}
use algorand_state_channels.Base.{
  inl, inr, ◌≡◌, refl, ap, ◌∙◌, true, false, All, bytes_has_eq, bytes_eq_iff, none, List, [], ◌∷◌,
  arith,
}
use algorand_state_channels.Base.Dict.{Dict, lookup}
use algorand_state_channels.Base.Dict.Keys.{
  keys, contains, without, is_key, contains-keys, contains-append, without-missing, present-all,
  HasDistinct, AllFound,
}
use algorand_state_channels.Payment.Sdk.{Address}
use algorand_state_channels.Server.State.{Server, PaymentChannelInfo, OffChainState, World}
use algorand_state_channels.Server.Action.{ok}
use algorand_state_channels.Server.Steps.{Result-cases}
use algorand_state_channels.Server.Reach.{Reach}
use algorand_state_channels.Server.Reach.Distinct.{Reach-HasDistinct}
use algorand_state_channels.Server.Watchtower.{watch_channel, watch_channels, watch_round}
use algorand_state_channels.Payment.Calls.{raise_dispute}
use algorand_state_channels.Server.Log.{balance_of}
use algorand_state_channels.Server.Peer.{is_alice}
use algorand_state_channels.Server.Watchtower.Disputes.{IsClosing}
use algorand_state_channels.Server.Watchtower.Rounds.Outcomes.{round_disputes}
use algorand_state_channels.Server.Watchtower.Rounds.{
  Range, advance, start_range, Visit, Round, begins, visits, IsAlone,
}
use algorand_state_channels.Server.Watchtower.Rounds.Effects.{Sent, other_channel}

-- The other entries are found after an iteration.
other_entries :
    (w : World) (a : Address) (info : PaymentChannelInfo) (d : Dict Address PaymentChannelInfo)
    (s : Server)
    → is_key a d ≡ false
    → AllFound d s.onchain_states
    → AllFound d (watch_channel w a info s).1.onchain_states
unfolding lookup
other_entries w a info [] s absent h = tt
other_entries w a info ((k, v) ∷ d) s absent (found, rest) = (
  other_channel w a k info s (λ e. ground (arith, bytes_eq_iff k a)) ∙ found,
  other_entries w a info d s (ground (arith)) rest,
)

-- The entries of a longer map.
AllFound-cons :
    (k : Address) (v : PaymentChannelInfo) (d whole : Dict Address PaymentChannelInfo)
    → is_key k d ≡ false
    → AllFound d whole
    → AllFound d ((k, v) ∷ whole)
unfolding lookup
AllFound-cons k v [] whole absent h = tt
AllFound-cons k v ((j, u) ∷ d) whole absent (found, rest) = (
  ground (arith, bytes_eq_iff k j, bytes_eq_iff j k),
  AllFound-cons k v d whole (ground arith) rest,
)

HasDistinct-AllFound : (d : Dict Address PaymentChannelInfo) → HasDistinct d → AllFound d d
unfolding lookup
HasDistinct-AllFound [] h = tt
HasDistinct-AllFound ((k, v) ∷ d) (absent, h) =
    (ground (arith, bytes_eq_iff k k), AllFound-cons k v d d absent (HasDistinct-AllFound d h))

AllFound-keys :
    (d whole : Dict Address PaymentChannelInfo)
    → AllFound d whole
    → All (λ k. is_key k whole ≡ true) (keys d)
unfolding keys
AllFound-keys [] whole h = tt
AllFound-keys ((k, v) ∷ d) whole (found, rest) = (ground arith, AllFound-keys d whole rest)

-- A round that is over, with the same world in all its iterations.
pub record Ends (w : World) (start s' : Server) : Type 0 where
  pub range : Range
  pub iterations : List Visit
  pub round : Round start s' range iterations
  pub alone : IsAlone round
  pub over : range.due ≡ []
  pub same_world : All (λ v. v.world ≡ w) iterations

module _ (w : World) (start : Server) where
  pass-Ends :
      (d : Dict Address PaymentChannelInfo) (s s' : Server) (r : Range) (vs : List Visit)
      (round : Round start s r vs)
      → IsAlone round
      → r.replaced ≡ none
      → r.due ≡ keys d
      → HasDistinct d
      → AllFound d s.onchain_states
      → All (λ v. v.world ≡ w) vs
      → watch_channels w d s ≡ (ok tt, s')
      → Ends w start s'
  unfolding watch_channels keys advance IsAlone contains without
  pass-Ends [] s s' r vs round alone live due distinct found worlds e =
      let same : s ≡ s' = ap (λ x. x.1) e in
      subst (Ends w start) same (record {
        range = r;
        iterations = vs;
        round = round;
        alone = alone;
        over = due;
        same_world = worlds;
      })
  pass-Ends ((a, info) ∷ d) s s' r vs round alone live due (absent, distinct) (found, rest) worlds
        e =
      let after = (watch_channel w a info s).1 in
      let others = other_entries w a info d s absent rest in
      elim (Result-cases (watch_channel w a info s)) [
        | inr (stopped, ends) ↦ absurd (ground arith)
        | inl (tt, ends) ↦
            pass-Ends d after s' (advance a after r)
              (record { world = w; server = s; address = a } ∷ vs)
              (visits w a info after round (ground arith)
                (ground (arith, contains-append a r.due r.created, bytes_eq_iff a a)) ends)
              alone live
              (ground (
                arith,
                bytes_eq_iff a a,
                contains-keys a d,
                without-missing a (keys d),
                present-all after.onchain_states (keys d)
                    (AllFound-keys d after.onchain_states others),
              ))
              distinct others (refl, worlds) (ground arith)
      ]

  -- Such a pass of a reached node.
  watch_round-Ends :
      (s' : Server) → Reach start → watch_round w start ≡ (ok tt, s') → Ends w start s'
  unfolding watch_round IsAlone
  watch_round-Ends s' reached e =
      let distinct = Reach-HasDistinct reached in
      pass-Ends start.onchain_states start s' (start_range start) [] begins tt refl refl distinct
        (HasDistinct-AllFound start.onchain_states distinct) tt e

  -- What is true of every visit in the world of a pass.
  same_world-All :
      (P : World → Type 0) (a : Address) (vs : List Visit)
      → P w
      → All (λ v. v.world ≡ w) vs
      → All (λ v. v.address ≡ a → P v.world) vs
  same_world-All P a [] p worlds = tt
  same_world-All P a (v ∷ vs) p (same, worlds) =
      ((λ own. subst P (sym same) p), same_world-All P a vs p worlds)

  -- A pass of a reached node's watchtower that does not end the process, over a channel whose
  -- closing the node finds: if the contract's balance for the node is at least that of its latest
  -- state, the node still has the channel; otherwise it has forgotten the channel and has sent a
  -- dispute with that state. What the pass does with the other channels does not matter.
  pub watch_round_disputes :
      (s' : Server) (a : Address) (info : PaymentChannelInfo) (latest : OffChainState)
      (alice bob : ℕ)
      → Reach start
      → watch_round w start ≡ (ok tt, s')
      → lookup a start.onchain_states ≡ some info
      → IsClosing w start a info latest alice bob
      → let me_alice = is_alice info start.algo_account.address in
        let is_fair = leb (balance_of me_alice latest) (if me_alice then alice else bob) in
        ((is_fair ≡ true) × (lookup a s'.onchain_states ≡ some info))
        ⊎ ((is_fair ≡ false)
            × (lookup a s'.onchain_states ≡ none)
            × Sent
                (raise_dispute start.algo_account 4161 info.app_id latest.alice_balance
                  latest.bob_balance latest.timestamp latest.alice_signature latest.bob_signature)
                s')
  watch_round_disputes s' a info latest alice bob reached e known closing =
      let ends = watch_round-Ends s' reached e in
      round_disputes start a info latest alice bob ends.round ends.alone ends.over known (
        same_world-All (λ x. IsClosing x start a info latest alice bob) a ends.iterations closing
          ends.same_world)
