-- ===== src/Tests/Rounds.antt =====
-- Rounds of the watchtower.
use mathlib.Core.Path.{subst}
use algorand_state_channels.Base.{
  ℕ, arith, ◌≡◌, ◌⊎◌, refl, true, false, codes, bytes_eq, bytes_has_eq, none, some, [], ◌∷◌, leb,
  if◌then◌else◌,
}
use algorand_state_channels.Base.Dict.{lookup}
use algorand_state_channels.Base.Dict.Keys.{keys, contains, without, present, absent}
use algorand_state_channels.Payment.Calls.{raise_dispute}
use algorand_state_channels.Server.State.{PaymentChannelInfo, OffChainState}
use algorand_state_channels.Server.Log.{balance_of}
use algorand_state_channels.Server.Peer.{is_alice, close_channel_request}
use algorand_state_channels.Server.Reach.{close_requested}
use algorand_state_channels.Server.Watchtower.Disputes.{IsClosing, disputed, watch_channel_closing}
use algorand_state_channels.Server.Watchtower.Rounds.{
  start_range, advance, elapse, Round, begins, visits, elapses, IsKept, IsAlone,
}
use algorand_state_channels.Server.Watchtower.Rounds.Visits.{
  FindsWorse, SomeDisputes, round_disputes_meanwhile,
}
use algorand_state_channels.Server.Watchtower.Rounds.Effects.{Sent}
use algorand_state_channels.Server.Watchtower.Rounds.Outcomes.{round_disputes}
use algorand_state_channels.Tests.Nodes.{alice, bob, channel_info}
use algorand_state_channels.Tests.Channels.{
  paid_twice, bob_node_later, closing_world, bob_sees-IsClosing,
}

abbrev bob_info : PaymentChannelInfo
bob_info = channel_info (codes "10.0.0.1")

-- Bob's watchtower disputes the closing of his channel.
disputing :
    Round bob_node_later
      (disputed alice.address bob_info paid_twice bob_node_later)
      (advance alice.address
        (disputed alice.address bob_info paid_twice bob_node_later)
        (start_range bob_node_later))
      (record { world = closing_world; server = bob_node_later; address = alice.address } ∷ [])
unfolding lookup contains keys bytes_eq
disputing =
    visits closing_world alice.address bob_info
      (disputed alice.address bob_info paid_twice bob_node_later) begins refl refl
      (watch_channel_closing closing_world bob_node_later alice.address bob_info paid_twice 600_000
        400_000 bob_sees-IsClosing)

disputing-IsAlone : IsAlone disputing
unfolding IsAlone disputing
disputing-IsAlone = tt

disputing_over :
    (advance alice.address
      (disputed alice.address bob_info paid_twice bob_node_later)
      (start_range bob_node_later)).due
    ≡ []
unfolding advance present without keys bytes_eq
disputing_over = refl

round_disputes_example :
    let s = disputed alice.address bob_info paid_twice bob_node_later in
    let me_alice = is_alice bob_info bob.address in
    let is_fair = leb (balance_of me_alice paid_twice) (if me_alice then 600_000 else 400_000) in
    ((is_fair ≡ true) × (lookup alice.address s.onchain_states ≡ some bob_info))
    ⊎ ((is_fair ≡ false)
        × (lookup alice.address s.onchain_states ≡ none)
        × Sent (raise_dispute bob 4161 7 500_000 500_000 2000 (codes "a") (codes "b")) s)
unfolding lookup bytes_eq
round_disputes_example =
    round_disputes bob_node_later alice.address bob_info paid_twice 600_000 400_000 disputing
      disputing-IsAlone disputing_over refl ((λ e. bob_sees-IsClosing), tt)

-- The same, after a request to close the channel that comes without arguments.
meanwhile :
    Round bob_node_later
      (disputed alice.address bob_info paid_twice bob_node_later)
      (advance alice.address
        (disputed alice.address bob_info paid_twice bob_node_later)
        (elapse false bob_node_later bob_node_later (start_range bob_node_later)))
      (record { world = closing_world; server = bob_node_later; address = alice.address } ∷ [])
unfolding lookup contains keys bytes_eq close_channel_request elapse present
meanwhile =
    visits closing_world alice.address bob_info
      (disputed alice.address bob_info paid_twice bob_node_later)
      (elapses begins (close_requested closing_world [] bob_node_later)) refl refl
      (watch_channel_closing closing_world bob_node_later alice.address bob_info paid_twice 600_000
        400_000 bob_sees-IsClosing)

meanwhile-IsKept : IsKept alice.address meanwhile
unfolding IsKept meanwhile close_channel_request
meanwhile-IsKept = (tt, refl, λ e. e)

meanwhile_over :
    (advance alice.address
      (disputed alice.address bob_info paid_twice bob_node_later)
      (elapse false bob_node_later bob_node_later (start_range bob_node_later))).due
    ≡ []
unfolding advance elapse present without absent keys bytes_eq lookup
meanwhile_over = refl

bob-FindsWorse :
    FindsWorse alice.address
      (record { world = closing_world; server = bob_node_later; address = alice.address })
unfolding lookup bytes_eq
bob-FindsWorse = record {
  worse = λ info known.
      let same : bob_info ≡ info = ground arith in
      subst
        (λ i.
          (latest : OffChainState) × (alice_side bob_side : ℕ) × IsClosing closing_world
            bob_node_later alice.address i latest alice_side bob_side
          × (leb (balance_of (is_alice i bob.address) latest)
                (if is_alice i bob.address then alice_side else bob_side)
              ≡ false))
        same (paid_twice, 600_000, 400_000, bob_sees-IsClosing, refl);
}

round_disputes_meanwhile_example :
    SomeDisputes alice.address
      (record { world = closing_world; server = bob_node_later; address = alice.address } ∷ [])
unfolding lookup bytes_eq
round_disputes_meanwhile_example =
    round_disputes_meanwhile alice.address meanwhile meanwhile_over meanwhile-IsKept refl
      ((λ e. bob-FindsWorse), tt)
