-- ===== src/Server/Watchtower/Rounds/Visits.antt =====
-- A channel that is being closed, in a round that goes on while the node does.
use mathlib.Core.Path.{subst}
use algorand_state_channels.Base.{
  ℕ, ◌==◌, if◌then◌else◌, ◌≡◌, ◌≢◌, ◌⊎◌, inl, inr, refl, sym, ap, ◌∙◌, Bool, true, false, not, ◌&&◌,
  bytes_has_eq, none, some, List, [], ◌∷◌, All, leb, arith, bytes_eq_iff, Bool-cases,
}
use algorand_state_channels.Base.Dict.{lookup}
use algorand_state_channels.Base.Dict.Keys.{
  without, contains, is_key, contains-without, contains-keys, contains-present,
}
use algorand_state_channels.Payment.Sdk.{Address}
use algorand_state_channels.Server.State.{
  Server, PaymentChannelInfo, OffChainState, PaymentLog, World,
}
use algorand_state_channels.Server.Action.{ok}
use algorand_state_channels.Server.Log.{get_latest_off_chain_state, balance_of}
use algorand_state_channels.Server.Peer.{is_alice}
use algorand_state_channels.Server.Watchtower.{watch_channel}
use algorand_state_channels.Server.Watchtower.Disputes.{IsClosing, disputed, watch_channel_closing}
use algorand_state_channels.Server.Watchtower.Rounds.{
  Range, ranged, advance, elapse, is_reset, Visit, Round, begins, visits, elapses, IsKept,
}
use algorand_state_channels.Server.Watchtower.Rounds.Effects.{other_channel}

pub advance-due :
    (a key : Address) (s' : Server) (r : Range)
    → contains key (advance a s' r).due
      ≡ (is_key key (ranged r s') && (not (a == key) && contains key r.due))
unfolding advance
advance-due a key s' r =
    ground
      (arith, contains-present key (ranged r s') (without a r.due), contains-without key a r.due)

elapse-due :
    (key : Address) (reset : Bool) (s s' : Server) (r : Range)
    → contains key r.due ≡ true
    → is_key key (ranged (elapse reset s s' r) s') ≡ true
    → contains key (elapse reset s s' r).due ≡ true
unfolding elapse
elapse-due key true s s' r e o = e
elapse-due key false s s' r e o = ground (arith, contains-present key (ranged r s') r.due)

-- The iteration finds the channel, if the node has it, being closed with a worse balance for the
-- node than that of its latest state.
pub record FindsWorse (a : Address) (v : Visit) : Type 0 where
  pub worse :
      (info : PaymentChannelInfo)
      → lookup a v.server.onchain_states ≡ some info
      → (latest : OffChainState) × (alice bob : ℕ) × IsClosing v.world v.server a info latest alice
          bob
        × (leb
              (balance_of (is_alice info v.server.algo_account.address) latest)
              (if is_alice info v.server.algo_account.address then alice else bob)
            ≡ false)

-- The iteration is for the channel: it sends a dispute with the latest state of its log and forgets
-- the channel.
pub record Disputes (a : Address) (v : Visit) : Type 0 where
  pub same_address : v.address ≡ a
  pub info : PaymentChannelInfo
  pub latest : OffChainState
  pub log : PaymentLog
  pub known : lookup a v.server.onchain_states ≡ some info
  pub logged : lookup a v.server.offchain_states_log ≡ some log
  pub last : get_latest_off_chain_state log ≡ some latest
  pub outcome : watch_channel v.world a info v.server ≡ (ok tt, disputed a info latest v.server)

-- One of the iterations does.
abbrev pub SomeDisputes : Address → List Visit → Type 0
SomeDisputes a [] = ⊥
SomeDisputes a (v ∷ vs) = Disputes a v ⊎ SomeDisputes a vs

finds-Disputes :
    (a : Address) (v : Visit) (info : PaymentChannelInfo)
    → v.address ≡ a
    → lookup a v.server.onchain_states ≡ some info
    → FindsWorse a v
    → Disputes a v
finds-Disputes a v info same known finds =
    let (latest, alice, bob, closing, worse) = finds.worse info known in
    record {
      same_address = same;
      info = info;
      latest = latest;
      log = closing.log;
      known = known;
      logged = closing.logged;
      last = closing.last;
      outcome =
          watch_channel_closing v.world v.server a info latest alice bob closing
          ∙ ap (λ b. if b then (ok tt, v.server) else (ok tt, disputed a info latest v.server))
              worse;
    }

-- The channel waits for its iteration.
record Waits (a : Address) (s : Server) (r : Range) : Type 0 where
  live : r.replaced ≡ none
  open_a : is_key a s.onchain_states ≡ true
  due : contains a r.due ≡ true

other-Waits :
    (a : Address) (w : World) (address : Address) (info : PaymentChannelInfo) (s s' : Server)
    (r : Range)
    → address ≢ a
    → (watch_channel w address info s).1 ≡ s'
    → Waits a s r
    → Waits a s' (advance address s' r)
unfolding advance
other-Waits a w address info s s' r distinct after waits =
    let same : lookup a s'.onchain_states ≡ lookup a s.onchain_states =
      ap (λ x. lookup a x.onchain_states) (sym after) ∙ other_channel w address a info s distinct in
    let still : is_key a s'.onchain_states ≡ true = ground (arith, same, waits.open_a) in
    record {
      live = waits.live;
      open_a = still;
      due =
          ground (
            arith,
            advance-due address a s' r,
            waits.live,
            waits.due,
            still,
            bytes_eq_iff address a,
          );
    }

module _ {start : Server} where
  kept-Waits :
      {s : Server} {r : Range} {vs : List Visit} (a : Address) (round : Round start s r vs)
      → IsKept a round
      → is_key a start.onchain_states ≡ true
      → All (λ v. v.address ≡ a → FindsWorse a v) vs
      → Waits a s r ⊎ SomeDisputes a vs
  unfolding IsKept advance elapse
  kept-Waits a begins kept known worse =
      inl
        (record { live = refl; open_a = known; due = contains-keys a start.onchain_states ∙ known })
  kept-Waits a (visits {s = s} {r = r} w address info s' round found may ends) kept known
        (now, earlier) =
      elim (kept-Waits a round kept known earlier) [
        | inr disputes ↦ inr (inr disputes)
        | inl waits ↦ elim (Bool-cases (address == a)) [
          | inl same ↦
              let own : address ≡ a = (bytes_eq_iff address a).0 same in
              let open_a : lookup a s.onchain_states ≡ some info =
                ground (arith, waits.live, own, found) in
              inr (
                inl (
                  finds-Disputes a (record { world = w; server = s; address = address }) info own
                    open_a (now own)))
          | inr other ↦ inl (
              other-Waits a w address info s s' r (λ e. ground (arith, bytes_eq_iff address a))
                (ap (λ x. x.1) ends) waits)
        ]
      ]
  kept-Waits a (elapses {s} {s'} {r} round st) (kept, no_reset, stays) known worse =
      elim (kept-Waits a round kept known worse) [
        | inr disputes ↦ inr disputes
        | inl waits ↦
            let still = stays waits.open_a in
            let same : elapse (is_reset st) s s' r ≡ elapse false s s' r =
              ap (λ b. elapse b s s' r) no_reset in
            inl (
              subst (Waits a s') (sym same) (record {
                live = waits.live;
                open_a = still;
                due = elapse-due a false s s' r waits.due (ground (arith, waits.live, still));
              }))
      ]

  -- A channel of the node at the start of a round is disputed in the round, whatever the node does
  -- between the iterations and in whatever order they come: one iteration sends a dispute with the
  -- latest state of the log that it finds, and forgets the channel. The round is over, no operation
  -- between its iterations removes the channel or resets the node, and every iteration for the
  -- channel, as long as the node has it, finds its contract being closed with a balance below that
  -- of the node's latest state.
  pub round_disputes_meanwhile :
      {s : Server} {r : Range} {vs : List Visit} (a : Address) (round : Round start s r vs)
      → r.due ≡ []
      → IsKept a round
      → is_key a start.onchain_states ≡ true
      → All (λ v. v.address ≡ a → FindsWorse a v) vs
      → SomeDisputes a vs
  unfolding contains
  round_disputes_meanwhile {r = r} a round over kept known worse =
      elim (kept-Waits a round kept known worse) [
        | inl waits ↦ absurd (ground (arith, over, waits.due))
        | inr disputes ↦ disputes
      ]
