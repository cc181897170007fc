-- ===== src/Server/Steps.antt =====
-- The node over time: every request of a peer, RPC call and pass of the watchtower is a step, and
-- every step keeps the invariant. New channels are steps where they concern a partner of whom the
-- node has no log yet.
use mathlib.Core.Path.{subst}
use algorand_state_channels.Base.{
  ℕ, zero, suc, ◌≡◌, ◌⊎◌, inl, inr, refl, sym, Bytes, IsBytes, All, bytes_has_eq, Option, none,
  some, List, [], ◌∷◌, arith, Option-cases, get_elem?,
}
use algorand_state_channels.Base.Word.{IsWord}
use algorand_state_channels.Base.BigEndian.{uint64, uint64-IsWord}
use algorand_state_channels.Base.Dict.{Dict}
use algorand_state_channels.Payment.Sdk.{Address}
use algorand_state_channels.Server.State.{Server, PaymentChannelInfo, World}
use algorand_state_channels.Server.Action.{Action, Result, Stop, panic, ok, stop, pure, ◌>>=◌}
use algorand_state_channels.Server.GlobalState.{parse_int}
use algorand_state_channels.Server.Invariant.{IsWellFormed, Drops, Drops-IsWellFormed}
use algorand_state_channels.Server.Peer.{process_payment, pay_request, close_channel_request}
use algorand_state_channels.Server.Peer.Payments.{process_payment-IsWellFormed}
use algorand_state_channels.Server.Rpc.{
  send_request, find_channel, find_latest, submit_closing, initiate_close, finalize_close,
  cooperative_close, try_to_cheat,
}
use algorand_state_channels.Server.Watchtower.{
  forget_channel, dispute_if_worse, on_closing, watch_channel, watch_channels, watch_round,
}

pub watch_channel-Drops :
    (w : World) (c : Address) (info : PaymentChannelInfo) (s : Server)
    → Drops c s (watch_channel w c info s).1
unfolding watch_channel on_closing dispute_if_worse forget_channel parse_int
watch_channel-Drops w c info s = ground arith

pub initiate_close-Drops : (c : Address) (s : Server) → Drops c s (initiate_close c s).1
unfolding initiate_close find_channel find_latest submit_closing
initiate_close-Drops c s = ground arith

pub finalize_close-Drops : (c : Address) (s : Server) → Drops c s (finalize_close c s).1
unfolding finalize_close find_channel forget_channel
finalize_close-Drops c s = ground arith

pub try_to_cheat-Drops : (c : Address) (s : Server) → Drops c s (try_to_cheat c s).1
unfolding try_to_cheat find_channel submit_closing
try_to_cheat-Drops c s = ground arith

pub cooperative_close-Drops :
    (w : World) (c : Address) (s : Server) → Drops c s (cooperative_close w c s).1
unfolding cooperative_close find_channel find_latest forget_channel send_request
cooperative_close-Drops w c s = ground arith

-- What both parts of a sequence keep, the sequence keeps.
pub continue-keeps :
    {A B : Type 0} (P : Server → Type 0) (k : A → Action B) (r : Result A × Server) (start : Server)
    → P r.1
    → ((a : A) (s : Server) → P s → P (k a s).1)
    → P (((λ _. r) >>= k) start).1
continue-keeps P k (ok a, s) start p f = f a s p
continue-keeps P k (stop e, s) start p f = p

pub Result-cases :
    {A : Type 0} (r : Result A × Server)
    → ((a : A) × (r ≡ (ok a, r.1))) ⊎ ((e : Stop) × (r ≡ (stop e, r.1)))
Result-cases (ok a, s) = inl (a, refl)
Result-cases (stop e, s) = inr (e, refl)

-- What is made of a result does not change the server.
pub responds :
    {A B : Type 0} (m : Action A) (k : A → B) (s : Server) → ((m >>= λ a. pure (k a)) s).1 ≡ (m s).1
responds m k s = ground arith

-- A pass of the watchtower keeps the invariant.
watch_channels-IsWellFormed :
    (w : World) (channels : Dict Address PaymentChannelInfo) (s : Server)
    → IsWellFormed s
    → IsWellFormed (watch_channels w channels s).1
unfolding watch_channels
watch_channels-IsWellFormed w [] s h = h
watch_channels-IsWellFormed w ((c, info) ∷ rest) s h =
    let first =
      Drops-IsWellFormed c s (watch_channel w c info s).1 (watch_channel-Drops w c info s) h in
    continue-keeps IsWellFormed (λ _. watch_channels w rest) (watch_channel w c info s) s first
      (λ _ s' g. watch_channels-IsWellFormed w rest s' g)

pub watch_round-IsWellFormed :
    (w : World) (s : Server) → IsWellFormed s → IsWellFormed (watch_round w s).1
unfolding watch_round
watch_round-IsWellFormed w s h = watch_channels-IsWellFormed w s.onchain_states s h

-- A closing request leaves the server as it is, however it ends.
pub close_channel_request_pure :
    (w : World) (args : List Bytes) (s : Server) → (close_channel_request w args s).1 ≡ s
unfolding close_channel_request
close_channel_request_pure w args s = ground arith

get_elem?-All :
    (args : List Bytes) (i : ℕ) (b : Bytes)
    → All IsBytes args
    → get_elem? args i ≡ some b
    → IsBytes b
get_elem?-All [] i b h e = ground arith
get_elem?-All (x ∷ args) zero b h e = let same : x ≡ b = ground arith in subst IsBytes same h.0
get_elem?-All (x ∷ args) (suc i) b h e = get_elem?-All args i b h.1 e

-- The number in the argument at place `i`.
abbrev pub number_at : List Bytes → ℕ → Option ℕ
number_at args i = elim (get_elem? args i) [ none ↦ none | some b ↦ uint64 b ]

number_at-cases :
    (args : List Bytes) (i : ℕ)
    → All IsBytes args
    → (number_at args i ≡ none) ⊎ ((v : ℕ) × (number_at args i ≡ some v) × IsWord v)
number_at-cases args i h = elim (Option-cases (get_elem? args i)) [
  | inl e ↦ inl (ground arith)
  | inr (b, e) ↦ elim (Option-cases (uint64 b)) [
    | inl f ↦ inl (ground arith)
    | inr (v, f) ↦ inr (v, ground arith, uint64-IsWord b v (get_elem?-All args i b h e) f)
  ]
]

-- A pay request panics, or its arguments are read.
pay_request_reads :
    (w : World) (args : List Bytes) (s : Server)
    → All IsBytes args
    → (pay_request w args s ≡ (stop panic, s))
      ⊎ ((c : Address) × (alice bob t : ℕ) × (signature : Bytes) × (pay_request w args s
            ≡ process_payment w c alice bob t signature s)
          × (IsWord t × IsWord alice × IsWord bob))
unfolding pay_request
pay_request_reads w args s h = elim (Option-cases (get_elem? args 0)) [
  | inl e0 ↦ inl (ground arith)
  | inr (c, e0) ↦ elim (number_at-cases args 1 h) [
    | inl e1 ↦ inl (ground arith)
    | inr (alice, e1, w1) ↦ elim (number_at-cases args 2 h) [
      | inl e2 ↦ inl (ground arith)
      | inr (bob, e2, w2) ↦ elim (number_at-cases args 3 h) [
        | inl e3 ↦ inl (ground arith)
        | inr (t, e3, w3) ↦ elim (Option-cases (get_elem? args 4)) [
          | inl e4 ↦ inl (ground arith)
          | inr (signature, e4) ↦ inr (c, alice, bob, t, signature, ground arith, (w3, w1, w2))
        ]
      ]
    ]
  ]
]

-- A pay request of bytes keeps the invariant, however it ends.
pub pay_request-IsWellFormed :
    (w : World) (args : List Bytes) (s : Server)
    → All IsBytes args
    → IsWellFormed s
    → IsWellFormed (pay_request w args s).1
pay_request-IsWellFormed w args s h v = elim (pay_request_reads w args s h) [
  | inl e ↦ subst (λ r. IsWellFormed r.1) (sym e) v
  | inr (c, alice, bob, t, signature, e, words) ↦
      subst (λ r. IsWellFormed r.1) (sym e)
        (process_payment-IsWellFormed w c alice bob t signature s v words)
]
