-- ===== src/Server/Views/Payments.antt =====
-- The payments that a node receives and makes, on its views.
use mathlib.Core.Path.{subst}
use algorand_state_channels.Base.{
  ℕ, ◌<◌, ◌≡◌, ◌≢◌, inl, inr, refl, ap, sym, ◌∙◌, Bool, true, false, Bytes, bytes_eq, bytes_eq_iff,
  bytes_has_eq, nat_has_eq, some, List, arith, if◌then◌else◌, Bool-cases,
}
use algorand_state_channels.Base.Word.{slt, IsWord, add64, sub64, sign_bit}
use algorand_state_channels.Base.Dict.{lookup, insert, lookup-insert}
use algorand_state_channels.Payment.Sdk.{Address}
use algorand_state_channels.Server.State.{
  Server, PaymentChannelInfo, OffChainState, PaymentLog, World,
}
use algorand_state_channels.Server.Action.{Result, ok, stop}
use algorand_state_channels.Server.Log.{get_latest_off_chain_state}
use algorand_state_channels.Server.GlobalState.{log_state, or_empty}
use algorand_state_channels.Server.Invariant.{IsLog, IsWellFormed}
use algorand_state_channels.Server.Peer.{is_alice, is_acceptable, agreed_state, process_payment}
use algorand_state_channels.Server.Peer.Acceptance.{
  Accepted, is_beneficial_iff, process_payment_inversion, process_payment_atomic,
}
use algorand_state_channels.Server.Peer.Progress.{
  is_acceptable_later, get_latest_off_chain_state-IsEntry, next_latest,
}
use algorand_state_channels.Server.Views.{
  View, view_of, view, transfer, Evolves, incoming, stays, receives,
}

-- A state put into one channel's log leaves the views of the others alone.
pub view-log_state_ne :
    (c d : Address) (st : OffChainState) (s : Server) → c ≢ d → view d (log_state c st s) ≡ view d s
unfolding view log_state
view-log_state_ne c d st s h = ground (
  arith,
  bytes_eq_iff c d,
  lookup-insert c d (insert st.timestamp st (or_empty (lookup c s.offchain_states_log)))
      s.offchain_states_log,
)

-- The view of a known channel.
pub view-known :
    (c : Address) (s : Server) (info : PaymentChannelInfo) (log : PaymentLog) (st : OffChainState)
    → lookup c s.onchain_states ≡ some info
    → lookup c s.offchain_states_log ≡ some log
    → get_latest_off_chain_state log ≡ some st
    → view c s ≡ view_of (is_alice info s.algo_account.address) (some st)
unfolding view
view-known c s info log st e f g = ground arith

-- A later state put into the log of a known channel is what its view shows.
pub view-log_state :
    (c : Address) (s : Server) (info : PaymentChannelInfo) (log : PaymentLog)
    (latest st : OffChainState)
    → IsWellFormed s
    → lookup c s.onchain_states ≡ some info
    → lookup c s.offchain_states_log ≡ some log
    → get_latest_off_chain_state log ≡ some latest
    → IsWord st.timestamp
    → slt latest.timestamp st.timestamp ≡ true
    → view c (log_state c st s) ≡ view_of (is_alice info s.algo_account.address) (some st)
unfolding log_state
view-log_state c s info log latest st h e f g word later =
    let (log', f', good) = h.channels c info e in
    let same : log' ≡ log = ground arith in
    view-known c (log_state c st s) info (insert st.timestamp st log) st e
      (ground (
        arith,
        bytes_eq_iff c c,
        lookup-insert c c (insert st.timestamp st log) s.offchain_states_log,
        f,
      ))
      (next_latest info.total_deposit log latest st (subst (IsLog info.total_deposit) same good) g
        word later)

module _ (w : World) (c : Address) (alice bob t : ℕ) (signature : Bytes) (s : Server)
    (h : IsWellFormed s) (words : IsWord t × IsWord alice × IsWord bob) where
  -- The transfer that an accepted request makes.
  accepted-transfer :
      (me_alice : Bool) (info : PaymentChannelInfo) (latest : OffChainState)
      → IsWord latest.alice_balance
      → IsWord latest.bob_balance
      → is_acceptable me_alice info latest alice bob t ≡ true
      → (amount : ℕ) × (0 < amount)
        × (amount < sign_bit)
        × (alice ≡ (
            if me_alice
            then add64 latest.alice_balance amount
            else sub64 latest.alice_balance amount))
        × (bob ≡ (
            if me_alice then sub64 latest.bob_balance amount else add64 latest.bob_balance amount))
  unfolding is_acceptable
  accepted-transfer true info latest wa wb ok_ =
      let (d, pos, small, theirs, mine, _, _) =
        (is_beneficial_iff latest.bob_balance bob latest.alice_balance alice info.penalty_reserve
            latest.timestamp t (wb, words.2, wa, words.1)).0
          ok_ in
      (d, pos, small, mine, theirs)
  accepted-transfer false info latest wa wb ok_ =
      let (d, pos, small, theirs, mine, _, _) =
        (is_beneficial_iff latest.alice_balance alice latest.bob_balance bob info.penalty_reserve
            latest.timestamp t (wa, words.1, wb, words.2)).0
          ok_ in
      (d, pos, small, theirs, mine)

  Accepted-Evolves :
      (info : PaymentChannelInfo) (log : PaymentLog) (latest : OffChainState) (mine : Bytes)
      → Accepted w c alice bob t signature s info log latest mine
      → let me_alice = is_alice info s.algo_account.address in
        Evolves
          (incoming t)
          (view c s)
          (view c (log_state c (agreed_state me_alice info.app_id alice bob t mine signature) s))
  unfolding agreed_state
  Accepted-Evolves info log latest mine a =
      let me_alice = is_alice info s.algo_account.address in
      let st = agreed_state me_alice info.app_id alice bob t mine signature in
      let later = is_acceptable_later me_alice info latest alice bob t a.acceptable in
      let (log', f', good) = h.channels c info a.channel in
      let last : get_latest_off_chain_state log' ≡ some latest = ground (arith, a.logged, a.last) in
      let (entry, _) =
        get_latest_off_chain_state-IsEntry info.total_deposit log' latest good last in
      let (amount, positive, small, alice_is, bob_is) =
        accepted-transfer me_alice info latest entry.alice_word entry.bob_word a.acceptable in
      let v : View = record {
        me_alice = me_alice;
        alice = latest.alice_balance;
        bob = latest.bob_balance;
        time = latest.timestamp;
      } in
      let before : view c s ≡ some v = view-known c s info log latest a.channel a.logged a.last in
      let after : view c (log_state c st s) ≡ some (transfer me_alice amount t v) =
        view-log_state c s info log latest st h a.channel a.logged a.last words.0 later
        ∙ ap (λ (p : ℕ × ℕ). some (record v { alice = p.0; bob = p.1; time = t }))
            (cc (alice_is, bob_is)) in
      rw (before, after) (receives v amount t positive small later)

  payment-Evolves :
      (d : Address) (r : Result (List Bytes) × Server)
      → process_payment w c alice bob t signature s ≡ r
      → Evolves (incoming t) (view d s) (view d r.1)
  payment-Evolves d (stop e, s') ran =
      subst (λ x. Evolves (incoming t) (view d s) (view d x))
        (sym (process_payment_atomic w c alice bob t signature s s' e ran))
        (stays (incoming t) (view d s))
  payment-Evolves d (ok reply, s') ran =
      let (info, log, latest, mine, a, _, after) =
        process_payment_inversion w c alice bob t signature s s' reply ran in
      let st =
        agreed_state (is_alice info s.algo_account.address) info.app_id alice bob t mine
          signature in
      elim (Bool-cases (bytes_eq c d)) [
        | inl same ↦
            subst (λ x. Evolves (incoming t) (view x s) (view x s')) ((bytes_eq_iff c d).0 same)
              (subst (λ x. Evolves (incoming t) (view c s) (view c x)) (sym after)
                (Accepted-Evolves info log latest mine a))
        | inr other ↦
            subst (λ x. Evolves (incoming t) (view d s) x)
              (sym
                (ap (view d) after ∙ view-log_state_ne c d st s (ground (arith, bytes_eq_iff c d))))
              (stays (incoming t) (view d s))
      ]

  -- Each view of a well-formed node stays as it is under a pay request of uint64 values, or an
  -- amount that is positive as an int64 moves to the node in it, and its time becomes that of the
  -- request, which is later.
  pub process_payment-Evolves :
      (d : Address)
      → Evolves (incoming t) (view d s) (view d (process_payment w c alice bob t signature s).1)
  process_payment-Evolves d = payment-Evolves d _ refl
