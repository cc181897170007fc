-- ===== src/Server/Peer/Acceptance.antt =====
-- When a pay request is accepted, and what the acceptance does.
use algorand_state_channels.Base.{
  ℕ, ◌+◌, ◌<◌, ◌≤◌, ◌≡◌, ◌↔◌, ◌%◌, ◌^◌, inl, inr, Bool, true, false, Bytes, bytes_has_eq, some,
  List, [], ◌∷◌, arith, Option-cases,
}
use algorand_state_channels.Base.Word.{slt, IsWord, add64, sub64, sign_bit, word_mod}
use algorand_state_channels.Base.Dict.{lookup}
use algorand_state_channels.Payment.Sdk.{Address}
use algorand_state_channels.Payment.Signing.{sign_state, verify_state}
use algorand_state_channels.Server.State.{
  Server, PaymentChannelInfo, OffChainState, PaymentLog, World,
}
use algorand_state_channels.Server.Action.{Stop, ok, stop}
use algorand_state_channels.Server.Log.{get_latest_off_chain_state}
use algorand_state_channels.Server.GlobalState.{log_state}
use algorand_state_channels.Server.Peer.{
  is_alice, is_beneficial, is_acceptable, agreed_state, process_payment,
}

-- What is_beneficial tests, by the amount that is paid.
abbrev pub MovesAmount : ℕ → ℕ → ℕ → ℕ → ℕ → ℕ → ℕ → Type 0
MovesAmount theirs theirs' mine mine' reserve t t' =
    (d : ℕ) × (0 < d)
    × (d < sign_bit)
    × (theirs' ≡ sub64 theirs d)
    × (mine' ≡ add64 mine d)
    × (reserve ≤ theirs')
    × (slt t t' ≡ true)

-- The test of a payment between uint64 balances holds exactly if some amount, positive as an int64,
-- moves from the counterparty to the node in uint64 arithmetic, the counterparty keeps the penalty
-- reserve, and the timestamp is later.
pub is_beneficial_iff :
    (theirs theirs' mine mine' reserve t t' : ℕ)
    → IsWord theirs × IsWord theirs' × IsWord mine × IsWord mine'
    → (is_beneficial theirs theirs' mine mine' reserve t t' ≡ true)
      ↔ MovesAmount theirs theirs' mine mine' reserve t t'
unfolding is_beneficial
is_beneficial_iff theirs theirs' mine mine' reserve t t' h = (
  λ e. (
    sub64 theirs theirs',
    unfold slt in ground arith,
    unfold slt in ground arith,
    ground arith,
    ground arith,
    ground arith,
    ground arith,
  ),
  λ m.
      let amount : slt 0 (sub64 theirs theirs') ≡ true = unfold slt in ground arith in ground arith,
)

-- Where the balances sum to less than 2 ^ 64, a payment that passes the test and takes no more than
-- the counterparty has keeps the sum, the node gains, and the counterparty keeps the reserve.
pub is_beneficial_conserves :
    (theirs theirs' mine mine' reserve t t' : ℕ)
    → IsWord mine'
    → theirs + mine < 2 ^ 64
    → theirs' ≤ theirs
    → is_beneficial theirs theirs' mine mine' reserve t t' ≡ true
    → (theirs' + mine' ≡ theirs + mine) × (mine < mine') × (reserve ≤ theirs')
unfolding is_beneficial slt
is_beneficial_conserves theirs theirs' mine mine' reserve t t' w h p e =
    (ground arith, ground arith, ground arith)

-- A payment of an amount below 2 ^ 63 that is more than the counterparty has passes the test too, at
-- a later time, as long as the balance that wraps round is not below the reserve; the counterparty
-- then has more than before.
pub is_beneficial_overdraft :
    (theirs mine reserve t t' amount : ℕ)
    → IsWord mine
    → theirs < amount
    → amount < sign_bit
    → reserve ≤ sub64 theirs amount
    → slt t t' ≡ true
    → (is_beneficial theirs (sub64 theirs amount) mine (add64 mine amount) reserve t t' ≡ true)
      × (theirs < sub64 theirs amount)
unfolding is_beneficial
is_beneficial_overdraft theirs mine reserve t t' amount w over small r e =
    let positive : slt 0 (sub64 theirs (sub64 theirs amount)) ≡ true = unfold slt in ground arith in
    (ground arith, ground arith)

-- An accepted pair of balances has the sum of the last pair, in uint64 arithmetic.
pub is_acceptable_conserves :
    (me_alice : Bool) (info : PaymentChannelInfo) (latest : OffChainState) (alice bob t : ℕ)
    → IsWord latest.alice_balance × IsWord latest.bob_balance × IsWord alice × IsWord bob
    → is_acceptable me_alice info latest alice bob t ≡ true
    → (alice + bob) % word_mod ≡ (latest.alice_balance + latest.bob_balance) % word_mod
unfolding is_acceptable is_beneficial
is_acceptable_conserves true info latest alice bob t w e = ground arith
is_acceptable_conserves false info latest alice bob t w e = ground arith

-- What an accepted payment rests on.
pub record Accepted (w : World) (c : Address) (alice bob t : ℕ) (signature : Bytes) (s : Server)
    (info : PaymentChannelInfo) (payment_log : PaymentLog) (latest : OffChainState)
    (my_signature : Bytes) : Type 0 where
  pub channel : lookup c s.onchain_states ≡ some info
  pub logged : lookup c s.offchain_states_log ≡ some payment_log
  pub last : get_latest_off_chain_state payment_log ≡ some latest
  pub acceptable :
      is_acceptable (is_alice info s.algo_account.address) info latest alice bob t ≡ true
  pub verified : verify_state w.sdk info.app_id alice bob 4161 signature c t ≡ true
  pub signed : sign_state w.sdk info.app_id s.algo_account alice bob 4161 t ≡ some my_signature

pub process_payment_inversion :
    (w : World) (c : Address) (alice bob t : ℕ) (signature : Bytes) (s s' : Server) (d : List Bytes)
    → process_payment w c alice bob t signature s ≡ (ok d, s')
    → (info : PaymentChannelInfo) × (payment_log : PaymentLog) × (latest : OffChainState)
      × (my_signature : Bytes) × Accepted w c alice bob t signature s info payment_log latest
          my_signature
      × (d ≡ my_signature ∷ [])
      × (s'
          ≡ log_state c
              (agreed_state
                (is_alice info s.algo_account.address)
                info.app_id
                alice
                bob
                t
                my_signature
                signature)
              s)
unfolding process_payment
process_payment_inversion w c alice bob t signature s s' d h =
    elim (Option-cases (lookup c s.onchain_states)) [
      | inl e1 ↦ absurd (ground arith)
      | inr (info, e1) ↦ elim (Option-cases (lookup c s.offchain_states_log)) [
        | inl e2 ↦ absurd (ground arith)
        | inr (payment_log, e2) ↦ elim (Option-cases (get_latest_off_chain_state payment_log)) [
          | inl e3 ↦ absurd (ground arith)
          | inr (latest, e3) ↦
              elim (Option-cases (sign_state w.sdk info.app_id s.algo_account alice bob 4161 t)) [
                | inl e4 ↦ absurd (ground arith)
                | inr (my_signature, e4) ↦ (
                  info,
                  payment_log,
                  latest,
                  my_signature,
                  ground arith,
                  ground arith,
                  ground arith,
                )
              ]
        ]
      ]
    ]

-- A pay request that is not accepted changes nothing.
pub process_payment_atomic :
    (w : World) (c : Address) (alice bob t : ℕ) (signature : Bytes) (s s' : Server) (e : Stop)
    → process_payment w c alice bob t signature s ≡ (stop e, s')
    → s' ≡ s
unfolding process_payment
process_payment_atomic w c alice bob t signature s s' e h = ground arith

-- The other way round: what is called for suffices.
pub process_payment_accepts :
    (w : World) (c : Address) (alice bob t : ℕ) (signature : Bytes) (s : Server)
    (info : PaymentChannelInfo) (payment_log : PaymentLog) (latest : OffChainState)
    (my_signature : Bytes)
    → Accepted w c alice bob t signature s info payment_log latest my_signature
    → process_payment w c alice bob t signature s ≡ (
      ok (my_signature ∷ []),
      log_state c
          (agreed_state
            (is_alice info s.algo_account.address)
            info.app_id
            alice
            bob
            t
            my_signature
            signature)
          s,
    )
unfolding process_payment
process_payment_accepts w c alice bob t signature s info payment_log latest my_signature a =
    ground (arith, a.channel, a.logged, a.last, a.acceptable, a.verified, a.signed)
