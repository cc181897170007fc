-- ===== src/Server/Invariant.antt =====
-- What holds of a node's channels and logs between two requests.
use algorand_state_channels.Base.{
  ℕ, ◌+◌, ◌%◌, ◌≡◌, ◌≢◌, ◌⊎◌, inl, inr, ap, ◌∙◌, true, bytes_has_eq, bytes_eq_iff, bytes_eq,
  nat_has_eq, nat_eq_iff, none, some, [], arith, Option-cases, Bool-cases,
}
use algorand_state_channels.Base.Word.{slt, IsWord, word_mod}
use algorand_state_channels.Base.Dict.{lookup, insert, erase, lookup-insert, lookup-erase}
use algorand_state_channels.Payment.Sdk.{Address}
use algorand_state_channels.Server.State.{Server, PaymentChannelInfo, OffChainState, PaymentLog}
use algorand_state_channels.Server.Log.{get_latest_off_chain_state}
use algorand_state_channels.Server.Log.Latest.{get_latest-none, HasWords}
use algorand_state_channels.Server.GlobalState.{log_state, save_channel, or_empty}
use algorand_state_channels.Server.Watchtower.{forget_channel}

-- A state under the key `k` of a log whose channel holds `total`.
pub record IsEntry (total k : ℕ) (st : OffChainState) : Type 0 where
  pub key_word : IsWord k
  pub keyed : st.timestamp ≡ k
  pub alice_word : IsWord st.alice_balance
  pub bob_word : IsWord st.bob_balance
  pub conserved : (st.alice_balance + st.bob_balance) % word_mod ≡ total % word_mod

-- A log of a channel with the deposit `total`: its entries, one of them with a positive timestamp.
pub record IsLog (total : ℕ) (log : PaymentLog) : Type 0 where
  pub entries : (k : ℕ) (st : OffChainState) → lookup k log ≡ some st → IsEntry total k st
  pub first_key : ℕ
  pub first_found : lookup first_key log ≢ none
  pub first_positive : slt 0 first_key ≡ true

-- Every open channel has a log.
pub record IsWellFormed (s : Server) : Type 0 where
  pub channels :
      (c : Address) (info : PaymentChannelInfo)
      → lookup c s.onchain_states ≡ some info
      → (log : PaymentLog) × (lookup c s.offchain_states_log ≡ some log)
        × IsLog info.total_deposit log

pub IsLog-HasWords : (total : ℕ) (log : PaymentLog) → IsLog total log → HasWords log
IsLog-HasWords total log h k st e = (h.entries k st e).key_word

-- The program finds a latest state in such a log.
pub IsLog-latest :
    (total : ℕ) (log : PaymentLog) → IsLog total log → get_latest_off_chain_state log ≢ none
IsLog-latest total log h e = elim (Option-cases (lookup h.first_key log)) [
  | inl missing ↦ h.first_found missing
  | inr (st, found) ↦ cc (get_latest-none log e h.first_key st found, h.first_positive)
]

-- A log takes one more entry.
pub insert-IsLog :
    (total t : ℕ) (st : OffChainState) (log : PaymentLog)
    → IsEntry total t st
    → IsLog total log
    → IsLog total (insert t st log)
insert-IsLog total t st log e h = record {
  entries = λ k v f. ground (arith, lookup-insert t k st log, nat_eq_iff t k, h.entries k v);
  first_key = h.first_key;
  first_found = λ g. ground (arith, lookup-insert t h.first_key st log, h.first_found);
  first_positive = h.first_positive;
}

-- A log that begins with a state at a positive time.
pub new-IsLog :
    (total t : ℕ) (st : OffChainState)
    → IsEntry total t st
    → slt 0 t ≡ true
    → IsLog total (insert t st [])
unfolding lookup
new-IsLog total t st e p = record {
  entries = λ k v f. ground (arith, lookup-insert t k st [], nat_eq_iff t k);
  first_key = t;
  first_found = λ g. ground (arith, lookup-insert t t st [], nat_eq_iff t t);
  first_positive = p;
}

-- A payment's state extends the log of an open channel.
pub log_state-IsWellFormed :
    (s : Server) (c : Address) (st : OffChainState)
    → IsWellFormed s
    → ((info : PaymentChannelInfo)
        → lookup c s.onchain_states ≡ some info
        → IsEntry info.total_deposit st.timestamp st)
    → IsWellFormed (log_state c st s)
unfolding log_state
log_state-IsWellFormed s c st h e = record {
  channels = λ d info open_d.
      let (log, logged, good) = h.channels d info open_d in
      elim (Bool-cases (bytes_eq c d)) [
        | inl same ↦
            let p : c ≡ d = (bytes_eq_iff c d).0 same in
            (
              insert st.timestamp st log,
              ground (
                arith,
                lookup-insert c d (insert st.timestamp st log) s.offchain_states_log,
                ap (λ a. lookup a s.offchain_states_log) p,
              ),
              insert-IsLog info.total_deposit st.timestamp st log
                  (e info (ap (λ a. lookup a s.onchain_states) p ∙ open_d)) good,
            )
        | inr other ↦ (
          log,
          ground (
            arith,
            lookup-insert c d (insert st.timestamp st (or_empty (lookup c s.offchain_states_log)))
                s.offchain_states_log,
          ),
          good,
        )
      ];
}

-- Forgetting a channel forgets no log.
pub forget_channel-IsWellFormed :
    (s : Server) (c : Address) → IsWellFormed s → IsWellFormed (forget_channel c s)
unfolding forget_channel
forget_channel-IsWellFormed s c h = record {
  channels = λ d info open_d. h.channels d info (ground (arith, lookup-erase c d s.onchain_states));
}

-- A new channel with a partner of whom no log is kept.
pub open-IsWellFormed :
    (s : Server) (c : Address) (info : PaymentChannelInfo) (st : OffChainState)
    → IsWellFormed s
    → lookup c s.offchain_states_log ≡ none
    → IsEntry info.total_deposit st.timestamp st
    → slt 0 st.timestamp ≡ true
    → IsWellFormed (log_state c st (save_channel c info s))
unfolding log_state save_channel
open-IsWellFormed s c info st h fresh entry p = record {
  channels = λ d other open_d. elim (Bool-cases (bytes_eq c d)) [
    | inl same ↦
        let same_info : info ≡ other = ground (arith, lookup-insert c d info s.onchain_states) in
        (
          insert st.timestamp st [],
          ground (arith, lookup-insert c d (insert st.timestamp st []) s.offchain_states_log),
          new-IsLog other.total_deposit st.timestamp st (rw (← same_info) entry) p,
        )
    | inr differs ↦
        let (log, logged, good) =
          h.channels d other (ground (arith, lookup-insert c d info s.onchain_states)) in
        (
          log,
          ground (arith, lookup-insert c d (insert st.timestamp st []) s.offchain_states_log),
          good,
        )
  ];
}

-- What the operations that close a channel do: the logs stay, and at most the channel `c` is
-- dropped from the open ones.
pub record Drops (c : Address) (s s' : Server) : Type 0 where
  pub same_logs : s'.offchain_states_log ≡ s.offchain_states_log
  pub same_account : s'.algo_account ≡ s.algo_account
  pub dropped :
      (s'.onchain_states ≡ s.onchain_states) ⊎ (s'.onchain_states ≡ erase c s.onchain_states)

-- A channel that is still open was open before.
Drops-lookup :
    (c d : Address) (s s' : Server) (info : PaymentChannelInfo)
    → Drops c s s'
    → lookup d s'.onchain_states ≡ some info
    → lookup d s.onchain_states ≡ some info
Drops-lookup c d s s' info h e = ground (arith, h.dropped, lookup-erase c d s.onchain_states)

pub Drops-IsWellFormed :
    (c : Address) (s s' : Server) → Drops c s s' → IsWellFormed s → IsWellFormed s'
Drops-IsWellFormed c s s' h v = record {
  channels = λ d info open_d.
      let (log, logged, good) = v.channels d info (Drops-lookup c d s s' info h open_d) in
      (log, ground (arith, h.same_logs), good);
}
