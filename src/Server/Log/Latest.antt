-- ===== src/Server/Log/Latest.antt =====
-- What getLatestOffChainState finds: the state under the greatest positive timestamp, in whatever
-- order the map is visited.
use algorand_state_channels.Base.{
  ℕ, ◌≡◌, ◌↔◌, ◌≢◌, ◌⊎◌, ◌∙◌, inl, inr, refl, ap, sym, Bool, true, false, none, some, [], ◌∷◌,
  arith, nat_eq, nat_eq_iff, if◌then◌else◌, Bool-cases, Option-cases, nat_has_eq,
}
use mathlib.Core.Path.{subst}
use algorand_state_channels.Base.Word.{
  slt, slt_irrefl, slt_trans, slt_asymm, slt-of_not, slt_total, slt-ne, IsWord,
}
use algorand_state_channels.Base.Dict.{lookup, insert, lookup-insert, lookup-insert_self}
use algorand_state_channels.Server.State.{OffChainState, PaymentLog, zero_state}
use algorand_state_channels.Server.Log.{latest_loop, get_latest_off_chain_state}

-- No timestamp of the log is after `t`.
abbrev pub IsBound : ℕ → PaymentLog → Type 0
IsBound t log = (k : ℕ) (s : OffChainState) → lookup k log ≡ some s → slt t k ≡ false

-- The log holds `s` under the timestamp `t`, which is positive and the greatest.
pub record IsLatest (t : ℕ) (s : OffChainState) (log : PaymentLog) : Type 0 where
  pub found : lookup t log ≡ some s
  pub positive : slt 0 t ≡ true
  pub greatest : IsBound t log

-- How the loop ends.
abbrev Ends : ℕ → OffChainState → PaymentLog → ℕ × OffChainState → Type 0
Ends t s log (t', s') =
    ((t' ≡ t) × (s' ≡ s) × IsBound t log)
    ⊎ ((lookup t' log ≡ some s') × (slt t t' ≡ true) × IsBound t' log)

-- A further entry that is not after the bound.
IsBound-cons :
    (t k : ℕ) (v : OffChainState) (log : PaymentLog)
    → slt t k ≡ false
    → IsBound t log
    → IsBound t ((k, v) ∷ log)
unfolding lookup
IsBound-cons t k v log h bound j w e = ground (arith, bound j w, nat_eq_iff k j)

lookup-cons_ne :
    (k j : ℕ) (v : OffChainState) (log : PaymentLog)
    → k ≢ j
    → lookup j ((k, v) ∷ log) ≡ lookup j log
unfolding lookup
lookup-cons_ne k j v log h = ground (arith, nat_eq_iff k j)

lookup-cons_self : (k : ℕ) (v : OffChainState) (log : PaymentLog) → lookup k ((k, v) ∷ log) ≡ some v
unfolding lookup
lookup-cons_self k v log = ground arith

Ends-later :
    (t k : ℕ) (s v : OffChainState) (log : PaymentLog) (r : ℕ × OffChainState)
    → slt t k ≡ true
    → Ends k v log r
    → Ends t s ((k, v) ∷ log) r
unfolding lookup
Ends-later t k s v log (t', s') h (inl (e, f, bound)) =
    ground (arith, slt_irrefl k, IsBound-cons k k v log, lookup-cons_self k v log)
Ends-later t k s v log (t', s') h (inr (found, after, bound)) = inr (
  lookup-cons_ne k t' v log (slt-ne k t' after) ∙ found,
  slt_trans t k t' h after,
  IsBound-cons t' k v log (slt_asymm k t' after) bound,
)

Ends-not_later :
    (t k : ℕ) (s v : OffChainState) (log : PaymentLog) (r : ℕ × OffChainState)
    → slt t k ≡ false
    → Ends t s log r
    → Ends t s ((k, v) ∷ log) r
unfolding lookup
Ends-not_later t k s v log (t', s') h (inl (e, f, bound)) =
    inl (e, f, IsBound-cons t k v log h bound)
Ends-not_later t k s v log (t', s') h (inr (found, after, bound)) = inr (
  lookup-cons_ne k t' v log (λ e. cc (ap (slt t) e)) ∙ found,
  after,
  IsBound-cons t' k v log (slt-of_not t t' k after h) bound,
)

-- One round of the loop, by the outcome of its test.
latest_loop-round :
    (b : Bool) (t k : ℕ) (s v : OffChainState) (log : PaymentLog)
    → slt t k ≡ b
    → latest_loop t s ((k, v) ∷ log) ≡ latest_loop (if b then k else t) (if b then v else s) log
unfolding latest_loop
latest_loop-round b t k s v log h i = latest_loop (if h i then k else t) (if h i then v else s) log

latest_loop-Ends :
    (t : ℕ) (s : OffChainState) (log : PaymentLog) → Ends t s log (latest_loop t s log)
unfolding latest_loop lookup
latest_loop-Ends t s [] = inl (refl, refl, λ k v e. cc)
latest_loop-Ends t s ((k, v) ∷ log) = elim (Bool-cases (slt t k)) [
  | inl h ↦
      subst (Ends t s ((k, v) ∷ log)) (sym (latest_loop-round true t k s v log h))
        (Ends-later t k s v log _ h (latest_loop-Ends k v log))
  | inr h ↦
      subst (Ends t s ((k, v) ∷ log)) (sym (latest_loop-round false t k s v log h))
        (Ends-not_later t k s v log _ h (latest_loop-Ends t s log))
]

-- Every key is a uint64 pattern.
abbrev pub HasWords : PaymentLog → Type 0
HasWords log = (k : ℕ) (s : OffChainState) → lookup k log ≡ some s → IsWord k

found_of_Ends :
    (log : PaymentLog) (r : ℕ × OffChainState) (s : OffChainState)
    → Ends 0 zero_state log r
    → (if nat_eq r.0 0 then none else some r.1) ≡ some s
    → (t : ℕ) × IsLatest t s log
found_of_Ends log (t, s') s (inl (e, f, bound)) h = ground arith
found_of_Ends log (t, s') s (inr (found, after, bound)) h =
    let same : s' ≡ s = ground arith in
    (t, record { found = found ∙ ap some same; positive = after; greatest = bound })

-- The state that is found stands in the log under a positive timestamp, and no other is later.
pub get_latest_off_chain_state-IsLatest :
    (log : PaymentLog) (s : OffChainState)
    → get_latest_off_chain_state log ≡ some s
    → (t : ℕ) × IsLatest t s log
unfolding get_latest_off_chain_state
get_latest_off_chain_state-IsLatest log s h =
    found_of_Ends log (latest_loop 0 zero_state log) s (latest_loop-Ends 0 zero_state log) h

get_latest-none_of :
    (log : PaymentLog) (r : ℕ × OffChainState)
    → Ends 0 zero_state log r
    → (if nat_eq r.0 0 then none else some r.1) ≡ none
    → IsBound 0 log
get_latest-none_of log (t, s') (inl (e, f, bound)) h = bound
get_latest-none_of log (t, s') (inr (found, after, bound)) h =
    absurd (slt-ne 0 t after (sym (ground arith)))

-- The error means that no timestamp of the log is positive.
pub get_latest-none : (log : PaymentLog) → get_latest_off_chain_state log ≡ none → IsBound 0 log
unfolding get_latest_off_chain_state
get_latest-none log h =
    get_latest-none_of log (latest_loop 0 zero_state log) (latest_loop-Ends 0 zero_state log) h

IsLatest-unique :
    (log : PaymentLog) (t u : ℕ) (s v : OffChainState)
    → HasWords log
    → IsLatest t s log
    → IsLatest u v log
    → s ≡ v
IsLatest-unique log t u s v words a b =
    let same : t ≡ u =
      slt_total t u (words t s a.found) (words u v b.found) (a.greatest u v b.found)
        (b.greatest t s a.found) in
    cc (a.found, b.found, same)

-- A state under the greatest positive timestamp of a log with uint64 keys is what is found.
pub IsLatest-get_latest :
    (log : PaymentLog) (t : ℕ) (s : OffChainState)
    → HasWords log
    → IsLatest t s log
    → get_latest_off_chain_state log ≡ some s
IsLatest-get_latest log t s words a = elim (Option-cases (get_latest_off_chain_state log)) [
  | inl missing ↦ cc (get_latest-none log missing t s a.found, a.positive)
  | inr (v, e) ↦
      let (u, b) = get_latest_off_chain_state-IsLatest log v e in
      e ∙ ap some (IsLatest-unique log u t v s words b a)
]

-- In a log with uint64 keys, a state is found exactly if it stands under a positive timestamp, and
-- no other is later.
pub get_latest_off_chain_state_iff :
    (log : PaymentLog) (s : OffChainState)
    → HasWords log
    → (get_latest_off_chain_state log ≡ some s) ↔ ((t : ℕ) × IsLatest t s log)
get_latest_off_chain_state_iff log s words =
    (get_latest_off_chain_state-IsLatest log s, λ (t, a). IsLatest-get_latest log t s words a)

get_latest-none_back : (log : PaymentLog) → IsBound 0 log → get_latest_off_chain_state log ≡ none
get_latest-none_back log bound = elim (Option-cases (get_latest_off_chain_state log)) [
  | inl e ↦ e
  | inr (s, e) ↦
      let (t, a) = get_latest_off_chain_state-IsLatest log s e in cc (bound t s a.found, a.positive)
]

-- Two logs with uint64 keys that hold the same states, in whatever order their loops visit them,
-- have the same latest state.
pub get_latest_order :
    (log log' : PaymentLog)
    → HasWords log
    → ((k : ℕ) → lookup k log ≡ lookup k log')
    → get_latest_off_chain_state log ≡ get_latest_off_chain_state log'
get_latest_order log log' words same = elim (Option-cases (get_latest_off_chain_state log)) [
  | inl e ↦ e ∙ sym (get_latest-none_back log' (λ k s f. get_latest-none log e k s (same k ∙ f)))
  | inr (s, e) ↦
      let (t, a) = get_latest_off_chain_state-IsLatest log s e in
      e
      ∙ sym (
          IsLatest-get_latest log' t s (λ k v f. words k v (same k ∙ f))
            (record {
              found = sym (same t) ∙ a.found;
              positive = a.positive;
              greatest = λ k v f. a.greatest k v (same k ∙ f);
            }))
]

HasWords-insert :
    (log : PaymentLog) (t : ℕ) (s : OffChainState)
    → HasWords log
    → IsWord t
    → HasWords (insert t s log)
HasWords-insert log t s words w k v e =
    ground (arith, lookup-insert t k s log, words k v, nat_eq_iff t k)

-- A state that is put under a later timestamp than all others is the latest.
pub get_latest-insert :
    (log : PaymentLog) (t : ℕ) (s : OffChainState)
    → HasWords log
    → IsWord t
    → slt 0 t ≡ true
    → IsBound t log
    → get_latest_off_chain_state (insert t s log) ≡ some s
get_latest-insert log t s words w p bound =
    IsLatest-get_latest (insert t s log) t s (HasWords-insert log t s words w) (record {
      found = lookup-insert_self t s log;
      positive = p;
      greatest =
          λ k v e. ground (arith, lookup-insert t k s log, bound k v, slt_irrefl t, nat_eq_iff t k);
    })
