-- ===== src/Server/GlobalState/Checks.antt =====
-- Which contracts pass doOpenChannelSecurityChecks.
use algorand_state_channels.Base.{
  ℕ, ◌≤◌, ◌≡◌, ◌⊎◌, ◌↔◌, inl, inr, refl, sym, ap, ◌∙◌, Bool, true, false, Bytes, codes,
  bytes_eq_iff, bytes_has_eq, Option, none, some, List, arith, Option-cases,
}
use algorand_state_channels.Base.Word.{slt, IsWord}
use algorand_state_channels.Base.Decimal.{sscanf_int, sscanf_int-IsWord}
use algorand_state_channels.Payment.Sdk.{Address}
use algorand_state_channels.Payment.Calls.{compile_payment_programs}
use algorand_state_channels.Server.State.{Server, TealKeyValue, Application, World}
use algorand_state_channels.Server.Action.{Result, Stop, ok, stop}
use algorand_state_channels.Server.GlobalState.{
  get_value_of_global_state, parse_int, in_range, penalty_reserve_check, dispute_window_check,
  bob_address_check, do_open_channel_security_checks,
}

-- The state holds a number between `lo` and `hi` under `key`.
pub record HoldsIn (global_state : List TealKeyValue) (key : Bytes) (lo hi : ℕ) : Type 0 where
  pub text : Bytes
  pub value : ℕ
  pub holds : get_value_of_global_state global_state key ≡ ok (some text)
  pub scans : sscanf_int text ≡ some value
  pub from : lo ≤ value
  pub to : value ≤ hi

-- What the checks ask of a contract: the programs of the repository, the node as Bob, a dispute
-- window of 2 to 10000 and a penalty reserve of 100 to 100000000.
pub record IsSafe (w : World) (app : Application) (me : Address) : Type 0 where
  pub approval : app.approval_program ≡ (compile_payment_programs w.compiler).0
  pub clear : app.clear_state_program ≡ (compile_payment_programs w.compiler).1
  pub bob_value : Bytes
  pub has_bob :
      get_value_of_global_state app.global_state (codes "bob_address") ≡ ok (some bob_value)
  pub is_bob : w.sdk.encode_address bob_value ≡ some me
  pub dispute_window : HoldsIn app.global_state (codes "dispute_window") 2 10_000
  pub penalty_reserve : HoldsIn app.global_state (codes "penalty_reserve") 100 100_000_000

in_range_iff :
    (lo hi v : ℕ)
    → IsWord v
    → lo ≤ 1_000_000_000
    → hi ≤ 1_000_000_000
    → (in_range lo hi v ≡ true) ↔ ((lo ≤ v) × (v ≤ hi))
unfolding slt
in_range_iff lo hi v w a b = ground arith

value-cases :
    (r : Result (Option Bytes))
    → ((e : Stop) × (r ≡ stop e)) ⊎ ((r ≡ ok none) ⊎ ((text : Bytes) × (r ≡ ok (some text))))
value-cases (stop e) = inl (e, refl)
value-cases (ok none) = inr (inl refl)
value-cases (ok (some text)) = inr (inr (text, refl))

ended-cases :
    {s : Server} (r : Result Bool × Server)
    → r.1 ≡ s
    → ((e : Stop) × (r ≡ (stop e, s))) ⊎ ((r ≡ (ok false, s)) ⊎ (r ≡ (ok true, s)))
ended-cases (stop e, s') h = inl (e, ap (λ x. (stop e, x)) h)
ended-cases (ok false, s') h = inr (inl (ap (λ x. (ok false, x)) h))
ended-cases (ok true, s') h = inr (inr (ap (λ x. (ok true, x)) h))

penalty_reserve_check-back :
    (global_state : List TealKeyValue) (s : Server)
    → penalty_reserve_check global_state s ≡ (ok true, s)
    → HoldsIn global_state (codes "penalty_reserve") 100 100_000_000
unfolding penalty_reserve_check parse_int
penalty_reserve_check-back global_state s h =
    elim (value-cases (get_value_of_global_state global_state (codes "penalty_reserve"))) [
      | inl (e, failed) ↦ absurd (ground arith)
      | inr (inl missing) ↦ absurd (ground arith)
      | inr (inr (text, holds)) ↦ elim (Option-cases (sscanf_int text)) [
        | inl bad ↦ absurd (ground arith)
        | inr (v, scans) ↦
            let passed : in_range 100 100_000_000 v ≡ true = ground arith in
            let (from, to) =
              (in_range_iff 100 100_000_000 v (sscanf_int-IsWord text v scans) (omega arith)
                  (omega arith)).0
                passed in
            record { text = text; value = v; holds = holds; scans = scans; from = from; to = to }
      ]
    ]

penalty_reserve_check_passes :
    (global_state : List TealKeyValue) (s : Server)
    → HoldsIn global_state (codes "penalty_reserve") 100 100_000_000
    → penalty_reserve_check global_state s ≡ (ok true, s)
unfolding penalty_reserve_check parse_int
penalty_reserve_check_passes global_state s h = ground (
  arith,
  h.holds,
  h.scans,
  (in_range_iff 100 100_000_000 h.value (sscanf_int-IsWord h.text h.value h.scans) (omega arith)
        (omega arith)).1
      (h.from, h.to),
)

dispute_window_check-back :
    (global_state : List TealKeyValue) (s : Server)
    → dispute_window_check global_state s ≡ (ok true, s)
    → HoldsIn global_state (codes "dispute_window") 2 10_000
      × HoldsIn global_state (codes "penalty_reserve") 100 100_000_000
unfolding dispute_window_check parse_int
dispute_window_check-back global_state s h =
    elim (value-cases (get_value_of_global_state global_state (codes "dispute_window"))) [
      | inl (e, failed) ↦ absurd (ground arith)
      | inr (inl missing) ↦ absurd (ground arith)
      | inr (inr (text, holds)) ↦ elim (Option-cases (sscanf_int text)) [
        | inl bad ↦ absurd (ground arith)
        | inr (v, scans) ↦
            let passed : in_range 2 10_000 v ≡ true = ground arith in
            let (from, to) =
              (in_range_iff 2 10_000 v (sscanf_int-IsWord text v scans) (omega arith)
                  (omega arith)).0
                passed in
            (
              record { text = text; value = v; holds = holds; scans = scans; from = from; to = to },
              penalty_reserve_check-back global_state s (ground arith),
            )
      ]
    ]

dispute_window_check_passes :
    (global_state : List TealKeyValue) (s : Server)
    → HoldsIn global_state (codes "dispute_window") 2 10_000
    → HoldsIn global_state (codes "penalty_reserve") 100 100_000_000
    → dispute_window_check global_state s ≡ (ok true, s)
unfolding dispute_window_check parse_int
dispute_window_check_passes global_state s h p = ground (
  arith,
  h.holds,
  h.scans,
  (in_range_iff 2 10_000 h.value (sscanf_int-IsWord h.text h.value h.scans) (omega arith)
        (omega arith)).1
      (h.from, h.to),
  penalty_reserve_check_passes global_state s p,
)

-- A contract passes the checks exactly if its programs are those that the node compiles, its
-- global state has the node's address as Bob's, a dispute window from 2 to 10000 and a penalty
-- reserve from 100 to 100000000.
pub security_checks_iff :
    (w : World) (app : Application) (s : Server)
    → (do_open_channel_security_checks w app s ≡ (ok true, s)) ↔ IsSafe w app s.algo_account.address
unfolding do_open_channel_security_checks bob_address_check
security_checks_iff w app s = (
  λ h. elim (value-cases (get_value_of_global_state app.global_state (codes "bob_address"))) [
    | inl (e, failed) ↦ absurd (ground arith)
    | inr (inl missing) ↦ absurd (ground arith)
    | inr (inr (text, holds)) ↦ elim (Option-cases (w.sdk.encode_address text)) [
      | inl bad ↦ absurd (ground arith)
      | inr (bob, encoded) ↦
          let checked : dispute_window_check app.global_state s ≡ (ok true, s) = ground arith in
          let (window, reserve) = dispute_window_check-back app.global_state s checked in
          let me : s.algo_account.address ≡ bob =
            ground (arith, bytes_eq_iff s.algo_account.address bob) in
          record {
            approval =
                ground (
                  arith,
                  bytes_eq_iff app.approval_program (compile_payment_programs w.compiler).0,
                );
            clear = ground (
              arith,
              bytes_eq_iff app.clear_state_program (compile_payment_programs w.compiler).1,
            );
            bob_value = text;
            has_bob = holds;
            is_bob = encoded ∙ ap some (sym me);
            dispute_window = window;
            penalty_reserve = reserve;
          }
    ]
  ],
  λ p. ground (
    arith,
    p.approval,
    p.clear,
    p.has_bob,
    p.is_bob,
    bytes_eq_iff app.approval_program (compile_payment_programs w.compiler).0,
    bytes_eq_iff app.clear_state_program (compile_payment_programs w.compiler).1,
    bytes_eq_iff s.algo_account.address s.algo_account.address,
    dispute_window_check_passes app.global_state s p.dispute_window p.penalty_reserve,
  ),
)

-- The checks read the server only.
pub security_checks_pure :
    (w : World) (app : Application) (s : Server) → (do_open_channel_security_checks w app s).1 ≡ s
unfolding do_open_channel_security_checks bob_address_check dispute_window_check
    penalty_reserve_check parse_int
security_checks_pure w app s = ground arith

-- How the checks end.
pub security_checks-cases :
    (w : World) (app : Application) (s : Server)
    → ((e : Stop) × (do_open_channel_security_checks w app s ≡ (stop e, s)))
      ⊎ ((do_open_channel_security_checks w app s ≡ (ok false, s))
          ⊎ (do_open_channel_security_checks w app s ≡ (ok true, s)))
security_checks-cases w app s =
    ended-cases (do_open_channel_security_checks w app s) (security_checks_pure w app s)
