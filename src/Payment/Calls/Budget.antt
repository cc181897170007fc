-- ===== src/Payment/Calls/Budget.antt =====
-- The transactions that raise the opcode budget of a call.
use algorand_state_channels.Base.{
  ℕ, zero, suc, ◌+◌, ◌*◌, ◌<◌, ◌≤◌, ◌≡◌, refl, ap, ◌∙◌, codes, some, [], ◌∷◌, arith, length,
  get_elem?,
}
use algorand_state_channels.Base.Word.{IsWord}
use algorand_state_channels.Base.Decimal.{format_uint, parse_uint-format_uint}
use algorand_state_channels.Payment.Sdk.{Account, Address}
use algorand_state_channels.Payment.Calls.{
  Txn, app_no_op, budget_transactions, budget_loop, increase_budget,
}

-- The number of transactions is the least whose budget, 700 each, covers the target.
pub budget_covers :
    (target : ℕ)
    → (target ≤ 700 * budget_transactions target)
      × ((n : ℕ) → target ≤ 700 * n → budget_transactions target ≤ n)
unfolding budget_transactions
budget_covers target = (omega arith, λ n h. omega arith)

length-budget_loop :
    (app_id : ℕ) (sender : Address) (i n : ℕ) → length (budget_loop app_id sender i n) ≡ n
unfolding budget_loop
length-budget_loop app_id sender i zero = refl
length-budget_loop app_id sender i (suc n) = ap suc (length-budget_loop app_id sender (i + 1) n)

-- The call of a signed state goes out with six budget transactions, in one group of seven.
pub length-increase_budget :
    (app_id : ℕ) (sender : Account) (main : Txn) (target : ℕ)
    → length (increase_budget app_id sender main target).txns ≡ suc (budget_transactions target)
unfolding increase_budget
length-increase_budget app_id sender main target =
    ap suc (length-budget_loop app_id sender.address 0 (budget_transactions target))

-- The budget transaction at place `j` carries the number `i + j` in its arguments.
pub get_elem?-budget_loop :
    (app_id : ℕ) (sender : Address) (i n j : ℕ)
    → j < n
    → get_elem? (budget_loop app_id sender i n) j
      ≡ some (app_no_op app_id (codes "increaseBudget" ∷ format_uint (i + j) ∷ []) [] sender)
unfolding budget_loop
get_elem?-budget_loop app_id sender i zero j h = absurd (omega arith)
get_elem?-budget_loop app_id sender i (suc n) zero h =
    let same : i ≡ i + 0 = omega arith in
    ap (λ m. some (app_no_op app_id (codes "increaseBudget" ∷ format_uint m ∷ []) [] sender)) same
get_elem?-budget_loop app_id sender i (suc n) (suc j) h =
    let same : i + 1 + j ≡ i + suc j = omega arith in
    get_elem?-budget_loop app_id sender (i + 1) n j (omega arith)
    ∙ ap (λ m. some (app_no_op app_id (codes "increaseBudget" ∷ format_uint m ∷ []) [] sender)) same

format_uint-injective : (n m : ℕ) → IsWord n → IsWord m → format_uint n ≡ format_uint m → n ≡ m
format_uint-injective n m hn hm e = cc (parse_uint-format_uint n hn, parse_uint-format_uint m hm)

-- No two places of the up to 2 ^ 64 - 1 budget transactions of a group hold equal transactions.
pub budget_loop_distinct :
    (app_id : ℕ) (sender : Address) (n j k : ℕ)
    → IsWord n
    → j < n
    → k < n
    → get_elem? (budget_loop app_id sender 0 n) j ≡ get_elem? (budget_loop app_id sender 0 n) k
    → j ≡ k
budget_loop_distinct app_id sender n j k w hj hk e =
    let same : format_uint (0 + j) ≡ format_uint (0 + k) = ground (
      arith,
      get_elem?-budget_loop app_id sender 0 n j hj,
      get_elem?-budget_loop app_id sender 0 n k hk,
    ) in
    let numbers : 0 + j ≡ 0 + k =
      format_uint-injective (0 + j) (0 + k) (omega arith) (omega arith) same in
    omega arith
