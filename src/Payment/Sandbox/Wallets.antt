-- ===== src/Payment/Sandbox/Wallets.antt =====
-- What GetSandboxAccounts returns.
use mathlib.Core.Path.{subst}
use algorand_state_channels.Base.{
  ◌≡◌, ◌≢◌, ◌↔◌, inl, inr, refl, ap, sym, ◌∙◌, Bytes, bytes_eq_iff, bytes_has_eq, codes, Option,
  none, some, List, [], ◌∷◌, ◌==◌, arith, Option-cases, Bool-cases,
}
use algorand_state_channels.Payment.Sdk.{Account, Address}
use algorand_state_channels.Payment.Sandbox.{
  Wallet, Kmd, Environment, ◌>>=◌, get_kmd_client, find_wallet, found, export_accounts,
  get_sandbox_accounts,
}

-- The accounts of some addresses, one for each and in their order.
pub data Exported (env : Environment) (client : Kmd) (handle : Bytes)
    : List Address → List Account → Type 0 where
  no_more : Exported env client handle [] []
  one_more :
      (address : Address) (private_key : Bytes) (account : Account) (addresses : List Address)
      (accounts : List Account)
      → client.export_key handle [] address ≡ some private_key
      → env.account_from_private_key private_key ≡ some account
      → Exported env client handle addresses accounts
      → Exported env client handle (address ∷ addresses) (account ∷ accounts)

export_accounts-Exported :
    (env : Environment) (client : Kmd) (handle : Bytes) (addresses : List Address)
    (accounts : List Account)
    → export_accounts env client handle addresses ≡ some accounts
    → Exported env client handle addresses accounts
unfolding export_accounts
export_accounts-Exported env client handle [] accounts e =
    subst (Exported env client handle []) (ground arith) no_more
export_accounts-Exported env client handle (address ∷ rest) accounts e =
    elim (Option-cases (client.export_key handle [] address)) [
      | inl missing ↦ absurd (ground arith)
      | inr (key, exported) ↦ elim (Option-cases (env.account_from_private_key key)) [
        | inl bad ↦ absurd (ground arith)
        | inr (account, made) ↦ elim (Option-cases (export_accounts env client handle rest)) [
          | inl stuck ↦ absurd (ground arith)
          | inr (others, f) ↦
              let ih = export_accounts-Exported env client handle rest others f in
              let same : account ∷ others ≡ accounts = ground arith in
              subst (Exported env client handle (address ∷ rest)) same
                (one_more address key account rest others exported made ih)
        ]
      ]
    ]

Exported-export_accounts :
    {env : Environment} {client : Kmd} {handle : Bytes} {addresses : List Address}
    {accounts : List Account}
    → Exported env client handle addresses accounts
    → export_accounts env client handle addresses ≡ some accounts
unfolding export_accounts
Exported-export_accounts no_more = refl
Exported-export_accounts (one_more address key account rest others exported made more) =
    let ih = Exported-export_accounts more in ground (arith, exported, made, ih)

-- The first wallet of the sandbox's name.
pub data IsFirst : Wallet → List Wallet → Type 0 where
  here :
      (wallet : Wallet) (rest : List Wallet)
      → wallet.name ≡ codes "unencrypted-default-wallet"
      → IsFirst wallet (wallet ∷ rest)
  there :
      (wallet other : Wallet) (rest : List Wallet)
      → other.name ≢ codes "unencrypted-default-wallet"
      → IsFirst wallet rest
      → IsFirst wallet (other ∷ rest)

find_wallet-IsFirst :
    (wallets : List Wallet)
    → find_wallet wallets ≢ []
    → (wallet : Wallet) × IsFirst wallet wallets × (find_wallet wallets ≡ wallet.id)
unfolding find_wallet
find_wallet-IsFirst [] some_id = absurd (some_id refl)
find_wallet-IsFirst (wallet ∷ rest) some_id =
    let name = bytes_eq_iff wallet.name (codes "unencrypted-default-wallet") in
    elim (Bool-cases (wallet.name == codes "unencrypted-default-wallet")) [
      | inl named ↦ (wallet, here wallet rest (ground (arith, name)), ground arith)
      | inr other ↦
          let (first, is_first, same) = find_wallet-IsFirst rest (λ e. some_id (ground arith)) in
          (first, there first wallet rest (ground (arith, name)) is_first, ground arith)
    ]

IsFirst-find_wallet :
    {wallet : Wallet} {wallets : List Wallet}
    → IsFirst wallet wallets
    → find_wallet wallets ≡ wallet.id
unfolding find_wallet
IsFirst-find_wallet (here wallet rest named) =
    ground (arith, bytes_eq_iff wallet.name (codes "unencrypted-default-wallet"))
IsFirst-find_wallet (there wallet other rest unnamed first) =
    let ih = IsFirst-find_wallet first in
    ground (arith, bytes_eq_iff other.name (codes "unencrypted-default-wallet"))

-- The kmd service has the wallet, with an id, opens it, and gives every key of it.
pub record IsSandbox (env : Environment) (accounts : List Account) : Type 0 where
  pub client : Kmd
  pub wallets : List Wallet
  pub wallet : Wallet
  pub handle : Bytes
  pub addresses : List Address
  pub connected : get_kmd_client env ≡ some client
  pub listed : client.list_wallets ≡ some wallets
  pub first : IsFirst wallet wallets
  pub has_id : wallet.id ≢ []
  pub opened : client.init_wallet_handle wallet.id [] ≡ some handle
  pub keys : client.list_keys handle ≡ some addresses
  pub exported : Exported env client handle addresses accounts

bind_inversion :
    {A B : Type 0} (m : Option A) (k : A → Option B) (b : B)
    → (m >>= k) ≡ some b
    → (a : A) × (m ≡ some a) × (k a ≡ some b)
bind_inversion none k b e = ground arith
bind_inversion (some a) k b e = (a, refl, e)

found_inversion : (b id : Bytes) → found b ≡ some id → (b ≡ id) × (id ≢ [])
found_inversion b id e =
    let empty = bytes_eq_iff b [] in
    elim (Bool-cases (b == [])) [
      | inl none_found ↦ absurd (ground arith)
      | inr some_found ↦
          let same : b ≡ id = ground arith in
          (same, subst (λ x. x ≢ []) same (λ z. ground (arith, empty)))
    ]

get_sandbox_accounts-IsSandbox :
    (env : Environment) (accounts : List Account)
    → get_sandbox_accounts env ≡ some accounts
    → IsSandbox env accounts
unfolding get_sandbox_accounts
get_sandbox_accounts-IsSandbox env accounts e =
    let (client, connected, e1) = bind_inversion (get_kmd_client env) _ accounts e in
    let (wallets, listed, e2) = bind_inversion client.list_wallets _ accounts e1 in
    let (id, found_id, e3) = bind_inversion (found (find_wallet wallets)) _ accounts e2 in
    let (handle, opened, e4) = bind_inversion (client.init_wallet_handle id []) _ accounts e3 in
    let (addresses, keys, e5) = bind_inversion (client.list_keys handle) _ accounts e4 in
    let (same_id, has_id) = found_inversion (find_wallet wallets) id found_id in
    let (wallet, first, is_id) =
      find_wallet-IsFirst wallets (subst (λ x. x ≢ []) (sym same_id) has_id) in
    let same : id ≡ wallet.id = sym same_id ∙ is_id in
    record {
      client = client;
      wallets = wallets;
      wallet = wallet;
      handle = handle;
      addresses = addresses;
      connected = connected;
      listed = listed;
      first = first;
      has_id = subst (λ x. x ≢ []) same has_id;
      opened = ap (λ x. client.init_wallet_handle x []) (sym same) ∙ opened;
      keys = keys;
      exported = export_accounts-Exported env client handle addresses accounts e5;
    }

-- GetSandboxAccounts returns some accounts, and does not end the process, exactly if the kmd client
-- connects, the first wallet of the sandbox's name has an id and opens, and the accounts are those
-- of its keys, one for each and in their order.
pub get_sandbox_accounts_iff :
    (env : Environment) (accounts : List Account)
    → (get_sandbox_accounts env ≡ some accounts) ↔ IsSandbox env accounts
unfolding get_sandbox_accounts
get_sandbox_accounts_iff env accounts = (
  get_sandbox_accounts-IsSandbox env accounts,
  λ s. ground (
    arith,
    s.connected,
    s.listed,
    IsFirst-find_wallet s.first,
    s.has_id,
    bytes_eq_iff s.wallet.id [],
    s.opened,
    s.keys,
    Exported-export_accounts s.exported,
  ),
)
