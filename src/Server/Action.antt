-- ===== src/Server/Action.antt =====
-- Handlers that change the server and may end early. What was written before the end stays.
use algorand_state_channels.Base.{
  ℕ, Bytes, Bool, true, false, Option, none, some, List, [], ◌∷◌, ◌++◌, get_elem?,
}
use algorand_state_channels.Base.BigEndian.{uint64}
use algorand_state_channels.Payment.Calls.{Submission}
use algorand_state_channels.Server.State.{Server}

-- The errors that the RPC methods return.
pub data Error : Type 0 where
  channel_does_not_exist : Error
  no_off_chain_state : Error
  not_enough_balance : Error
  signature_invalid : Error
  partner_rejected : Error
  invalid_response : Error
  request_failed : Error
  balance_unavailable : Error

-- Why a handler ends early.
pub data Stop : Type 0 where
  reject : Stop  -- `server_response.Message = "reject"` and `break`
  error : Error → Stop  -- `return nil, err`
  fatal : Stop  -- `log.Fatalf`, which ends the process
  panic : Stop  -- a panic of the runtime, which ends the process too

pub data Result (A : Type 0) : Type 0 where
  ok : A → Result A
  stop : Stop → Result A

abbrev pub Action : Type 0 → Type 0
Action A = Server → Result A × Server

module _ {A : Type 0} where
  abbrev pub pure : A → Action A
  pure a s = (ok a, s)

  abbrev pub halt : Stop → Action A
  halt e s = (stop e, s)

  abbrev pub gets : (Server → A) → Action A
  gets f s = (ok (f s), s)

  -- The value, or the end of the handler.
  abbrev pub or_halt : Stop → Option A → Action A
  or_halt e none = halt e
  or_halt e (some a) = pure a

-- A computation that does not touch the server.
abbrev pub lift : {A : Type 0} → Result A → Action A
lift r s = (r, s)

-- The first action, and where it returns a value what follows.
infixl 5 ◌>>=◌
abbrev pub ◌>>=◌ : {A B : Type 0} (first : Action A) (rest : A → Action B) → Action B
◌>>=◌ first rest s =
    let (r, after) = first s in elim r [ ok a ↦ rest a after | stop e ↦ (stop e, after) ]

infixl 5 ◌>>◌
abbrev pub ◌>>◌ : {B : Type 0} (first : Action (Unit {0})) (rest : Action B) → Action B
first >> rest = first >>= λ _. rest

abbrev pub modify : (Server → Server) → Action (Unit {0})
modify f s = (ok tt, f s)

-- Ends the handler unless the test holds.
abbrev pub require : Bool → Stop → Action (Unit {0})
require true e = pure tt
require false e = halt e

-- `args[i]`, which panics out of range
abbrev pub index : List Bytes → ℕ → Action Bytes
index args i = or_halt panic (get_elem? args i)

-- `binary.BigEndian.Uint64(b)`, which panics on fewer than eight bytes
abbrev pub read_uint64 : Bytes → Action ℕ
read_uint64 b = or_halt panic (uint64 b)

abbrev pub submit : Submission → Action (Unit {0})
submit t = modify (λ s. record s { submitted = s.submitted ++ t ∷ [] })
