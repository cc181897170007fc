-- ===== src/Cli.antt =====
-- The command line client, cmd/ascli: which request of the node's RPC service each command makes.
-- The parsing of the command line is the package urfave/cli, whose Context is a parameter.
pub mod Commands
pub mod Declared
pub mod Complete
pub mod Serving
use algorand_state_channels.Base.{ℕ, Bytes, Option, List}
use algorand_state_channels.Payment.Sdk.{Address}

-- `cli.Context`, with the error of grpc.Dial if it fails.
pub record Context : Type 0 where
  pub narg : ℕ
  pub string_flag : Bytes → Bytes
  pub int64_flag : Bytes → ℕ  -- in two's complement
  pub uint64_flag : Bytes → ℕ
  pub dial_error : Option Bytes

-- The requests of asrpc that the commands make.
pub data Request : Type 0 where
  reset get_info : Request
  open_channel :
      (host : Bytes) (algo_address : Address) (funding_amount penalty_reserve dispute_window : ℕ)
      → Request
  pay : (algo_address : Address) (amount : ℕ) → Request
  cooperative_close_channel initiate_close_channel finalize_close_channel try_to_cheat :
      (algo_address : Address) → Request

-- A command ends with an error and exit code 1, or it makes its request.
pub data Outcome : Type 0 where
  exit_error : Bytes → Outcome
  requests : Request → Outcome

-- `cli.StringFlag` and `cli.Int64Flag`, by their names.
pub data Flag : Type 0 where
  string_named int64_named : Bytes → Flag

pub record Command : Type 0 where
  pub name : Bytes
  pub flags : List Flag
  pub action : Context → Outcome
