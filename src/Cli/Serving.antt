-- ===== src/Cli/Serving.antt =====
-- A command, with the node that serves its request.
pub mod Asks
pub mod Effects
use algorand_state_channels.Base.{
  ℕ, ◌≡◌, ◌≢◌, ◌⊎◌, inl, inr, refl, ap, sym, ◌∙◌, Bool, true, false, Bytes, bytes_eq_iff,
  bytes_has_eq, codes, Option, none, some, get_elem?, arith, if◌then◌else◌, ◌==◌,
}
use algorand_state_channels.Base.Word.{IsWord}
use algorand_state_channels.Payment.Sdk.{Address}
use algorand_state_channels.Server.State.{Server, World}
use algorand_state_channels.Server.Action.{Result, ok, stop, Action, pure, ◌>>=◌, ◌>>◌}
use algorand_state_channels.Server.Invariant.{IsWellFormed}
use algorand_state_channels.Server.Reach.{
  Step, resets, pays, closes, initiates_close, finalizes_close, cheats, Step-IsWellFormed,
}
use algorand_state_channels.Server.Start as Start
use algorand_state_channels.Server.Rpc as Rpc
use algorand_state_channels.Cli.{
  Context, Request, reset, get_info, open_channel, pay, cooperative_close_channel,
  initiate_close_channel, finalize_close_channel, try_to_cheat, Outcome, exit_error, requests,
  Command,
}
use algorand_state_channels.Cli.Commands.{
  commands, with_client, partner_action, partner_flags, pay_action, open_channel_action,
  open_channel_command, pay_command, get_info_command, get_info_action, reset_action, reset_command,
  cooperative_close_channel_command, initiate_channel_closing_command,
  finalize_channel_closing_command, try_to_cheat_command,
}
use algorand_state_channels.Cli.Declared.{get_elem-All}
use algorand_state_channels.Cli.Complete.{complete_request, open_channel_action_iff}
use mathlib.Core.Path.{subst}

-- What the node's methods respond.
pub data Response : Type 0 where
  nothing : Response
  app_id_of : ℕ → Response
  node_info : Address → ℕ → Response

-- The method of rpcserver.go that a request calls.
unfoldable pub serve : World → Request → Action Response
serve w reset = Start.reset w >> pure nothing
serve w get_info = Rpc.get_info w >>= λ (address, balance). pure (node_info address balance)
serve w (open_channel host address funding penalty window) =
    Rpc.open_channel w host address funding penalty window >>= λ app_id. pure (app_id_of app_id)
serve w (pay address amount) = Rpc.pay w address amount >> pure nothing
serve w (cooperative_close_channel address) = Rpc.cooperative_close w address >> pure nothing
serve w (initiate_close_channel address) = Rpc.initiate_close address >> pure nothing
serve w (finalize_close_channel address) = Rpc.finalize_close address >> pure nothing
serve w (try_to_cheat address) = Rpc.try_to_cheat address >> pure nothing

-- The exit code of main: an error of the command or of its request is printed and ends it with 1.
abbrev pub exit_code : Result Response → ℕ
exit_code (ok _) = 0
exit_code (stop _) = 1

-- A run of a command: its exit code, and the node after it.
unfoldable pub run : World → Command → Context → Server → ℕ × Server
run w c ctx s = elim (c.action ctx) [
  | exit_error _ ↦ (1, s)
  | requests r ↦ let (response, s') = serve w r s in (exit_code response, s')
]
