-- ===== src/Cli/Commands.antt =====
-- The eight commands of cmd/ascli, one file of the repository each, and the table of main.go.
use algorand_state_channels.Base.{
  Bytes, bytes_has_eq, nat_has_eq, codes, not, none, some, List, [], ◌∷◌, ◌==◌, if◌then◌else◌,
}
use algorand_state_channels.Cli.{
  Context, Request, reset, get_info, open_channel, pay, cooperative_close_channel,
  initiate_close_channel, finalize_close_channel, try_to_cheat, Outcome, exit_error, requests, Flag,
  string_named, int64_named, Command,
}

-- getClient, and the request that is made with the client
unfoldable pub with_client : Context → Request → Outcome
with_client ctx request = elim ctx.dial_error [
  | some err ↦ exit_error err
  | none ↦ requests request
]

-- openChannel. The amounts are tested as int64 and sent as uint64.
unfoldable pub open_channel_action : Context → Outcome
unfolding with_client
open_channel_action ctx =
    if not (ctx.narg == 0)
    then exit_error (codes "incorrect number of arguments")
    else if ctx.string_flag (codes "partner_ip") == []
    then exit_error (codes "partner ip address is required")
    else if ctx.string_flag (codes "partner_address") == []
    then exit_error (codes "partner address is required")
    else if ctx.int64_flag (codes "funding_amount") == 0
    then exit_error (codes "funding amount is required")
    else if ctx.int64_flag (codes "penalty_reserve") == 0
    then exit_error (codes "penalty reserve is required")
    else if ctx.int64_flag (codes "dispute_window") == 0
    then exit_error (codes "dispute window is required")
    else with_client ctx (
        open_channel (ctx.string_flag (codes "partner_ip"))
          (ctx.string_flag (codes "partner_address")) (ctx.uint64_flag (codes "funding_amount"))
          (ctx.uint64_flag (codes "penalty_reserve")) (ctx.uint64_flag (codes "dispute_window")))

abbrev pub open_channel_command : Command
open_channel_command = record {
  name = codes "openchannel";
  flags =
      string_named (codes "partner_ip")
      ∷ string_named (codes "partner_address")
      ∷ int64_named (codes "funding_amount")
      ∷ int64_named (codes "penalty_reserve")
      ∷ int64_named (codes "dispute_window")
      ∷ [];
  action = open_channel_action;
}

-- pay. The amount is a string flag that is read as a uint64.
unfoldable pub pay_action : Context → Outcome
unfolding with_client
pay_action ctx =
    if not (ctx.narg == 0)
    then exit_error (codes "incorrect number of arguments")
    else if ctx.string_flag (codes "partner_address") == []
    then exit_error (codes "partner address is required")
    else if ctx.string_flag (codes "amount") == []
    then exit_error (codes "amount is required")
    else with_client ctx
        (pay (ctx.string_flag (codes "partner_address")) (ctx.uint64_flag (codes "amount")))

abbrev pub pay_command : Command
pay_command = record {
  name = codes "pay";
  flags = string_named (codes "partner_address") ∷ string_named (codes "amount") ∷ [];
  action = pay_action;
}

-- The checks that closeChannel, initiateChannelClosing, finalizeChannelClosing and tryToCheat
-- share, whose request carries the partner's address only.
unfoldable pub partner_action : (Bytes → Request) → Context → Outcome
unfolding with_client
partner_action request ctx =
    if not (ctx.narg == 0)
    then exit_error (codes "incorrect number of arguments")
    else if ctx.string_flag (codes "partner_address") == []
    then exit_error (codes "partner algo address is required")
    else with_client ctx (request (ctx.string_flag (codes "partner_address")))

abbrev pub partner_flags : List Flag
partner_flags = string_named (codes "partner_address") ∷ []

abbrev pub cooperative_close_channel_command : Command
cooperative_close_channel_command = record {
  name = codes "cooperativeclosechannel";
  flags = partner_flags;
  action = partner_action cooperative_close_channel;
}

abbrev pub initiate_channel_closing_command : Command
initiate_channel_closing_command = record {
  name = codes "initiateclosechannel";
  flags = partner_flags;
  action = partner_action initiate_close_channel;
}

abbrev pub finalize_channel_closing_command : Command
finalize_channel_closing_command = record {
  name = codes "finalizeclosechannel";
  flags = partner_flags;
  action = partner_action finalize_close_channel;
}

abbrev pub try_to_cheat_command : Command
try_to_cheat_command = record {
  name = codes "trytocheat";
  flags = partner_flags;
  action = partner_action try_to_cheat;
}

-- getInfo and reset look at no argument.
unfoldable pub get_info_action : Context → Outcome
unfolding with_client
get_info_action ctx = with_client ctx get_info

unfoldable pub reset_action : Context → Outcome
unfolding with_client
reset_action ctx = with_client ctx reset

abbrev pub get_info_command : Command
get_info_command = record { name = codes "getinfo"; flags = []; action = get_info_action }

abbrev pub reset_command : Command
reset_command = record { name = codes "reset"; flags = []; action = reset_action }

-- `app.Commands` of main
abbrev pub commands : List Command
commands =
    reset_command ∷ get_info_command ∷ open_channel_command ∷ pay_command
    ∷ cooperative_close_channel_command ∷ initiate_channel_closing_command
    ∷ finalize_channel_closing_command ∷ try_to_cheat_command ∷ []
