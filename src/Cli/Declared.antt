-- ===== src/Cli/Declared.antt =====
-- Which flags the commands read.
use mathlib.Core.Path.{subst}
use algorand_state_channels.Base.{
  ℕ, ◌≡◌, Bytes, bytes_has_eq, nat_has_eq, some, List, [], ◌∷◌, All, arith, zero, suc, get_elem?,
}
use algorand_state_channels.Cli.{
  Context, Request, cooperative_close_channel, initiate_close_channel, finalize_close_channel,
  try_to_cheat, Flag, string_named, int64_named, Command,
}
use algorand_state_channels.Cli.Commands.{
  with_client, open_channel_action, pay_action, partner_action, commands, open_channel_command,
  pay_command, get_info_command, get_info_action, reset_action, reset_command, partner_flags,
  cooperative_close_channel_command, initiate_channel_closing_command,
  finalize_channel_closing_command, try_to_cheat_command,
}

-- Two contexts in which a flag has the same value, as each of the three readings gives it.
pub record SameFlag (ctx ctx' : Context) (name : Bytes) : Type 0 where
  pub same_string : ctx.string_flag name ≡ ctx'.string_flag name
  pub same_int64 : ctx.int64_flag name ≡ ctx'.int64_flag name
  pub same_uint64 : ctx.uint64_flag name ≡ ctx'.uint64_flag name

abbrev pub SameValue : Context → Context → Flag → Type 0
SameValue ctx ctx' (string_named name) = SameFlag ctx ctx' name
SameValue ctx ctx' (int64_named name) = SameFlag ctx ctx' name

-- Two contexts with the same number of arguments and the same client.
pub record SameCall (ctx ctx' : Context) : Type 0 where
  pub same_narg : ctx.narg ≡ ctx'.narg
  pub same_dial : ctx.dial_error ≡ ctx'.dial_error

-- What holds of all commands holds of each.
pub get_elem-All :
    (P : Command → Type 0) (l : List Command) (i : ℕ) (c : Command)
    → All P l
    → get_elem? l i ≡ some c
    → P c
get_elem-All P [] i c all_ e = absurd (ground arith)
get_elem-All P (d ∷ rest) zero c (p, all_) e = let same : d ≡ c = ground arith in subst P same p
get_elem-All P (d ∷ rest) (suc i) c (p, all_) e = get_elem-All P rest i c all_ (ground arith)

-- A command reads no more than its flags, beside the number of arguments and the client.
abbrev ReadsDeclared : Command → Type 0
ReadsDeclared c =
    (ctx ctx' : Context)
    → SameCall ctx ctx'
    → All (SameValue ctx ctx') c.flags
    → c.action ctx ≡ c.action ctx'

open_channel-ReadsDeclared : ReadsDeclared open_channel_command
unfolding open_channel_action with_client
open_channel-ReadsDeclared ctx ctx' same (ip, (address, (funding, (penalty, (window, _))))) =
    ground (
      arith, same.same_narg, same.same_dial, ip.same_string, address.same_string,
      funding.same_int64, funding.same_uint64, penalty.same_int64, penalty.same_uint64,
      window.same_int64, window.same_uint64,
    )

pay-ReadsDeclared : ReadsDeclared pay_command
unfolding pay_action with_client
pay-ReadsDeclared ctx ctx' same (address, (amount, _)) = ground (
  arith, same.same_narg, same.same_dial, address.same_string, amount.same_string,
  amount.same_uint64,
)

partner-ReadsDeclared :
    (name : Bytes) (request : Bytes → Request)
    → ReadsDeclared (record { name = name; flags = partner_flags; action = partner_action request })
unfolding partner_action with_client
partner-ReadsDeclared name request ctx ctx' same (address, _) =
    ground (arith, same.same_narg, same.same_dial, address.same_string)

get_info-ReadsDeclared : ReadsDeclared get_info_command
unfolding get_info_action with_client
get_info-ReadsDeclared ctx ctx' same _ = ground (arith, same.same_dial)

reset-ReadsDeclared : ReadsDeclared reset_command
unfolding reset_action with_client
reset-ReadsDeclared ctx ctx' same _ = ground (arith, same.same_dial)

-- A command of the table has one outcome in any two contexts with as many arguments, the same
-- client and the same values of the flags that the command declares: it reads no other flag.
pub commands_declared :
    (i : ℕ) (c : Command) (ctx ctx' : Context)
    → get_elem? commands i ≡ some c
    → SameCall ctx ctx'
    → All (SameValue ctx ctx') c.flags
    → c.action ctx ≡ c.action ctx'
commands_declared i c ctx ctx' e =
    get_elem-All ReadsDeclared commands i c
      (
        reset-ReadsDeclared,
        (
          get_info-ReadsDeclared,
          (
            open_channel-ReadsDeclared,
            (
              pay-ReadsDeclared,
              (
                partner-ReadsDeclared cooperative_close_channel_command.name
                    cooperative_close_channel,
                (
                  partner-ReadsDeclared initiate_channel_closing_command.name
                      initiate_close_channel,
                  (
                    partner-ReadsDeclared finalize_channel_closing_command.name
                        finalize_close_channel,
                    (partner-ReadsDeclared try_to_cheat_command.name try_to_cheat, tt),
                  ),
                ),
              ),
            ),
          ),
        ),
      )
      e ctx ctx'
