-- ===== src/Cli/Serving/Asks.antt =====
-- Which requests a command makes.
use algorand_state_channels.Base.{
  ℕ, ◌≡◌, ◌≢◌, refl, Bytes, bytes_has_eq, codes, some, get_elem?, arith,
}
use algorand_state_channels.Base.Word.{IsWord}
use algorand_state_channels.Cli.{
  Context, Request, reset, get_info, open_channel, pay, cooperative_close_channel,
  initiate_close_channel, finalize_close_channel, try_to_cheat, requests, Command,
}
use algorand_state_channels.Cli.Commands.{
  commands, with_client, partner_action, partner_flags, pay_action, open_channel_action,
  open_channel_command, pay_command, get_info_command, get_info_action, reset_action, reset_command,
  cooperative_close_channel_command, initiate_channel_closing_command,
  finalize_channel_closing_command, try_to_cheat_command,
}
use algorand_state_channels.Cli.Declared.{get_elem-All}
use algorand_state_channels.Cli.Complete.{complete_request, open_channel_action_iff}
use mathlib.Core.Path.{subst}

-- What the request of a command may be: none but that of openchannel opens a channel, and none but
-- that of reset resets the node.
abbrev pub IsOpening : Request → Type 0
IsOpening (open_channel _ _ _ _ _) = Unit {0}
IsOpening _ = ⊥

abbrev pub IsReset : Request → Type 0
IsReset reset = Unit {0}
IsReset _ = ⊥

-- Requests with words for amounts.
abbrev pub HasWords : Request → Type 0
HasWords (pay _ amount) = IsWord amount
HasWords _ = Unit {0}

-- The requests of a command: only reset resets, only openchannel opens, and amounts are words if
-- the flags are read as words.
pub record Asks (c : Command) : Type 0 where
  pub resets_only :
      (ctx : Context) (r : Request)
      → c.action ctx ≡ requests r
      → c.name ≢ codes "reset"
      → ¬ IsReset r
  pub opens_only :
      (ctx : Context) (r : Request)
      → c.action ctx ≡ requests r
      → c.name ≢ codes "openchannel"
      → ¬ IsOpening r
  pub words :
      (ctx : Context) (r : Request)
      → ((name : Bytes) → IsWord (ctx.uint64_flag name))
      → c.action ctx ≡ requests r
      → HasWords r

partner_action_inversion :
    (f : Bytes → Request) (ctx : Context) (r : Request)
    → partner_action f ctx ≡ requests r
    → f (ctx.string_flag (codes "partner_address")) ≡ r
unfolding partner_action with_client
partner_action_inversion f ctx r e = ground arith

pay_action_inversion :
    (ctx : Context) (r : Request)
    → pay_action ctx ≡ requests r
    → pay (ctx.string_flag (codes "partner_address")) (ctx.uint64_flag (codes "amount")) ≡ r
unfolding pay_action with_client
pay_action_inversion ctx r e = ground arith

open_action_inversion :
    (ctx : Context) (r : Request) → open_channel_action ctx ≡ requests r → complete_request ctx ≡ r
open_action_inversion ctx r e = ((open_channel_action_iff ctx r).0 e).1

partner-Asks :
    (name : Bytes) (f : Bytes → Request)
    → ((a : Bytes) → ¬ IsReset (f a))
    → ((a : Bytes) → ¬ IsOpening (f a))
    → ((a : Bytes) → HasWords (f a))
    → Asks (record { name = name; flags = partner_flags; action = partner_action f })
partner-Asks name f a b c = record {
  resets_only = λ ctx r e _. subst (λ x. ¬ IsReset x) (partner_action_inversion f ctx r e) (a _);
  opens_only = λ ctx r e _. subst (λ x. ¬ IsOpening x) (partner_action_inversion f ctx r e) (b _);
  words = λ ctx r _ e. subst HasWords (partner_action_inversion f ctx r e) (c _);
}

pay-Asks : Asks pay_command
pay-Asks = record {
  resets_only = λ ctx r e _. subst (λ x. ¬ IsReset x) (pay_action_inversion ctx r e) (λ n. n);
  opens_only = λ ctx r e _. subst (λ x. ¬ IsOpening x) (pay_action_inversion ctx r e) (λ n. n);
  words = λ ctx r w e. subst HasWords (pay_action_inversion ctx r e) (w (codes "amount"));
}

open_channel-Asks : Asks open_channel_command
open_channel-Asks = record {
  resets_only = λ ctx r e _. subst (λ x. ¬ IsReset x) (open_action_inversion ctx r e) (λ n. n);
  opens_only = λ ctx r e other. absurd (other refl);
  words = λ ctx r w e. subst HasWords (open_action_inversion ctx r e) tt;
}

get_info_inversion :
    (ctx : Context) (r : Request) → get_info_command.action ctx ≡ requests r → get_info ≡ r
unfolding get_info_action with_client
get_info_inversion ctx r e = ground arith

get_info-Asks : Asks get_info_command
get_info-Asks = record {
  resets_only = λ ctx r e _. subst (λ x. ¬ IsReset x) (get_info_inversion ctx r e) (λ n. n);
  opens_only = λ ctx r e _. subst (λ x. ¬ IsOpening x) (get_info_inversion ctx r e) (λ n. n);
  words = λ ctx r w e. subst HasWords (get_info_inversion ctx r e) tt;
}

reset_inversion : (ctx : Context) (r : Request) → reset_command.action ctx ≡ requests r → reset ≡ r
unfolding reset_action with_client
reset_inversion ctx r e = ground arith

reset-Asks : Asks reset_command
reset-Asks = record {
  resets_only = λ ctx r e other. absurd (other refl);
  opens_only = λ ctx r e _. subst (λ x. ¬ IsOpening x) (reset_inversion ctx r e) (λ n. n);
  words = λ ctx r w e. subst HasWords (reset_inversion ctx r e) tt;
}

pub commands-Asks : (i : ℕ) (c : Command) → get_elem? commands i ≡ some c → Asks c
commands-Asks i c = get_elem-All Asks commands i c (
  reset-Asks,
  (
    get_info-Asks,
    (
      open_channel-Asks,
      (
        pay-Asks,
        (
          partner-Asks cooperative_close_channel_command.name cooperative_close_channel (λ a n. n)
              (λ a n. n) (λ a. tt),
          (
            partner-Asks initiate_channel_closing_command.name initiate_close_channel (λ a n. n)
                (λ a n. n) (λ a. tt),
            (
              partner-Asks finalize_channel_closing_command.name finalize_close_channel (λ a n. n)
                  (λ a n. n) (λ a. tt),
              (
                partner-Asks try_to_cheat_command.name try_to_cheat (λ a n. n) (λ a n. n) (λ a. tt),
                tt,
              ),
            ),
          ),
        ),
      ),
    ),
  ),
)
