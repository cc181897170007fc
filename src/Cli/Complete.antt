-- ===== src/Cli/Complete.antt =====
-- When a command makes its request.
use algorand_state_channels.Base.{
  ◌≡◌, ◌≢◌, ◌↔◌, bytes_eq_iff, bytes_has_eq, nat_has_eq, nat_eq_iff, codes, none, [], arith,
}
use algorand_state_channels.Cli.{Context, Request, open_channel, requests}
use algorand_state_channels.Cli.Commands.{with_client, open_channel_action}

-- All that openchannel asks for is given.
pub record IsComplete (ctx : Context) : Type 0 where
  pub no_args : ctx.narg ≡ 0
  pub connected : ctx.dial_error ≡ none
  pub has_ip : ctx.string_flag (codes "partner_ip") ≢ []
  pub has_address : ctx.string_flag (codes "partner_address") ≢ []
  pub has_funding : ctx.int64_flag (codes "funding_amount") ≢ 0
  pub has_penalty : ctx.int64_flag (codes "penalty_reserve") ≢ 0
  pub has_window : ctx.int64_flag (codes "dispute_window") ≢ 0

-- The request that openchannel makes, of unsigned readings of the amounts.
abbrev pub complete_request : Context → Request
complete_request ctx =
    open_channel (ctx.string_flag (codes "partner_ip")) (ctx.string_flag (codes "partner_address"))
      (ctx.uint64_flag (codes "funding_amount")) (ctx.uint64_flag (codes "penalty_reserve"))
      (ctx.uint64_flag (codes "dispute_window"))

-- openchannel makes a request exactly if there are no arguments, the client connects, the
-- partner's ip address and address are not empty and the three amounts are not 0 as int64; the
-- request carries these flags, the amounts as uint64.
pub open_channel_action_iff :
    (ctx : Context) (r : Request)
    → (open_channel_action ctx ≡ requests r) ↔ (IsComplete ctx × (complete_request ctx ≡ r))
unfolding open_channel_action with_client
open_channel_action_iff ctx r =
    let narg = nat_eq_iff ctx.narg 0 in
    let ip = bytes_eq_iff (ctx.string_flag (codes "partner_ip")) [] in
    let address = bytes_eq_iff (ctx.string_flag (codes "partner_address")) [] in
    let funding = nat_eq_iff (ctx.int64_flag (codes "funding_amount")) 0 in
    let penalty = nat_eq_iff (ctx.int64_flag (codes "penalty_reserve")) 0 in
    let window = nat_eq_iff (ctx.int64_flag (codes "dispute_window")) 0 in
    (
      λ h.
          let complete : IsComplete ctx = record {
            no_args = ground (arith, narg);
            connected = ground (arith, narg);
            has_ip = ground (arith, ip);
            has_address = ground (arith, address);
            has_funding = ground (arith, funding);
            has_penalty = ground (arith, penalty);
            has_window = ground (arith, window);
          } in
          (complete, ground (arith, complete.connected)),
      λ (c, e). ground (
        arith, narg, ip, address, funding, penalty, window, c.no_args, c.connected, c.has_ip,
        c.has_address, c.has_funding, c.has_penalty, c.has_window,
      ),
    )
