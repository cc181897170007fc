-- ===== src/Cli/Serving/Effects.antt =====
-- What a command does to the node that serves it.
use algorand_state_channels.Base.{
  ℕ, ◌≡◌, ◌≢◌, ◌⊎◌, inl, inr, refl, sym, Bytes, bytes_has_eq, codes, some, get_elem?, arith,
}
use algorand_state_channels.Base.Word.{IsWord}
use algorand_state_channels.Server.State.{Server, World}
use algorand_state_channels.Server.Action.{Result}
use algorand_state_channels.Server.Invariant.{IsWellFormed}
use algorand_state_channels.Server.Reach.{
  resets, pays, closes, initiates_close, finalizes_close, cheats, Step-IsWellFormed,
}
use algorand_state_channels.Server.Start as Start
use algorand_state_channels.Server.Rpc as Rpc
use algorand_state_channels.Server.Steps.{responds}
use algorand_state_channels.Cli.{
  Context, Request, reset, get_info, open_channel, pay, cooperative_close_channel,
  initiate_close_channel, finalize_close_channel, try_to_cheat, Outcome, exit_error, requests,
  Command,
}
use algorand_state_channels.Cli.Commands.{commands}
use mathlib.Core.Path.{subst}
use algorand_state_channels.Cli.Serving.{Response, nothing, serve, exit_code, run}
use algorand_state_channels.Cli.Serving.Asks.{IsOpening, IsReset, HasWords, commands-Asks}

Outcome-cases :
    (o : Outcome) → ((e : Bytes) × (o ≡ exit_error e)) ⊎ ((r : Request) × (o ≡ requests r))
Outcome-cases (exit_error e) = inl (e, refl)
Outcome-cases (requests r) = inr (r, refl)

serve_atomic :
    (w : World) (r : Request) (s s' : Server) (response : Result Response)
    → ¬ IsReset r
    → ¬ IsOpening r
    → serve w r s ≡ (response, s')
    → exit_code response ≡ 1
    → s' ≡ s
unfolding serve Rpc.get_info Rpc.pay Rpc.find_channel Rpc.find_latest Rpc.exchange_payment
    Rpc.send_request Rpc.initiate_close Rpc.submit_closing Rpc.finalize_close Rpc.cooperative_close
    Rpc.try_to_cheat
serve_atomic w reset s s' response not_reset not_opening e failed = absurd (not_reset tt)
serve_atomic w get_info s s' response not_reset not_opening e failed = ground arith
serve_atomic w (open_channel _ _ _ _ _) s s' response not_reset not_opening e failed =
    absurd (not_opening tt)
serve_atomic w (pay address amount) s s' response not_reset not_opening e failed = ground arith
serve_atomic w (cooperative_close_channel address) s s' response not_reset not_opening e failed =
    ground arith
serve_atomic w (initiate_close_channel address) s s' response not_reset not_opening e failed =
    ground arith
serve_atomic w (finalize_close_channel address) s s' response not_reset not_opening e failed =
    ground arith
serve_atomic w (try_to_cheat address) s s' response not_reset not_opening e failed = ground arith

serve-IsWellFormed :
    (w : World) (r : Request) (s : Server)
    → IsWord w.now
    → ¬ IsOpening r
    → HasWords r
    → IsWellFormed s
    → IsWellFormed (serve w r s).1
unfolding serve Rpc.get_info
serve-IsWellFormed w reset s now not_opening words h =
    subst IsWellFormed (sym (responds (Start.reset w) (λ _. nothing) s))
      (Step-IsWellFormed (resets w s) h)
serve-IsWellFormed w get_info s now not_opening words h = subst IsWellFormed (ground arith) h
serve-IsWellFormed w (open_channel _ _ _ _ _) s now not_opening words h = absurd (not_opening tt)
serve-IsWellFormed w (pay address amount) s now not_opening words h =
    subst IsWellFormed (sym (responds (Rpc.pay w address amount) (λ _. nothing) s))
      (Step-IsWellFormed (pays w address amount s (now, words)) h)
serve-IsWellFormed w (cooperative_close_channel address) s now not_opening words h =
    subst IsWellFormed (sym (responds (Rpc.cooperative_close w address) (λ _. nothing) s))
      (Step-IsWellFormed (closes w address s) h)
serve-IsWellFormed w (initiate_close_channel address) s now not_opening words h =
    subst IsWellFormed (sym (responds (Rpc.initiate_close address) (λ _. nothing) s))
      (Step-IsWellFormed (initiates_close address s) h)
serve-IsWellFormed w (finalize_close_channel address) s now not_opening words h =
    subst IsWellFormed (sym (responds (Rpc.finalize_close address) (λ _. nothing) s))
      (Step-IsWellFormed (finalizes_close address s) h)
serve-IsWellFormed w (try_to_cheat address) s now not_opening words h =
    subst IsWellFormed (sym (responds (Rpc.try_to_cheat address) (λ _. nothing) s))
      (Step-IsWellFormed (cheats address s) h)

-- A command of the table other than reset and openchannel that ends with exit code 1 has changed
-- nothing in the node that serves it.
pub run_atomic :
    (w : World) (i : ℕ) (c : Command) (ctx : Context) (s : Server)
    → get_elem? commands i ≡ some c
    → c.name ≢ codes "reset"
    → c.name ≢ codes "openchannel"
    → (run w c ctx s).0 ≡ 1
    → (run w c ctx s).1 ≡ s
unfolding run
run_atomic w i c ctx s e not_reset not_opening failed = elim (Outcome-cases (c.action ctx)) [
  | inl (text, refused) ↦ ground arith
  | inr (r, asked) ↦
      let asks = commands-Asks i c e in
      let same : (serve w r s).1 ≡ s =
        serve_atomic w r s (serve w r s).1 (serve w r s).0 (asks.resets_only ctx r asked not_reset)
          (asks.opens_only ctx r asked not_opening) refl (ground arith) in
      ground arith
]

-- If the clock and the flags read as uint64 are uint64, every command of the table but openchannel
-- keeps the channels and logs of the node that serves it well-formed, whatever the command line.
pub run-IsWellFormed :
    (w : World) (i : ℕ) (c : Command) (ctx : Context) (s : Server)
    → get_elem? commands i ≡ some c
    → c.name ≢ codes "openchannel"
    → IsWord w.now
    → ((flag : Bytes) → IsWord (ctx.uint64_flag flag))
    → IsWellFormed s
    → IsWellFormed (run w c ctx s).1
unfolding run
run-IsWellFormed w i c ctx s e not_opening now words h = elim (Outcome-cases (c.action ctx)) [
  | inl (text, refused) ↦ subst IsWellFormed (ground arith) h
  | inr (r, asked) ↦
      let asks = commands-Asks i c e in
      let kept : IsWellFormed (serve w r s).1 =
        serve-IsWellFormed w r s now (asks.opens_only ctx r asked not_opening)
          (asks.words ctx r words asked) h in
      subst IsWellFormed (ground arith) kept
]
