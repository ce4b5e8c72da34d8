-- ===== src/TokenRegistry/Calls.antt =====
-- The calls of a token registry after its construction, in their order. Reading calls change nothing.
use tyo_mq.Prelude.{ℕ, String, Option, List, [], ◌∷◌}
use tyo_mq.TokenRegistry.{TokenRegistry, Given, register, unregister, mark_ok}
use tyo_mq.TokenRegistry.Coalesce.{coalesce_ok, reset_coalesce}

pub data Call : Type 0 where
  register_call : String → String → Given → ℕ → Call
  unregister_call : String → String → Given → Call
  mark_ok_call : String → String → Given → Option ℕ → ℕ → Call
  coalesce_call : String → String → Option ℕ → Option ℕ → ℕ → Call
  reset_call : String → String → Call

unfoldable pub step : TokenRegistry → Call → TokenRegistry
step r (register_call realm identity ep clock) = (register r realm identity ep clock).0
step r (unregister_call realm identity ep) = (unregister r realm identity ep).0
step r (mark_ok_call realm identity ep now clock) = mark_ok r realm identity ep now clock
step r (coalesce_call realm identity now window clock) =
    (coalesce_ok r realm identity now window clock).0
step r (reset_call realm identity) = reset_coalesce r realm identity

unfoldable pub run : TokenRegistry → List Call → TokenRegistry
run r [] = r
run r (c ∷ cs) = run (step r c) cs
