-- ===== src/Tests/LawTests.antt =====
-- The counters, the hexadecimal text, the height and the fallback.
use rpcracer.Prelude.{◌≡◌, refl, arith, some, [], ◌∷◌, ◌≤ℤ◌}
use rpcracer.Stats.{stats_create}
use rpcracer.Stats.Laws.{
  IsConsistent, apply, apply-IsConsistent, stats_create-IsConsistent, race_win,
}
use rpcracer.Util.{hex_encode, hex_decode}
use rpcracer.Util.Hex.{hex_decode-encode}
use rpcracer.Proxy.{race_complete, close_client}
use rpcracer.Proxy.System.{run}
use rpcracer.Proxy.Heights.{height-run}
use rpcracer.Proxy.Race.{race_timeout}
use rpcracer.Proxy.Fallback.{race_timeout_never_falls_back}
use rpcracer.Tests.Data.{test_json, env, kernel, racing}
use rpcracer.Tests.ProxyTests.{history, racing-IsRacing}

apply-IsConsistent_example : IsConsistent (apply (race_win (some 1)) (stats_create 2 100))
apply-IsConsistent_example =
    apply-IsConsistent (race_win (some 1)) (stats_create 2 100)
      (stats_create-IsConsistent 2 100 (omega arith))

hex_decode-encode_example : hex_decode (hex_encode (0 ∷ 255 ∷ [])) ≡ some (0 ∷ 255 ∷ [])
hex_decode-encode_example = hex_decode-encode (0 ∷ 255 ∷ []) (λ e. cc) (ground arith)

height-run_example : racing.last_block_height ≤ℤ (run test_json history racing).last_block_height
height-run_example = height-run test_json history racing

race_timeout_never_falls_back_example :
    race_timeout env racing
    ≡ race_complete kernel (close_client (record racing { responses_pending = 0 }))
race_timeout_never_falls_back_example =
    race_timeout_never_falls_back env racing racing-IsRacing refl
