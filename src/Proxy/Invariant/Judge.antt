-- ===== src/Proxy/Invariant/Judge.antt =====
-- What a response does to the fields of a race, before the race is settled.
use rpcracer.Prelude.{ℕ, ◌<◌, ◌≡◌, ◌⊎◌, arith, true, false, none}
use rpcracer.EventLoop.{Slot}
use rpcracer.Framing.{str_eq}
use rpcracer.Conn.{Conn}
use rpcracer.Proxy.{Proxy, Env, is_idle}
use rpcracer.Proxy.Response.{Json}
use rpcracer.Proxy.Request.{method_gbt}
use rpcracer.Proxy.Race.{judge_response}
use rpcracer.Proxy.View.{RaceView, view}
use rpcracer.Proxy.Verdict.{judge_rule}

-- The race fields while a race runs.
pub record IsRacing (v : RaceView) : Type 0 where
  pub waiting : is_idle v.state ≡ false → 0 < v.responses_pending
  pub undecided : is_idle v.state ≡ false → v.all_must_complete ≡ false → v.winner_idx ≡ none
  pub no_best : is_idle v.state ≡ false → v.best_gbt_node_idx ≡ none
  pub unmatched : is_idle v.state ≡ false → v.gbt_height_matched ≡ false
  pub broadcast :
      is_idle v.state ≡ false → v.all_must_complete ≡ true → str_eq v.method method_gbt ≡ false

-- Between the verdict on a response and the end of its handler: a race that need not wait for all
-- nodes and has no winner has no candidate either.
pub record IsJudged (v : RaceView) : Type 0 where
  pub no_best :
      is_idle v.state ≡ false
      → (v.all_must_complete ≡ true) ⊎ (v.winner_idx ≡ none)
      → v.best_gbt_node_idx ≡ none
  pub unmatched :
      is_idle v.state ≡ false
      → (v.all_must_complete ≡ true) ⊎ (v.winner_idx ≡ none)
      → v.gbt_height_matched ≡ false
  pub broadcast :
      is_idle v.state ≡ false → v.all_must_complete ≡ true → str_eq v.method method_gbt ≡ false

module _ {V : Type 0} (json : Json V) (env : Env) where
  pub judge-IsJudged :
      (i : ℕ) (s : Slot) (c : Conn) (p : Proxy)
      → IsRacing (view p)
      → IsJudged (view (judge_response json env i s c p))
  judge-IsJudged i s c p v =
      judge_rule json env (λ q. IsJudged (view q)) i s c p (λ _ fails. ground arith)
        (λ _ _ _ _ _ _ _ _ sends raised wins. ground arith) (λ _ _ _ late keeps. ground arith)
