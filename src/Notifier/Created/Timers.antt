-- ===== src/Notifier/Created/Timers.antt =====
-- The timer that notifier_create of src/notifier.c leaves in the event loop.
use rpcracer.Prelude.{
  arith, ℕ, ◌+◌, ◌≡◌, refl, ap, ◌∙◌, Bool, true, false, not, ◌||◌, Option, length, ltb, none, some,
  List, [], ◌∷◌, ◌++◌, ◌==◌, if◌then◌else◌, if_rule, option_rule,
}
use rpcracer.EventLoop.{Loop, epoll_in, add_fd}
use rpcracer.EventLoop.Timers.{
  add_timer, event_loop_destroy, of_timer, destroy-add_timer, destroy-add_fd,
}
use rpcracer.Config.{NodeConfig, Config}
use rpcracer.Notifier.Created.{
  CreateEnv, Building, open_sub, open_subs, open_pub, fd_resource, is_first, descriptors,
}

-- The sockets of the nodes are no timers.
abbrev pub SameTimers : Loop → Building → Type 0
SameTimers l b = event_loop_destroy b.loop.fd_map ≡ event_loop_destroy l.fd_map

open_sub-SameTimers :
    (env : CreateEnv) (i : ℕ) (l : Loop) (b : Building)
    → SameTimers l b
    → SameTimers l (open_sub env i b).0
unfolding open_sub
open_sub-SameTimers env i l b h =
    let a = env.subs i in
    let P : Building × Bool → Type 0 = λ r. SameTimers l r.0 in
    if_rule P a.socket _ _
      (λ _.
        if_rule P (not a.subscribed || not a.connected) _ _ (λ _. h)
          (λ _.
            option_rule P a.fd _ _ (λ _. h)
              (λ fd _.
                let r =
                  if is_first b.subs
                  then add_fd env.kernel b.loop (some fd) epoll_in env.zmq_cb
                  else (b.loop, true) in
                if_rule P r.1 _ _
                  (λ _.
                    if_rule
                      (λ (q : Loop × Bool).
                        event_loop_destroy q.0.fd_map ≡ event_loop_destroy l.fd_map)
                      (is_first b.subs) _ _
                      (λ _. destroy-add_fd env.kernel b.loop (some fd) epoll_in env.zmq_cb ∙ h)
                      (λ _. h))
                  (λ _. h))))
      (λ _. h)

pub open_subs-SameTimers :
    (env : CreateEnv) (i : ℕ) (cs : List NodeConfig) (l : Loop) (b : Building)
    → SameTimers l b
    → SameTimers l (open_subs env i cs b).0
unfolding open_subs
open_subs-SameTimers env i [] l b h = h
open_subs-SameTimers env i (c ∷ cs) l b h =
    let P : Building × Bool → Type 0 = λ r. SameTimers l r.0 in
    let r = if c.zmq_port == 0 then (b, true) else open_sub env i b in
    let one : P r =
      if_rule P (c.zmq_port == 0) (b, true) (open_sub env i b) (λ _. h)
        (λ _. open_sub-SameTimers env i l b h) in
    if_rule P r.1 (open_subs env (i + 1) cs r.0) (r.0, false)
      (λ _. open_subs-SameTimers env (i + 1) cs l r.0 one) (λ _. one)

pub open_pub-SameTimers :
    (env : CreateEnv) (cfg : Config) (l : Loop) (b : Building)
    → SameTimers l b
    → SameTimers l (open_pub env cfg b).0
unfolding open_pub
open_pub-SameTimers env cfg l b h = grind arith

descriptors-of_timer :
    (o : Option ℕ) (rest : List ℕ)
    → descriptors (of_timer o ++ rest) ≡ fd_resource o ++ descriptors rest
descriptors-of_timer none rest = refl
descriptors-of_timer (some fd) rest = refl

-- The loop and the descriptor that the silence timer leaves.
abbrev pub silence_timer : CreateEnv → Building → Loop × Option ℕ
silence_timer env b =
    if ltb 1 (length b.subs)
    then add_timer env.kernel env.timer env.settime 10000 env.silence_cb b.loop
    else (b.loop, none)

pub silence_timer_lem :
    (env : CreateEnv) (b : Building)
    → let (l, timer) = silence_timer env b in
      descriptors (event_loop_destroy l.fd_map)
      ≡ fd_resource timer ++ descriptors (event_loop_destroy b.loop.fd_map)
silence_timer_lem env b =
    let P : Loop × Option ℕ → Type 0 = λ r.
      descriptors (event_loop_destroy r.0.fd_map)
      ≡ fd_resource r.1 ++ descriptors (event_loop_destroy b.loop.fd_map) in
    let r = add_timer env.kernel env.timer env.settime 10000 env.silence_cb b.loop in
    if_rule P (ltb 1 (length b.subs)) r (b.loop, none)
      (λ _.
        ap descriptors
          (destroy-add_timer env.kernel env.timer env.settime 10000 env.silence_cb b.loop)
        ∙ descriptors-of_timer r.1 (event_loop_destroy b.loop.fd_map))
      (λ _. refl)
