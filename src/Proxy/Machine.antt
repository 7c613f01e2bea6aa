-- ===== src/Proxy/Machine.antt =====
-- A race as an abstract machine, which knows neither connections nor responses: the specification of
-- the race in src/rpc_proxy.c.
pub mod Handlers
pub mod Responses
pub mod Starts
pub mod Races
pub mod Refines
use rpcracer.Prelude.{
  ℕ, ◌+◌, ◌-◌, ◌≤◌, ◌<◌, suc, ◌≡◌, ◌⊎◌, inl, inr, refl, arith, Bool, true, is_some, length, ap,
  subst, [], if◌then◌else◌,
}
use rpcracer.Proxy.{Proxy, is_idle}

-- No race; a race without an answer that awaits k nodes, in which all of them must answer or not; a
-- broadcast that is answered and still awaits k nodes.
pub data Phase : Type 0 where
  idle : Phase
  racing : Bool → ℕ → Phase
  answered : ℕ → Phase

-- The moves between two phases, with the number of responses that the client is sent.
abbrev pub Move : Phase → ℕ → Phase → Type 0
Move idle n idle = n ≡ 0
Move idle n (racing all j) = (n ≡ 0) × (0 < j)
Move idle n (answered j) = ⊥
Move (racing all k) n idle = n ≤ 1
Move (racing all k) n (racing all' j) = (n ≡ 0) × (all' ≡ all) × (0 < j) × ((k ≡ j) ⊎ (k ≡ suc j))
Move (racing all k) n (answered j) = (n ≤ 1) × (all ≡ true) × (0 < j) × (k ≡ suc j)
Move (answered k) n idle = n ≡ 0
Move (answered k) n (racing all j) = ⊥
Move (answered k) n (answered j) = (n ≡ 0) × (0 < j) × ((k ≡ j) ⊎ (k ≡ suc j))

-- 1 if a move starts a race.
abbrev pub starts : Phase → Phase → ℕ
starts idle (racing all k) = 1
starts _ _ = 0

-- Moves in sequence: the races that they start, and the responses that are sent.
pub data Trace (x : Phase) : ℕ → ℕ → Phase → Type 0 where
  here : Trace x 0 0 x
  next :
      (y z : Phase) (n : ℕ) {r s r' s' : ℕ}
      → Trace x r s y
      → Move y n z
      → r' ≡ r + starts y z
      → s' ≡ s + n
      → Trace x r' s' z

-- The response that a phase still owes the client.
abbrev pub owes : Phase → ℕ
owes idle = 0
owes (racing all k) = 1
owes (answered k) = 0

Move-owes : (y : Phase) (n : ℕ) (z : Phase) → Move y n z → owes z + n ≤ owes y + starts y z
Move-owes idle n idle m = omega arith
Move-owes idle n (racing all j) m = omega arith
Move-owes idle n (answered j) m = absurd m
Move-owes (racing all k) n idle m = omega arith
Move-owes (racing all k) n (racing all' j) m = ground arith
Move-owes (racing all k) n (answered j) m = ground arith
Move-owes (answered k) n idle m = omega arith
Move-owes (answered k) n (racing all j) m = absurd m
Move-owes (answered k) n (answered j) m = ground arith

-- However the machine moves, it sends no more responses than it owed at first and races it starts.
pub Trace-owes : {x : Phase} {r s : ℕ} {z : Phase} → Trace x r s z → s + owes z ≤ r + owes x
Trace-owes here = omega arith
Trace-owes (next y z n t m e f) = omega (arith, Trace-owes t, Move-owes y n z m)

-- The phase of the proxy.
abbrev pub phase : Proxy → Phase
phase p =
    if is_idle p.state
    then idle
    else (if is_some p.winner_idx
        then answered p.responses_pending
        else racing p.all_must_complete p.responses_pending)

-- The responses that went to the client between two states of the proxy.
abbrev pub sent : Proxy → Proxy → ℕ
sent p q = length q.client_out - length p.client_out

-- One move of the machine takes the first state to the second.
abbrev pub Moves : Proxy → Proxy → Type 0
Moves p q = (length p.client_out ≤ length q.client_out) × Move (phase p) (sent p q) (phase q)

-- A trace of a proxy that was idle and had sent nothing.
pub Trace-idle :
    {r : ℕ} (p q : Proxy)
    → is_idle p.state ≡ true
    → p.client_out ≡ []
    → Trace (phase p) r (sent p q) (phase q)
    → Trace idle r (length q.client_out) (phase q)
Trace-idle {r} p q at_rest nothing_sent t =
    let starts_idle : phase p ≡ idle = ground arith in
    let all_sent : sent p q ≡ length q.client_out = omega (arith, ap length nothing_sent) in
    subst (λ s. Trace idle r s (phase q)) all_sent
      (subst (λ x. Trace x r (sent p q) (phase q)) starts_idle t)
