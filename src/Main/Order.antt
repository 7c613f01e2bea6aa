-- ===== src/Main/Order.antt =====
-- The life of the parts of the program under src/main.c.
use rpcracer.Prelude.{Bool, true, false, not, ◌&&◌, ◌||◌, List, [], ◌∷◌, if◌then◌else◌}
use rpcracer.Main.{
  Part, config, event_loop, proxy, notifier, stats, http_server, watchdog, Step, made, destroyed,
  wired, ran,
}

abbrev same : Part → Part → Bool
same config config = true
same event_loop event_loop = true
same proxy proxy = true
same notifier notifier = true
same stats stats = true
same http_server http_server = true
same watchdog watchdog = true
same _ _ = false

abbrev is_in : Part → List Part → Bool
is_in p [] = false
is_in p (q ∷ qs) = same p q || is_in p qs

abbrev all_in : List Part → List Part → Bool
all_in [] live = true
all_in (p ∷ ps) live = is_in p live && all_in ps live

abbrev without : Part → List Part → List Part
without p [] = []
without p (q ∷ qs) = if same p q then qs else q ∷ without p qs

-- What a part's constructor is given.
abbrev pub needs : Part → List Part
needs proxy = event_loop ∷ config ∷ []
needs notifier = event_loop ∷ config ∷ proxy ∷ []
needs http_server = event_loop ∷ config ∷ notifier ∷ stats ∷ proxy ∷ []
needs watchdog = event_loop ∷ []
needs _ = []

-- No live part was given this one.
abbrev is_free : Part → List Part → Bool
is_free p [] = true
is_free p (q ∷ qs) = not (is_in p (needs q)) && is_free p qs

-- A part is made only when what it needs is live, and destroyed only when it is live and no part
-- whose constructor was given it is; the loop runs, and parts are wired, only when these parts are
-- live.
pub is_safe : List Part → List Step → Bool
is_safe live [] = true
is_safe live (made p ∷ ss) = (all_in (needs p) live && not (is_in p live)) && is_safe (p ∷ live) ss
is_safe live (destroyed p ∷ ss) =
    (is_in p live && is_free p (without p live)) && is_safe (without p live) ss
is_safe live (wired ∷ ss) = all_in (proxy ∷ notifier ∷ stats ∷ []) live && is_safe live ss
is_safe live (ran ∷ ss) =
    all_in (config ∷ event_loop ∷ proxy ∷ notifier ∷ stats ∷ http_server ∷ []) live
    && is_safe live ss

-- The parts that are still live at the end.
pub left : List Part → List Step → List Part
left live [] = live
left live (made p ∷ ss) = left (p ∷ live) ss
left live (destroyed p ∷ ss) = left (without p live) ss
left live (wired ∷ ss) = left live ss
left live (ran ∷ ss) = left live ss
