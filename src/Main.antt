-- ===== src/Main.antt =====
-- main() of src/main.c: the order in which the parts are made and destroyed, on every branch.
--
-- The functions that make the parts stand in their own modules; here each is whether it gives one.
pub mod Order
pub mod Notification
pub mod World
pub mod Start
use rpcracer.Prelude.{Bool, true, false, List, [], ◌∷◌, ◌++◌, if◌then◌else◌}

pub data Part : Type 0 where
  config event_loop proxy notifier stats http_server watchdog : Part

-- `wired` is rpc_proxy_set_stats, notifier_set_stats and notifier_set_proxy; `ran` is
-- event_loop_run.
pub data Step : Type 0 where
  made destroyed : Part → Step
  wired ran : Step

-- The tail of main() from each part on, with whether that part and the later ones are made.
abbrev pub shutdown : List Step
shutdown =
    destroyed watchdog
    ∷ destroyed http_server
    ∷ destroyed notifier
    ∷ destroyed proxy
    ∷ destroyed stats
    ∷ destroyed event_loop
    ∷ destroyed config
    ∷ []

abbrev undo_proxy : List Step
undo_proxy = destroyed proxy ∷ destroyed event_loop ∷ destroyed config ∷ []

unfoldable pub from_http : Bool → List Step
from_http true = made http_server ∷ made watchdog ∷ ran ∷ shutdown
from_http false = destroyed notifier ∷ undo_proxy

unfoldable pub from_stats : Bool → Bool → List Step
unfolding from_http
from_stats true http = made stats ∷ wired ∷ from_http http
from_stats false http = destroyed notifier ∷ undo_proxy

unfoldable pub from_notifier : Bool → Bool → Bool → List Step
unfolding from_stats
from_notifier true st http = made notifier ∷ from_stats st http
from_notifier false st http = undo_proxy

unfoldable pub from_proxy : Bool → Bool → Bool → Bool → List Step
unfolding from_notifier
from_proxy true n st http = made proxy ∷ from_notifier n st http
from_proxy false n st http = destroyed event_loop ∷ destroyed config ∷ []

unfoldable pub from_loop : Bool → Bool → Bool → Bool → Bool → List Step
unfolding from_proxy
from_loop true p n st http = made event_loop ∷ from_proxy p n st http
from_loop false p n st http = destroyed config ∷ []

unfoldable pub main : Bool → Bool → Bool → Bool → Bool → Bool → List Step
unfolding from_loop
main true l p n st http = made config ∷ from_loop l p n st http
main false l p n st http = []
