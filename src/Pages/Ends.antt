-- ===== src/Pages/Ends.antt =====
-- The terminal's page always has something to show.
use browseterm_server_local.Prelude.{String, ◌==◌, Bool, true, false}
use browseterm_server_local.Python.Value.{Value, str, truthy}
use browseterm_server_local.Python.Error.{Error, get_item}
use browseterm_server_local.World.Events.{Env}
use browseterm_server_local.World.Action.{World, lift, pure, when◌then◌else◌, text_of, ◌>>=◌}
use browseterm_server_local.World.Halts.{Halts, HasReturned, try_except-HasReturned, halts_rules}
use browseterm_server_local.Cloud.Rows.{get_container_by_id}
use browseterm_server_local.Cloud.Rows.Ends.{Halts-get_container_by_id}
use browseterm_server_local.Web.{State}
use browseterm_server_local.Pages

Halts-terminal_of : (e : Env) (v : Value) → Halts e (Pages.terminal_of v)
unfolding Pages.terminal_of
Halts-terminal_of e v = search halts_rules depth 40

terminal_failed-HasReturned :
    (e : Env) (id : String) (x : Error) (w : World) → HasReturned (Pages.terminal_failed id x e w).0
unfolding Pages.terminal_failed ◌>>=◌ text_of pure
terminal_failed-HasReturned e id x w = tt

loaded_terminal-HasReturned :
    (e : Env) (id : String) (st : State) (w : World)
    → HasReturned (Pages.loaded_terminal id st e w).0
unfolding Pages.loaded_terminal
loaded_terminal-HasReturned e id st w =
    try_except-HasReturned e _ _ w (body_ends.at w) (terminal_failed-HasReturned e id)
  where
    body_ends : Halts e (do
      user_id ← lift (get_item st.user_info "id")
      row ← get_container_by_id (str id) user_id
      (when truthy row
          then Pages.terminal_of row
          else pure (
              Pages.terminal_problem id "Not Found" "Terminal not found or you don't have access")))
    body_ends = search (halts_rules, Halts-get_container_by_id, Halts-terminal_of) depth 20

-- Whatever the session, the id and Cloud's answer are, `terminalpage` comes to a terminal's info: no
-- exception of the lookup or of the row's reading gets past it.
pub terminal_info-HasReturned :
    (e : Env) (id : String) (st : State) (w : World) → HasReturned (Pages.terminal_info id st e w).0
unfolding Pages.terminal_info when◌then◌else◌ pure
terminal_info-HasReturned e id st w = by_id (id == "")
  where
    by_id :
        (b : Bool)
        → HasReturned
            ((when b
                then pure (Pages.terminal_problem "" "Error" "No terminal ID provided")
                else Pages.loaded_terminal id st)
              e w).0
    by_id true = tt
    by_id false = loaded_terminal-HasReturned e id st w
