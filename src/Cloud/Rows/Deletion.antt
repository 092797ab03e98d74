-- ===== src/Cloud/Rows/Deletion.antt =====
-- Deleting a row is one request.
use browseterm_server_local.Prelude.{String, ◌<>◌, ◌≡◌, ap, Bool, true, false, none, some, ◌∷◌}
use browseterm_server_local.Python.Value.{Value, str, dict}
use browseterm_server_local.Python.Error.{Reply, returned, raised}
use browseterm_server_local.World.Messages.{post_method, HttpRequest}
use browseterm_server_local.World.Events.{Env, Log, http}
use browseterm_server_local.World.Action
use browseterm_server_local.World.Action.{World, Action, ◌>>=◌, ◌>>◌, perform, lift, format_value}
use browseterm_server_local.World.Rules.{Keeps, Keeps-pure, Keeps-raise}
use browseterm_server_local.World.Trace.{Post, Runs, Runs-bind, Runs-keeps, Runs-try_except}
use browseterm_server_local.World.Halts.{Halts, halts_rules}
use browseterm_server_local.Cloud.Client
use browseterm_server_local.Cloud.Client.{answer, http_request, user_fields}
use browseterm_server_local.Cloud.Client.Calls as ClientCalls
use browseterm_server_local.Cloud.Rows
use browseterm_server_local.Cloud.Rows.Calls
use browseterm_server_local.Cloud.Rows.Ends.{
  Halts-request, Halts-on_not_found, Halts-database_failed,
}

-- The request that deletes the user's row of the container.
abbrev pub deletion : Env → (c u : String) → HttpRequest
deletion e c u =
    http_request e.config post_method ("/containers/" <> c <> "/delete")
      (some (dict (user_fields (str u)))) none

module _ (e : Env) (c u : String) (l : Log) where
  abbrev pub Before : World → Type 0
  Before w = w.log ≡ l

  abbrev pub After : World → Type 0
  After w = w.log ≡ http (deletion e c u) ∷ l

  Runs-request :
      Runs e Before
        (Client.request post_method
          ("/containers/" <> c <> "/delete")
          (some (dict (user_fields (str u))))
          none)
        (λ v w. After w)
        After
  unfolding Client.request ◌>>=◌ perform lift
  Runs-request = record {
    at = λ w before. by_answer (answer (e.on_http w.log (deletion e c u))) w before;
  }
    where
      by_answer :
          (r : Reply Value) (w : World)
          → Before w
          → Post
              (λ v w'. After w')
              After
              (Action.of_reply r)
              (record w { log = http (deletion e c u) ∷ w.log })
      by_answer (returned v) w before = ap (λ l'. http (deletion e c u) ∷ l') before
      by_answer (raised x) w before = ap (λ l'. http (deletion e c u) ∷ l') before

  Runs-asked :
      Runs e Before
        (do
          t ← format_value (str c)
          Client.request post_method
              ("/containers/" <> t <> "/delete")
              (some (dict (user_fields (str u))))
              none
          Action.pure true)
        (λ v w. After w)
        After
  unfolding format_value ◌>>=◌
  Runs-asked = record {
    at = (Runs-bind {Q = λ v w. After w} _ _ Runs-request (λ v. Runs-keeps _ (Keeps-pure true))).at;
  }

  pub Runs-delete_container : Runs e Before (Rows.delete_container c u) (λ v w. After w) After
  unfolding Rows.delete_container Client.delete_container Rows.check_deleted
  Runs-delete_container =
      Runs-try_except _ _
        (Runs-bind {Q = λ v w. After w} _ _
          (Runs-try_except _ _ Runs-asked
            (λ x. Runs-keeps _ (ClientCalls.Keeps-on_not_found e _ false x)))
          (λ deleted. Runs-keeps _ (check deleted)))
        (λ x. Runs-keeps _ (Calls.Keeps-database_failed e _ x))
    where
      check : (deleted : Bool) → Keeps e After (Rows.check_deleted c deleted)
      check true = Keeps-pure _
      check false = Keeps-raise _

pub Halts-delete_container : (e : Env) (c u : String) → Halts e (Rows.delete_container c u)
unfolding Rows.delete_container Client.delete_container Rows.check_deleted
Halts-delete_container e c u =
    search (halts_rules, Halts-request, Halts-on_not_found, Halts-database_failed, check) depth 20
  where
    check : (deleted : Bool) → Halts e (Rows.check_deleted c deleted)
    check true = search halts_rules
    check false = search halts_rules
