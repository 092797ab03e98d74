-- ===== src/Handlers/Resume/Rollback.antt =====
-- What a failure leaves behind after Cloud has made the transition.
use browseterm_server_local.Prelude.{◌<>◌, ◌≡◌, refl, true, none, some, ◌∷◌, sym, ◌∙◌}
use browseterm_server_local.Python.Value.{Value, str, dict, end, truthy, format}
use browseterm_server_local.Python.Error.{Error, http_exception, Reply, returned, raised}
use browseterm_server_local.World.Messages.{post_method, HttpRequest}
use browseterm_server_local.World.Events.{Env, Log, http}
use browseterm_server_local.World.Action
use browseterm_server_local.World.Action.{
  World, Outcome, ok, err, hanging, ◌>>=◌, ◌>>◌, try_except, when◌then◌else◌, pure, text_of,
}
use browseterm_server_local.Cloud.Client
use browseterm_server_local.Cloud.Client.{answer, http_request}
use browseterm_server_local.Web.{json_response, error_content}
use browseterm_server_local.Handlers.Resume
use browseterm_server_local.Handlers.Resume.{Progress}
use mathlib.Core.Path.{subst}

-- The rollback at Cloud.
abbrev pub rollback : Env → Value → Log → Log
rollback e c l =
    http (
      http_request e.config post_method
        ("/internal/containers/" <> format e.texts.repr c <> "/hibernate") (some (dict end)) none)
    ∷ l

-- The log after the handler of a failure with `x`.
abbrev pub after_failure : Env → Value → Error → Log → Log
after_failure e c (http_exception code detail) l = l
after_failure e c x l = rollback e c l

module _ (e : Env) (c u : Value) where
  abbrev done : Progress
  done = record { container_id = c; user_id = u; resumed = true }

  -- The rollback is one request, whatever Cloud answers.
  hibernate_container_lem :
      (w : World)
      → (try_except (Client.hibernate_container c) (λ x. pure tt) e w).1.log ≡ rollback e c w.log
  unfolding Client.hibernate_container Client.request ◌>>=◌ try_except Action.format_value
  hibernate_container_lem w = by_answer (answer (e.on_http w.log request))
    where
      request : HttpRequest
      request =
          http_request e.config post_method
            ("/internal/containers/" <> format e.texts.repr c <> "/hibernate") (some (dict end))
            none

      asked : World
      asked = record w { log = http request ∷ w.log }

      by_answer :
          (a : Reply Value)
          → (Action.handle
              (Action.continue (Action.of_reply a) (λ v. pure tt) e asked).0
              (λ x. pure tt)
              e
              (Action.continue (Action.of_reply a) (λ v. pure tt) e asked).1).1.log
            ≡ rollback e c w.log
      by_answer (returned v) = refl
      by_answer (raised x) = refl

  undo_lem : (w : World) → truthy c ≡ true → (Resume.undo done e w).1.log ≡ rollback e c w.log
  unfolding Resume.undo when◌then◌else◌
  undo_lem w is_id = rw is_id (hibernate_container_lem w)

  -- What follows the rollback makes no call.
  text_lem :
      (x : Error) (m : Action.Action (Unit {0})) (w : World)
      → ((do
        m
        t ← text_of x
        pure (json_response (error_content (str ("Error resuming container: " <> t))) 500))
          e w).1.log
        ≡ (m e w).1.log
  unfolding ◌>>=◌ text_of
  text_lem x m w = by_outcome (m e w).0
    where
      by_outcome :
          (o : Outcome Unit)
          → (Action.continue o
              (λ _. text_of x >>= λ t.
                pure (json_response (error_content (str ("Error resuming container: " <> t))) 500))
              e
              (m e w).1).1.log
            ≡ (m e w).1.log
      by_outcome (ok a) = refl
      by_outcome (err y) = refl
      by_outcome hanging = refl

  recover_lem :
      (x : Error) (w : World)
      → truthy c ≡ true
      → (Resume.recover done x e w).1.log ≡ after_failure e c x w.log
  unfolding Resume.recover pure
  recover_lem (http_exception code detail) w is_id = refl
  recover_lem x w is_id = text_lem x (Resume.undo done) w ∙ undo_lem w is_id

  -- When starting the pod fails after Cloud has made the transition, the transition is rolled back
  -- at Cloud, by one request that hibernates the container, unless the failure is an
  -- `HTTPException`: then nothing more is called.
  pub after_transition_failure :
      (row : Value) (x : Error) (w : World)
      → truthy c ≡ true
      → (Resume.start_resumed row c u e w).0 ≡ err x
      → (Resume.after_transition row c u Resume.made e w).1.log
        ≡ after_failure e c x (Resume.start_resumed row c u e w).1.log
  unfolding Resume.after_transition try_except
  after_transition_failure row x w is_id failed =
      subst
        (λ o.
          (Action.handle o (Resume.recover done) e (Resume.start_resumed row c u e w).1).1.log
          ≡ after_failure e c x (Resume.start_resumed row c u e w).1.log)
        (sym failed) (recover_lem x (Resume.start_resumed row c u e w).1 is_id)
