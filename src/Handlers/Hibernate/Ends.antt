-- ===== src/Handlers/Hibernate/Ends.antt =====
-- The wait for the save ends, and so does the route.
use browseterm_server_local.Prelude.{
  ℕ, zero, suc, ◌+◌, ◌*◌, ◌≤◌, ltb, ◌≡◌, refl, String, Bool, true, false, ◌∷◌, arith,
}
use browseterm_server_local.Python.Value.{Value, null, truthy}
use browseterm_server_local.Python.Error.{Error, http_exception, get_item}
use browseterm_server_local.World.Events.{Env, Log, Event, sleep}
use browseterm_server_local.World.Action
use browseterm_server_local.World.Action.{
  World, lift, text_of, pure, asks, when◌then◌else◌, ◌>>=◌, ◌>>◌,
}
use browseterm_server_local.World.Rules.{Keeps, OnLog, Keeps-bind, Keeps-lift}
use browseterm_server_local.World.Halts.{
  Halts, HasEnded, HasReturned, try_except-HasReturned, halts_rules, >>=-HasEnded,
}
use browseterm_server_local.Cloud.Rows.Calls as CloudCalls
use browseterm_server_local.Cloud.Rows.Ends.{Halts-get_container_by_id, Halts-hibernate_container}
use browseterm_server_local.Containers.Service.Pods.Ends.{
  Halts-delete_container_in_k8s, Halts-save_container_in_k8s,
}
use browseterm_server_local.Web
use browseterm_server_local.Web.{Request, State, error_response}
use browseterm_server_local.Auth.Session.{cookie}
use browseterm_server_local.Auth.Session.Admission.{validation}
use browseterm_server_local.Auth.Session.Ends.{IsValidationAnswer, authenticate_session-HasReturned}
use browseterm_server_local.Cloud.Client.{answer}
use browseterm_server_local.Handlers.Pods
use browseterm_server_local.Handlers.Save.Ends.{Halts-set_save_status, Halts-save_request}
use browseterm_server_local.Handlers.Hibernate

-- `time.monotonic()` never goes back, and `time.sleep(n)` takes `n` or longer.
pub record IsMonotonic (e : Env) : Type 0 where
  pub steady : (event : Event) (l : Log) → e.monotonic_time l ≤ e.monotonic_time (event ∷ l)
  pub sleeps : (n : ℕ) (l : Log) → e.monotonic_time l + n ≤ e.monotonic_time (sleep n ∷ l)

module _ (e : Env) (c u : Value) (clock : IsMonotonic e) where
  Halts-read_status : Halts e (Hibernate.read_status c u)
  unfolding Hibernate.read_status
  Halts-read_status = search (halts_rules, Halts-get_container_by_id)

  -- Time passes while the status is read.
  Keeps-read_status :
      (t : ℕ) → Keeps e (OnLog (λ l. t ≤ e.monotonic_time l)) (Hibernate.read_status c u)
  unfolding Hibernate.read_status
  Keeps-read_status t =
      Keeps-bind _ _
        (CloudCalls.Keeps-get_container_by_id e (λ l. t ≤ e.monotonic_time l) c u
          (λ m same l h. omega (arith, clock.steady _ l)))
        (λ row. Keeps-lift _)

  -- What the loop does with a status that was read.
  abbrev on_status : (fuel deadline : ℕ) → Value → Action.Action Value
  on_status fuel deadline status = do
    final ← asks (λ e'. Hibernate.is_final e'.statuses status)
    (when final then pure status else (do Hibernate.wait; Hibernate.poll fuel deadline c u status))

  -- Either the status ends the loop, or the next round begins an interval later.
  on_status-HasEnded :
      (fuel deadline : ℕ) (status : Value) (w : World)
      → ((w' : World)
          → e.monotonic_time w.log + Hibernate.save_poll_interval ≤ e.monotonic_time w'.log
          → HasEnded (Hibernate.poll fuel deadline c u status e w').0)
      → HasEnded (on_status fuel deadline status e w).0
  unfolding ◌>>=◌ when◌then◌else◌ Hibernate.wait
  on_status-HasEnded fuel deadline status w again = by_test (Hibernate.is_final e.statuses status)
    where
      by_test :
          (b : Bool)
          → HasEnded
              ((when b
                  then pure status
                  else (do Hibernate.wait; Hibernate.poll fuel deadline c u status))
                e w).0
      by_test true = tt
      by_test false =
          again (record w { log = sleep Hibernate.save_poll_interval ∷ w.log })
            (clock.sleeps Hibernate.save_poll_interval w.log)

  -- A round that begins at a time from which the rounds after it last to the deadline.
  poll-HasEnded :
      (fuel deadline : ℕ) (status : Value) (w : World)
      → deadline ≤ e.monotonic_time w.log + fuel * Hibernate.save_poll_interval
      → HasEnded (Hibernate.poll (suc fuel) deadline c u status e w).0
  unfolding Hibernate.poll Hibernate.now ◌>>=◌ when◌then◌else◌
  poll-HasEnded zero deadline status w enough = ground arith
  poll-HasEnded (suc fuel) deadline status w enough =
      by_time (poll-HasEnded fuel deadline) (ltb (e.monotonic_time w.log) deadline) refl
    where
      now_at : World
      now_at = record w { log = Hibernate.monotonic ∷ w.log }

      by_time :
          ((read : Value) (w' : World)
            → deadline ≤ e.monotonic_time w'.log + fuel * Hibernate.save_poll_interval
            → HasEnded (Hibernate.poll (suc fuel) deadline c u read e w').0)
          → (b : Bool) → ltb (e.monotonic_time w.log) deadline ≡ b
          → HasEnded
              ((when b
                  then (Hibernate.read_status c u >>= on_status (suc fuel) deadline)
                  else pure status)
                e now_at).0
      by_time again false after = tt
      by_time again true before =
          >>=-HasEnded e (Hibernate.read_status c u) (on_status (suc fuel) deadline) now_at
            (Halts-read_status.at now_at)
            (λ read same. on_status-HasEnded (suc fuel) deadline read _ (λ w' later. again read w' (
              let passed =
                (Keeps-read_status (e.monotonic_time w.log)).at now_at (clock.steady _ w.log) in
              omega arith)))

  -- The fuel is enough: one round for each of the hundred intervals of the wait, and the last one.
  await_save-HasEnded : (w : World) → HasEnded (Hibernate.await_save c u e w).0
  unfolding Hibernate.await_save Hibernate.now ◌>>=◌
  await_save-HasEnded w =
      poll-HasEnded 100 (e.monotonic_time w.log + Hibernate.save_wait_timeout) null
        (record w { log = Hibernate.monotonic ∷ w.log })
        (let passed = clock.steady Hibernate.monotonic w.log in omega arith)

  Halts-await_save : Halts e (Hibernate.await_save c u)
  Halts-await_save = record { at = await_save-HasEnded }

  Halts-trigger_save : (network : String) → Halts e (Hibernate.trigger_save c u network)
  unfolding Hibernate.trigger_save
  Halts-trigger_save network =
      search (halts_rules, Halts-set_save_status, Halts-save_request, Halts-save_container_in_k8s)
        depth 20

  Halts-put_to_sleep : (network : String) → Halts e (Hibernate.put_to_sleep c u network)
  unfolding Hibernate.put_to_sleep
  Halts-put_to_sleep network =
      search
        (
          halts_rules, Halts-delete_container_in_k8s, Halts-hibernate_container,
          Halts-get_container_by_id,
        )
        depth 20

  Halts-save_and_sleep : Halts e (Hibernate.save_and_sleep c u)
  unfolding Hibernate.save_and_sleep Pods.namespace_of Hibernate.not_saved
  Halts-save_and_sleep =
      search (halts_rules, Halts-trigger_save, Halts-await_save, Halts-put_to_sleep) depth 20

  Halts-hibernate_row : (row : Value) → Halts e (Hibernate.hibernate_row row c u)
  unfolding Hibernate.hibernate_row
  Halts-hibernate_row row = search (halts_rules, Halts-save_and_sleep) depth 20

error_response-HasReturned :
    (e : Env) (words : String) (x : Error) (w : World) → HasReturned (error_response words x e w).0
unfolding error_response ◌>>=◌ text_of
error_response-HasReturned e words (http_exception code detail) w = tt
error_response-HasReturned e words x w = tt

-- The route behind its decorator answers in every session.
hibernate-HasReturned :
    (e : Env) (request : Request) (st : State) (w : World)
    → IsMonotonic e
    → HasReturned (Hibernate.hibernate request st e w).0
unfolding Hibernate.hibernate Web.not_found
hibernate-HasReturned e request st w clock =
    try_except-HasReturned e _ _ w (body_ends.at w) (error_response-HasReturned e _)
  where
    row_ends : (row c u : Value) → Halts e (Hibernate.hibernate_row row c u)
    row_ends row c u = Halts-hibernate_row e c u clock row

    body_ends : Halts e (do
      body ← lift request.body
      container_id ← lift (get_item body "container_id")
      user_id ← lift (get_item st.user_info "id")
      row ← Hibernate.get_container_by_id container_id user_id
      (when truthy row
          then Hibernate.hibernate_row row container_id user_id
          else Web.not_found container_id))
    body_ends = search (halts_rules, Halts-get_container_by_id, row_ends) depth 20

-- On a clock that never goes back and runs at least as long as the server sleeps, and where Cloud
-- answers the validation of the request's session with an object whose "user_info", if it counts
-- as true, is an object, or with a failure that the client reports as a `CloudClientError`: the
-- route `hibernate_container`, with its decorator, answers. It neither raises nor runs out of its
-- loop's fuel, whatever Cloud answers to its other calls and whatever container-maker answers.
pub hibernate_container-HasReturned :
    (e : Env) (request : Request) (w : World)
    → IsMonotonic e
    → IsValidationAnswer (answer (e.on_http w.log (validation e (cookie "session" request))))
    → HasReturned (Hibernate.hibernate_container request e w).0
unfolding Hibernate.hibernate_container
hibernate_container-HasReturned e request w clock promised =
    authenticate_session-HasReturned e (Hibernate.hibernate request) request w
      (λ st w'. hibernate-HasReturned e request st w' clock) promised
