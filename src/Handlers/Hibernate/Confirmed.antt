-- ===== src/Handlers/Hibernate/Confirmed.antt =====
-- What a confirmed save is, and that waiting for one tells of success only when Cloud confirmed it.
use browseterm_server_local.Prelude.{
  ℕ, zero, suc, ◌+◌, String, ◌≡◌, refl, sym, ap, ◌∙◌, if◌then◌else◌, Bool, true, false, ◌∷◌, arith,
}
use browseterm_server_local.Python.Value.{Value, null, str, truthy}
use browseterm_server_local.Python.Error.{Reply, returned, raised, get}
use browseterm_server_local.World.Messages.{GrpcContainerKey}
use browseterm_server_local.World.Events.{
  Env, Log, Event, http, save_rpc, delete_rpc, monotonic, sleep,
}
use browseterm_server_local.World.Action
use browseterm_server_local.World.Action.{
  World, Action, ok, err, ◌>>=◌, lift, pure, perform, text_of, asks, raise, gets,
}
use browseterm_server_local.World.Rules.{OnLog}
use browseterm_server_local.World.Trace.{
  Since, more, Post, Runs, Runs-bind, Runs-weaken, Runs-when, Runs-bind_asks, Runs-strengthen,
}
use browseterm_server_local.Cloud.Client.{answer}
use browseterm_server_local.Ownership.{IsStrict, lookup_request, row_of}
use browseterm_server_local.Ownership.Lookup.{Answered, Runs-ask_again}
use browseterm_server_local.Handlers.Hibernate
use browseterm_server_local.Handlers.Hibernate.{is_text, status_of}
use mathlib.Core.Path.{subst}

-- The log is the log `base` with more calls.
pub data Grown (base : Log) : Log → Type 0 where
  same : Grown base base
  grown : {event : Event} {l : Log} → Grown base l → Grown base (event ∷ l)

-- Container-maker was asked since `base` to save the container.
pub data Triggered (c : String) (base : Log) : Log → Type 0 where
  triggered :
      {l : Log} (k : GrpcContainerKey) (id : String)
      → Grown base l
      → k.container_id ≡ c
      → Triggered c base (save_rpc k id ∷ l)
  later : {event : Event} {l : Log} → Triggered c base l → Triggered c base (event ∷ l)

-- Whether an answer holds a row with the status of a confirmed save.
abbrev pub tells_success : Env → Reply Value → Bool
tells_success e (returned row) = elim (status_of row) [
  | returned v ↦ is_text e.statuses.save_succeeded v
  | raised x ↦ false
]
tells_success e (raised x) = false

-- After that, Cloud has told of the container's row that the save succeeded.
pub data Confirmed (e : Env) (c u : String) (base : Log) : Log → Type 0 where
  told :
      {l : Log}
      → Triggered c base l
      → tells_success e (row_of (answer (e.on_http l (lookup_request e c u)))) ≡ true
      → Confirmed e c u base (http (lookup_request e c u) ∷ l)
  long_told : {event : Event} {l : Log} → Confirmed e c u base l → Confirmed e c u base (event ∷ l)

-- A call that deletes a pod stands after the confirmation.
abbrev pub DeletesSaved : Env → (c u : String) → Log → Event → Log → Type 0
DeletesSaved e c u base (delete_rpc k id) l = Confirmed e c u base l
DeletesSaved e c u base _ l = Unit

-- A status that is a text was read off a row.
truthy-status_of :
    (s : String) (row v : Value)
    → status_of row ≡ returned v
    → is_text s v ≡ true
    → truthy row ≡ true
unfolding status_of is_text
truthy-status_of s row v read is_s = by_truth (truthy row) read
  where
    by_truth :
        (b : Bool)
        → (if b then get row "save_status" null else returned null) ≡ returned v
        → b ≡ true
    by_truth true read' = refl
    by_truth false read' = ground arith

module _ (e : Env) (c u : String) (base : Log) (strict : IsStrict e.pydantic) where
  abbrev pub Begun : Log → Type 0
  Begun l = Grown base l × Since (DeletesSaved e c u base) base l

  abbrev pub Waiting : Log → Type 0
  Waiting l = Begun l × Triggered c base l

  abbrev pub Done : Log → Type 0
  Done l = Begun l × Confirmed e c u base l

  -- What a status that was read tells.
  abbrev pub Told : Value → World → Type 0
  Told v w =
      Waiting w.log × (is_text e.statuses.save_succeeded v ≡ true → Confirmed e c u base w.log)

  -- Any call but a deletion may be made while the save is waited for.
  Waiting-call :
      (event : Event) (l : Log) → DeletesSaved e c u base event l → Waiting l → Waiting (event ∷ l)
  Waiting-call event l allowed ((g, s), t) = ((grown g, more allowed s), later t)

  Told-call :
      (event : Event) (v : Value) (w : World)
      → DeletesSaved e c u base event w.log
      → Told v w
      → Told v (record w { log = event ∷ w.log })
  Told-call event v w allowed (waits, tells) =
      (Waiting-call event w.log allowed waits, λ ok. long_told (tells ok))

  status_lem :
      (row : Value) (l : Log) (w : World)
      → Waiting l
      → Answered e c u l row w
      → Post Told (OnLog Waiting) (Action.of_reply (status_of row)) w
  status_lem row l w waits (asked, is_row) = by_status (status_of row) refl
    where
      waits_on : Waiting w.log
      waits_on = subst Waiting (sym asked) (Waiting-call (http (lookup_request e c u)) l tt waits)

      by_status :
          (r : Reply Value) → status_of row ≡ r → Post Told (OnLog Waiting) (Action.of_reply r) w
      by_status (raised x) read = waits_on
      by_status (returned v) read = (
        waits_on,
        λ ok.
            let is_answer = is_row (truthy-status_of e.statuses.save_succeeded row v read ok) in
            subst (Confirmed e c u base) (sym asked) (
              told waits.1 (
                ap (tells_success e) is_answer
                ∙ ap
                    (λ r. elim r [
                      | returned v' ↦ is_text e.statuses.save_succeeded v'
                      | raised x ↦ false
                    ])
                    read
                ∙ ok)),
      )

  Runs-read_status :
      Runs e (OnLog Waiting) (Hibernate.read_status (str c) (str u)) Told (OnLog Waiting)
  unfolding Hibernate.read_status lift
  Runs-read_status = record {
    at = λ w waits.
        (Runs-bind _ _
            (Runs-weaken _
              (λ w' asked.
                subst Waiting (sym asked)
                  (Waiting-call (http (lookup_request e c u)) w.log tt waits))
              (Runs-ask_again e c u w.log strict))
            (λ row. record { at = λ w' answered. status_lem row w.log w' waits answered })).at
          w refl;
  }

  -- However long it waits: with a status of success, Cloud has confirmed it.
  Runs-poll :
      (fuel deadline : ℕ) (status : Value)
      → Runs e
          (Told status)
          (Hibernate.poll fuel deadline (str c) (str u) status)
          Told
          (OnLog Waiting)
  unfolding Hibernate.poll Hibernate.now Hibernate.wait Action.hang pure perform
  Runs-poll zero deadline status = record { at = λ w known. known.0 }
  Runs-poll (suc fuel) deadline status =
      Runs-bind {Q = λ t w. Told status w} _ _
        (record { at = λ w known. Told-call monotonic status w tt known })
        (λ t.
          Runs-when _ _ _
            (λ before.
              Runs-strengthen _ (λ w known. known.0)
                (Runs-bind _ _ Runs-read_status (λ read. Runs-bind_asks _ _ (
                  Runs-when _ _ _ (λ final. record { at = λ w known. known })
                    (λ goes_on.
                      Runs-bind {Q = λ _ w. Told read w} _ _
                        (record {
                          at = λ w known.
                              Told-call (sleep Hibernate.save_poll_interval) read w tt known;
                        })
                        (λ _. Runs-poll fuel deadline read))))))
            (λ after. record { at = λ w known. known }))

  pub Runs-await_save :
      Runs e (OnLog Waiting) (Hibernate.await_save (str c) (str u)) Told (OnLog Waiting)
  unfolding Hibernate.await_save Hibernate.now perform is_text
  Runs-await_save =
      Runs-bind {Q = λ t w. Told null w} _ _
        (record { at = λ w waits. (Waiting-call monotonic w.log tt waits, λ never. ground arith) })
        (λ t. Runs-poll Hibernate.poll_fuel (t + Hibernate.save_wait_timeout) null)
