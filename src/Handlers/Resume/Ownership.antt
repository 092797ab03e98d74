-- ===== src/Handlers/Resume/Ownership.antt =====
-- Every call of `resume_container` is made for the caller.
use browseterm_server_local.Prelude.{String, arith, false, inl, inr, refl, sym, true, ◌≡◌}
use browseterm_server_local.Python.Value.{
  Value, null, str, dict, Fields, end, field, truthy, or_else, format,
}
use browseterm_server_local.Python.Error.{Error, returned, get_item}
use browseterm_server_local.World.Events.{Env, Log}
use browseterm_server_local.World.Action.{World, ◌>>=◌}
use browseterm_server_local.World.Rules.{
  Keeps, OnLog, Keeps-pure, Keeps-lift, Keeps-bind, Keeps-bind_lift, Keeps-try_except, Keeps-gets,
}
use browseterm_server_local.World.Gives.{
  Gives, Gives-bind, Gives-bind_asks, Gives-bind_lift, Gives-validated, Keeps-bind_gives,
}
use browseterm_server_local.World.Trace.{start, more}
use browseterm_server_local.Cloud.Rows.Calls as CloudCalls
use browseterm_server_local.Containers.Client.Calls.{Keeps-container_service}
use browseterm_server_local.Containers.Service.Pods.Calls as PodCalls
use browseterm_server_local.Web.{Request, State}
use browseterm_server_local.Cloud.Ids.{IsPlainId}
use browseterm_server_local.Ownership.{IsStrict, images, hibernation, writing, update, resumption}
use browseterm_server_local.Ownership.Lookup.Found.{
  Mine, MineWith, IsAnswer, extend_with, Keeps-bind_owned_row,
}
use browseterm_server_local.Ownership.Routes.{
  Keeps-bind_known, Gives-bind_returned, Gives-bind_namespace_of, Keeps-not_found, find-extended,
  MakesPlainCallsFor, IsPlainValue, plain_text, update-Authorised, find_user, find-user_fields,
}
use browseterm_server_local.Handlers.Pods.Ownership.{IsFor, k8s_request_lem, creation-Authorised}
use browseterm_server_local.Handlers.Resume
use browseterm_server_local.Handlers.Resume.{Progress, Transition, made, rejected}
use browseterm_server_local.Handlers.Resume.Calls.{
  Keeps-recover, Keeps-record_pod, Keeps-resume_request, Keeps-transition, AllowsUpdate,
}
use mathlib.Core.Path.{subst}

-- Cloud keeps the owners of rows: a row that it answers to a lookup for the user says so itself.
abbrev pub KeepsOwner : Env → String → Type 0
KeepsOwner e u =
    (c : String) (row : Value)
    → IsAnswer e c u row
    → truthy row ≡ true
    → get_item row "user_id" ≡ returned (str u)

-- The request to container-maker is for the owner of the row, and labelled with the container.
Gives-resume_request :
    (e : Env) (row : Value) (c u : String)
    → get_item row "user_id" ≡ returned (str u)
    → Gives e (Resume.resume_request row (str c)) (IsFor c u)
unfolding Resume.resume_request
Gives-resume_request e row c u owned_by = Gives-bind _ _ λ stored. Gives-bind_lift _ _ λ d labelled.
    Gives-bind _ _ λ cpu. Gives-bind _ _ λ memory. Gives-bind _ _ λ storage. Gives-bind _ _ λ l.
      Gives-bind _ _ λ limits. Gives-bind _ _ λ image. Gives-bind _ _ λ name.
        Gives-bind_returned _ (str u) _ owned_by (
          Gives-bind_namespace_of u _ (
            Gives-bind _ _ λ ports. Gives-bind_asks _ _ (
              Gives-validated _ _ _ λ r same.
                let (network, is_env) = k8s_request_lem e _ _ _ _ _ d _ r same in
                (
                  network,
                  (
                    d,
                    is_env,
                    find-extended (or_else stored (dict end)) "CONTAINER_ID" (str c) d labelled,
                  ),
                ))))

module _ (e : Env) (u : String) (base : Log) where
  -- Before the container is known to be the user's, a failure writes the user's rows alone.
  Keeps-recover_unknown :
      (p : Progress) (x : Error)
      → p.resumed ≡ false
      → (truthy p.user_id ≡ true → (p.user_id ≡ str u) × IsPlainValue e p.container_id)
      → Keeps e (OnLog (Mine IsPlainId e u base)) (Resume.recover p x)
  Keeps-recover_unknown p x unresumed is_user =
      Keeps-recover e (Mine IsPlainId e u base) p (λ resumed l s. ground arith)
        (λ known fields l. more (
          writing update _ _ (rw (is_user known).0 (find_user u fields)) (inl (is_user known).1)
            refl))
        x

module _ (e : Env) (u : String) (base : Log) (strict : IsStrict e.pydantic) (c : String) where
  with_update :
      (fields : Fields) → AllowsUpdate e (MineWith IsPlainId e u base c) (str c) (str u) fields
  with_update fields l (s, owned) =
      extend_with c (update-Authorised e u c (str c) fields l refl owned) (s, owned)

  Keeps-recover_known :
      (x : Error)
      → Keeps e
          (OnLog (MineWith IsPlainId e u base c))
          (Resume.recover (record { container_id = str c; user_id = str u; resumed = true }) x)
  unfolding format
  Keeps-recover_known x =
      Keeps-recover e (MineWith IsPlainId e u base c) _
        (λ rolls_back l (s, owned). extend_with c (hibernation c refl owned) (s, owned))
        (λ known. with_update) x

  Keeps-start_resumed :
      (row : Value)
      → get_item row "user_id" ≡ returned (str u)
      → Keeps e (OnLog (MineWith IsPlainId e u base c)) (Resume.start_resumed row (str c) (str u))
  unfolding Resume.start_resumed
  Keeps-start_resumed row owned_by = Keeps-bind _ _ (Keeps-gets _) λ id.
      Keeps-bind _ _
        (CloudCalls.Keeps-update_container_fields e (MineWith IsPlainId e u base c) (str c) (str u)
          (field "last_request_id" (str id) end)
          (with_update (field "last_request_id" (str id) end)))
        λ updated.
          Keeps-bind_gives _ _ (Keeps-resume_request e (MineWith IsPlainId e u base c) row (str c))
            (Gives-resume_request e row c u owned_by)
            λ r for. Keeps-bind _ _ (Keeps-container_service e _) λ _.
              Keeps-bind _ _ (Keeps-lift _) λ image.
                Keeps-bind _ _
                  (PodCalls.Keeps-create_container_in_k8s e (MineWith IsPlainId e u base c)
                    (λ name space l. extend_with c tt) r image (λ l. extend_with c (images refl))
                    (λ m (network, valid) id' l (s, owned).
                      extend_with c
                        (creation-Authorised e u base strict c r m id' l for network valid owned)
                        (s, owned)))
                  λ response.
                    Keeps-bind _ _
                      (Keeps-record_pod e (MineWith IsPlainId e u base c) (str c) (str u) response
                        with_update)
                      (λ _. Keeps-pure _)

  Keeps-resume_row :
      (row : Value)
      → get_item row "user_id" ≡ returned (str u)
      → Keeps e
          (OnLog (MineWith IsPlainId e u base c))
          (do t ← Resume.transition (str c) (str u); Resume.after_transition row (str c) (str u) t)
  unfolding format Resume.after_transition
  Keeps-resume_row row owned_by =
      Keeps-bind _ _
        (Keeps-transition e (MineWith IsPlainId e u base c) (str c) (str u) (λ l (s, owned).
          extend_with c (writing resumption c _ (find-user_fields u) (inr owned) refl) (s, owned)))
        after
    where
      after :
          (t : Transition)
          → Keeps e
              (OnLog (MineWith IsPlainId e u base c))
              (Resume.after_transition row (str c) (str u) t)
      after (rejected r) = Keeps-pure r
      after made = Keeps-try_except _ _ (Keeps-start_resumed row owned_by) Keeps-recover_known

-- For a session of the user `u`, with pydantic's fields as documented: when each row that Cloud
-- answers to a lookup for `u` says that it is `u`'s, and the request's id of a container is plain
-- (letters, digits, hyphens and underscores, at least one), every call that `resume_container`
-- makes is made for `u`. The lookup, the transition and all writes name `u`, with an id in their
-- paths that is plain or that of a container of which Cloud has answered before that it is `u`'s,
-- and the rollback is for such a container. A pod is created in `u`'s namespace alone, labelled
-- with such a container.
pub resume-Authorised :
    (e : Env) (u : String) (request : Request) (st : State) (w : World)
    → IsStrict e.pydantic
    → KeepsOwner e u
    → ((body v : Value)
        → request.body ≡ returned body
        → get_item body "container_id" ≡ returned v
        → IsPlainValue e v)
    → get_item st.user_info "id" ≡ returned (str u)
    → MakesPlainCallsFor e w u (Resume.resume request st)
unfolding Resume.resume Resume.resume_owned truthy
resume-Authorised e u request st w strict owners plain user =
    (Keeps-try_except _ _
        (Keeps-bind_lift _ _ λ body is_body. Keeps-bind_lift _ _ λ v is_v.
          Keeps-try_except _ _
            (Keeps-bind_known _ (str u) _ user (
              Keeps-try_except _ _
                (Keeps-bind_owned_row IsPlainId e u w.log v _ _ strict
                  (λ c is_str. plain_text e v c is_str (plain body v is_body is_v))
                  (λ c row is_str is_row answered.
                    subst
                      (λ v'. Keeps e (OnLog (MineWith IsPlainId e u w.log c)) (do
                        t ← Resume.transition v' (str u)
                        Resume.after_transition row v' (str u) t))
                      (sym is_str)
                      (Keeps-resume_row e u w.log strict c row (owners c row answered is_row)))
                  (Keeps-not_found e _ v))
                (λ x.
                  Keeps-recover_unknown e u w.log
                    (record { container_id = v; user_id = str u; resumed = false }) x refl
                    (λ known. (refl, plain body v is_body is_v)))))
            (λ x.
              Keeps-recover_unknown e u w.log
                (record { container_id = v; user_id = null; resumed = false }) x refl
                (λ known. ground arith)))
        (λ x.
          Keeps-recover_unknown e u w.log
            (record { container_id = null; user_id = null; resumed = false }) x refl
            (λ known. ground arith))).at
      w start
