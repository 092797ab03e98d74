-- ===== src/Pages/Reads.antt =====
-- The pages read, and read for their user alone.
use browseterm_server_local.Prelude.{String, ◌<>◌, ◌≡◌, refl, none, some, ap, arith}
use browseterm_server_local.Python.Value.{Value, str, format}
use browseterm_server_local.Python.Error.{Error, cloud_client_error, returned, get_item}
use browseterm_server_local.World.Messages.{HttpRequest, get_method, post_method}
use browseterm_server_local.World.Events.{Env, Log, Event, http}
use browseterm_server_local.World.Action.{Action, World}
use browseterm_server_local.World.Rules.{
  Keeps, OnLog, Keeps-pure, Keeps-raise, Keeps-lift, Keeps-asks, Keeps-bind, Keeps-try_except,
  Keeps-when, keeps_rules,
}
use browseterm_server_local.World.Trace.{Since, start, more}
use browseterm_server_local.Cloud.Models.{GetContainerDbModel, get_container_db_model}
use browseterm_server_local.Cloud.Client.{http_request, session_fields}
use browseterm_server_local.Cloud.Client.Calls as ClientCalls
use browseterm_server_local.Cloud.Catalog.Calls as CatalogCalls
use browseterm_server_local.Cloud.Rows.Calls as RowsCalls
use browseterm_server_local.Ownership.{IsStrict, lookup_request}
use browseterm_server_local.Ownership.Routes.{Keeps-bind_known}
use browseterm_server_local.Auth.Session.{cookie}
use browseterm_server_local.Web.{Request, State}
use browseterm_server_local.Pages

-- A request for a page of the user `u`: the catalogue, the device of `u`, a row of `u`, or a token
-- for the session `s`.
pub data IsRead (e : Env) (u s : String) (r : HttpRequest) : Type 0 where
  images : r ≡ http_request e.config get_method "/catalog/images" none none → IsRead e u s r
  plans :
      r ≡ http_request e.config get_method "/catalog/subscription-types" none none → IsRead e u s r
  device :
      r ≡ http_request e.config get_method ("/internal/users/" <> u <> "/active-device") none none
      → IsRead e u s r
  own_row : (c : String) → r ≡ lookup_request e c u → IsRead e u s r
  token :
      r ≡ http_request e.config post_method "/auth/sse-tokens" (session_fields s) none
      → IsRead e u s r

-- Only such requests are made.
abbrev pub OnlyReads : Env → (u s : String) → Event → Log → Type 0
OnlyReads e u s (http r) l = IsRead e u s r
OnlyReads e u s _ l = ⊥

module _ (e : Env) (L : Log → Type 0) where
  Keeps-without_device : (x : Error) → Keeps e (OnLog L) (Pages.without_device x)
  unfolding Pages.without_device
  Keeps-without_device (cloud_client_error code message) = Keeps-pure _
  Keeps-without_device x = Keeps-raise _

  Keeps-terminal_of : (v : Value) → Keeps e (OnLog L) (Pages.terminal_of v)
  unfolding Pages.terminal_of
  Keeps-terminal_of v = search keeps_rules depth 40

  Keeps-terminal_failed : (id : String) (x : Error) → Keeps e (OnLog L) (Pages.terminal_failed id x)
  unfolding Pages.terminal_failed
  Keeps-terminal_failed id x = search keeps_rules

row_lem :
    (e : Env) (u : String) (c : Value) (m : GetContainerDbModel)
    → IsStrict e.pydantic
    → get_container_db_model e.pydantic c (str u) ≡ some m
    → m.user_id ≡ u
unfolding get_container_db_model
row_lem e u c m strict valid = grind (arith, strict.accepts_str u)

module _ (e : Env) (u : String) (base : Log) (request : Request) where
  abbrev Reads : Log → Type 0
  Reads l = Since (OnlyReads e u (cookie "session" request)) base l

  Keeps-images : Keeps e (OnLog Reads) Pages.list_all_existing_images
  Keeps-images = CatalogCalls.Keeps-list_all_existing_images e Reads (λ l. more (images refl))

  Keeps-plans : Keeps e (OnLog Reads) Pages.list_all_existing_subscription_types
  Keeps-plans =
      CatalogCalls.Keeps-list_all_existing_subscription_types e Reads (λ l. more (plans refl))

  Keeps-sse_token : Keeps e (OnLog Reads) (Pages.sse_token request)
  unfolding Pages.sse_token
  Keeps-sse_token =
      Keeps-when _ _ _ (λ _. Keeps-pure _)
        (λ _. ClientCalls.Keeps-create_sse_token e Reads _ (λ l. more (token refl)))

  module _ (st : State) (user : get_item st.user_info "id" ≡ returned (str u)) where
    Keeps-active_device : Keeps e (OnLog Reads) (Pages.active_device st)
    unfolding Pages.active_device format
    Keeps-active_device =
        Keeps-try_except _ _
          (Keeps-bind_known _ (str u) _ user
            (ClientCalls.Keeps-get_active_device e Reads (str u) (λ l. more (device refl))))
          (Keeps-without_device e Reads)

    Keeps-loaded_terminal :
        (id : String) → IsStrict e.pydantic → Keeps e (OnLog Reads) (Pages.loaded_terminal id st)
    unfolding Pages.loaded_terminal
    Keeps-loaded_terminal id strict =
        Keeps-try_except _ _
          (Keeps-bind_known _ (str u) _ user (
            Keeps-bind _ _
              (RowsCalls.Keeps-get_container_by_id e Reads (str id) (str u) λ m valid l. more (
                own_row m.container_id (
                  ap (λ v. lookup_request e m.container_id v)
                    (row_lem e u (str id) m strict valid))))
              λ v. Keeps-when _ _ _ (λ _. Keeps-terminal_of e Reads v) (λ _. Keeps-pure _)))
          (Keeps-terminal_failed e Reads id)

    Keeps-terminal_info :
        (id : String) → IsStrict e.pydantic → Keeps e (OnLog Reads) (Pages.terminal_info id st)
    unfolding Pages.terminal_info
    Keeps-terminal_info id strict =
        Keeps-when _ _ _ (λ _. Keeps-pure _) (λ _. Keeps-loaded_terminal id strict)

-- The calls that a page's action makes are reads for the user `u` and the request's own session.
abbrev pub ReadsFor : {A : Type 0} → Env → World → (u : String) → Request → Action A → Type 0
ReadsFor e w u request m = Since (OnlyReads e u (cookie "session" request)) w.log (m e w).1.log

-- For a session of a user `u`, with pydantic's fields as documented, the pages `terminals`,
-- `terminalpage`, `subscriptions`, `payment` and `profile` make no calls but requests to Cloud for
-- the catalogue, `u`'s device, a row of `u`, and a token of the session in the request's cookie.
pub pages-OnlyReads :
    (e : Env) (u : String) (request : Request) (st : State) (w : World)
    → IsStrict e.pydantic
    → get_item st.user_info "id" ≡ returned (str u)
    → ReadsFor e w u request (Pages.terminals_page request st)
      × ReadsFor e w u request (Pages.terminal_page request st)
      × ReadsFor e w u request (Pages.subscriptions_page st)
      × ReadsFor e w u request (Pages.payment_page request st)
      × ReadsFor e w u request (Pages.profile_page st)
unfolding Pages.terminals_page Pages.terminal_page Pages.subscriptions_page Pages.payment_page
    Pages.profile_page
pages-OnlyReads e u request st w strict user = (
  (Keeps-bind _ _ (Keeps-images e u w.log request) λ i.
        Keeps-bind _ _ (Keeps-active_device e u w.log request st user) λ d.
          Keeps-bind _ _ (Keeps-sse_token e u w.log request)
            λ t. Keeps-bind _ _ (Keeps-asks _) λ url. Keeps-pure _).at
      w start,
  (Keeps-bind _ _ (Keeps-terminal_info e u w.log request st user _ strict) λ i.
        Keeps-bind _ _ (Keeps-sse_token e u w.log request)
          λ t. Keeps-bind _ _ (Keeps-asks _) λ url. Keeps-pure _).at
      w start,
  (Keeps-bind _ _ (Keeps-plans e u w.log request) λ v. Keeps-pure _).at w start,
  (Keeps-bind _ _ (Keeps-plans e u w.log request)
        λ v. Keeps-bind _ _ (Keeps-lift _) λ vs. Keeps-bind _ _ (Keeps-lift _) λ p. Keeps-pure _).at
      w start,
  (Keeps-bind _ _ (Keeps-active_device e u w.log request st user) λ d. Keeps-pure _).at w start,
)
