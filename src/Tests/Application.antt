-- ===== src/Tests/Application.antt =====
-- The theorems on the table of the routes, applied at the setting of the tests.
use browseterm_server_local.Prelude.{String, ◌==◌, ◌≡◌, refl, Bool, some, inl, inr, if◌then◌else◌}
use browseterm_server_local.World.Messages.{get_method}
use browseterm_server_local.Pages
use browseterm_server_local.Handlers.Login
use browseterm_server_local.Application.{Route, on_request, routes}
use browseterm_server_local.Application.Guards.{routes-Refuses, Refuses}
use browseterm_server_local.Application.Order.{
  routes-IsReached, IsMatcher, dispatch, has_brace, begins_like,
}

abbrev profile_route : Route
profile_route = record {
  method = get_method;
  path = "/profile";
  endpoint = on_request Pages.profile;
}

routes-Refuses_example : Refuses profile_route.endpoint
unfolding routes
routes-Refuses_example = routes-Refuses profile_route (inr (inr (inr (inr (inr (inl refl)))))) refl

-- A parameter takes whatever follows.
abbrev matches : String → String → Bool
matches p q = if has_brace p then begins_like p q else p == q

matches-IsMatcher : IsMatcher matches
matches-IsMatcher = record {
  exact = λ p q plain. rw plain refl;
  literal = λ p q brace other. rw brace other;
}

abbrev callback_route : Route
callback_route = record {
  method = get_method;
  path = "/auth/callback";
  endpoint = on_request Login.auth_callback;
}

routes-IsReached_example : dispatch matches routes get_method "/auth/callback" ≡ some callback_route
unfolding routes
routes-IsReached_example =
    routes-IsReached matches matches-IsMatcher callback_route
      (inr (inr (inr (inr (inr (inr (inr (inr (inl refl))))))))) refl
