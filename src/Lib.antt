-- ===== src/Lib.antt =====
-- browseterm-server-local is the local server of browseterm: it authenticates a browser against the
-- Cloud API, keeps the containers' rows there, and runs the containers' pods through container-maker.
--
-- The surroundings. Every call that leaves the server is an event of a log, in the order in which the
-- calls are made: a request to Cloud, a gRPC call to container-maker, the read of a Kubernetes secret, a
-- reading of a clock, a sleep, a new id, a background task that is started. The record `Env`
-- (World/Events.antt) answers each call, and its answer may depend on all calls before it, so nothing is
-- assumed of Cloud, of container-maker and of the clock but what a theorem names. `Action`
-- (World/Action.antt) is a computation in these surroundings: it returns, raises a Python exception, or
-- is still looping when the fuel of a loop ends (`hanging`). World/Rules.antt, World/Gives.antt,
-- World/Trace.antt, World/Halts.antt and World/Answers.antt hold the
-- rules by which the proofs follow a `do` block.
--
-- The files and the code:
--   Python/*                JSON values, texts, exceptions and fields of pydantic models, as the source
--                           uses them.
--   Cloud/Client.antt       src/cloud_client/client.py: `CloudClient`, one function for each method.
--   Cloud/Ids.antt          the ids that `CloudClient` puts into paths, and which of them are plain.
--   Cloud/Models.antt       src/db_ops/dto: the models of the rows.
--   Cloud/Rows.antt         src/db_ops/container_db_ops.py; Cloud/Rows/Registry.antt states what it promises.
--   Cloud/Catalog.antt      src/db_ops/image_db_ops.py and src/db_ops/subscription_db_ops.py.
--   Web.antt                requests, responses and cookies, as the handlers build them.
--   Auth/Session.antt       src/authentication/authentication_helpers.py: `authenticate_session`.
--   Auth/Service.antt       src/authentication/authentication_service.py: `AuthenticationService`.
--   Auth/Transform.antt     src/authentication/data_transformers/session_transformer.py.
--   Common/Settings.antt    src/common/config.py.
--   Common/Logging.antt     src/common/logging_setup.py: `JsonFormatter` and `configure_logging`.
--   Containers/Models.antt  src/data_models/containers.py.
--   Containers/Names.antt   src/containers/containers_helpers.py: `sanitize_container_name`.
--   Containers/Certificates.antt
--                           src/containers/containers_helpers.py: `CertificateUtils`.
--   Containers/CertificateFiles.antt
--                           src/common/utils.py: the readers of certificates.
--   Containers/Resources.antt, Containers/ErrorMessage.antt
--                           src/common/utils.py: `ResourceUnitConverter`, `clean_k8s_error_message`.
--   Containers/Transform.antt
--                           src/containers/data_transformers and src/containers/dto;
--                           the transformers of listings are in Containers/Transform/Listings.antt.
--   Containers/Client.antt  the channel to container-maker: `ContainerService.__init__` and
--                           `_ensure_grpc_client` of src/containers/containers_service.py,
--                           src/common/k8s_secrets.py, and `channel` of src/common/grpc_utils.py.
--   Containers/Service/*    src/containers/containers_service.py: the methods of `ContainerService`.
--   Handlers/Login.antt     src/api_handlers.py: `_csrf_ok`, `_validated_desktop_port`,
--                           `auth_provider_redirect`, `auth_callback`, `auth_refresh`, `logout`,
--                           `device_bootstrap`.
--   Handlers/Rows.antt      the routes that read and write rows.
--   Handlers/Pods.antt      `create_container_in_k8s` and `delete_container_in_k8s`.
--   Handlers/Save.antt      `save_container` with `_set_save_status` and `_run_save`.
--   Handlers/Resume.antt    `resume_container`.
--   Handlers/Hibernate.antt `hibernate_container`.
--   Pages.antt              src/template_handlers.py: what the pages hand to their templates.
--   Payments.antt           src/payments/payments_service.py and `create_payment`.
--   Application.antt        app.py: the table of the routes, with `echo`.
--   Ownership.antt          what it means that a call is made for a user; Ownership/Lookup.antt,
--                           Ownership/Lookup/Found.antt and Ownership/Routes.antt hold the rules,
--                           and the children of the handlers' modules the proofs.
--   Tests/*                 a concrete setting and the theorems at it.
-- A route `f` behind the decorator `authenticate_session` is two functions: what the route does for a
-- session's state (`create_pod`), and that function behind the decorator (`create_container_in_k8s`).
-- `resume_container` has one `try`, which is split where the variables change that its handler reads.
--
-- Bounds and fuel. The loop of `hibernate_container` that waits for the save has fuel 101: the wait is
-- 300 seconds and each round but the last sleeps three, so a round that begins after the deadline is
-- among the first 101 on a clock that runs at least as long as the server sleeps. Times are in
-- nanoseconds. The loop of `CertificateUtils` that waits for a job has no bound in the source: its fuel is
-- an argument, and a theorem says which fuel is enough. All other loops of the model are recursions on lists and texts.
--
-- What the model takes as given. JSON numbers are integers, and `int()` and the quantities read ASCII
-- digits. `str` of other libraries' exceptions, `repr`, `json.loads`, base64, `str.lower`, `str.isspace`,
-- doubles (by bit patterns), pydantic's fields, the values of the enumerations of the package
-- browseterm_db, clocks and ids are parameters, fields of `Env`. A gRPC message that cannot be built is
-- counted as the outcome of its call. Ratios of requests are not negative. A request's headers are listed
-- in the spelling that the source asks for (Starlette compares them without regard to case), and its
-- query parameters with one entry for a key. The settings of namespaces and of the cert-manager are set.
-- A URL is the concatenation that the source writes: how the HTTP library reads "/", "..", "?", "#" or
-- "%" in an id is not modelled, so the theorems on routes that put a request's id into a path without a
-- lookup before ask for a plain id (Cloud/Ids.antt). The quoting of a redirect's URL by the web framework
-- is left out, and `json.loads` of an error's body raises nothing but the error that the source expects.
--
-- Not modelled: the static files and the start of the application (app.py), the dump of a log line as
-- JSON, the middleware, the data transfer objects that nothing uses, the JavaScript, the rendering of
-- the templates and the scripts of the infrastructure.
pub mod Prelude
pub mod Python
pub mod World
pub mod Cloud
pub mod Web
pub mod Auth
pub mod Common
pub mod Containers
pub mod Pages
pub mod Payments
pub mod Ownership
pub mod Handlers
pub mod Application
pub mod Tests
