-- ===== src/Cloud/Catalog/Calls.antt =====
-- Which calls the catalogue's wrappers make.
use browseterm_server_local.Prelude.{none}
use browseterm_server_local.Python.Value.{Value}
use browseterm_server_local.Python.Error.{Error}
use browseterm_server_local.World.Messages.{get_method}
use browseterm_server_local.World.Events.{Log, Env}
use browseterm_server_local.World.Rules.{
  Keeps, OnLog, Keeps-try_except, Keeps-bind, Keeps-lift, keeps_rules,
}
use browseterm_server_local.Cloud.Models.{GetImageDataModel}
use browseterm_server_local.Cloud.Catalog
use browseterm_server_local.Cloud.Client.Calls
use browseterm_server_local.Cloud.Client.Calls.{Allows}
use browseterm_server_local.Cloud.Rows.Calls.{Keeps-database_failed}

pub Keeps-list_all_existing_subscription_types :
    (e : Env) (L : Log → Type 0)
    → Allows e L get_method "/catalog/subscription-types" none none
    → Keeps e (OnLog L) Catalog.list_all_existing_subscription_types
unfolding Catalog.list_all_existing_subscription_types
Keeps-list_all_existing_subscription_types e L allowed =
    Keeps-try_except _ _ (Calls.Keeps-list_subscription_types e L allowed)
      (Keeps-database_failed e L)

module _ (e : Env) (L : Log → Type 0)
    (allowed : Allows e L get_method "/catalog/images" none none) where
  pub Keeps-list_all_existing_images : Keeps e (OnLog L) Catalog.list_all_existing_images
  unfolding Catalog.list_all_existing_images
  Keeps-list_all_existing_images =
      Keeps-try_except _ _ (Calls.Keeps-list_images e L allowed) (Keeps-database_failed e L)

  Keeps-image_failed : (x : Error) → Keeps e (OnLog L) (Catalog.image_failed {A = Value} x)
  unfolding Catalog.image_failed
  Keeps-image_failed x = search keeps_rules

  pub Keeps-get_image : (f : GetImageDataModel) → Keeps e (OnLog L) (Catalog.get_image f)
  unfolding Catalog.get_image
  Keeps-get_image f =
      Keeps-try_except _ _
        (Keeps-bind _ _ Keeps-list_all_existing_images
          (λ v. Keeps-bind _ _ (Keeps-lift _) (λ images. Keeps-lift _)))
        Keeps-image_failed
