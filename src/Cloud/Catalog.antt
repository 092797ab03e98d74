-- ===== src/Cloud/Catalog.antt =====
-- src/db_ops/image_db_ops.py and subscription_db_ops.py: Cloud's read-only catalogues.
pub mod Calls
use browseterm_server_local.Prelude.{
  String, ◌<>◌, ◌==◌, Bool, true, false, not, ◌&&◌, Option, none, some, if◌then◌else◌,
}
use browseterm_server_local.Python.Value.{
  dict, Fields, end, field, class_name, Value, null, str, list, Items, nil, item,
}
use browseterm_server_local.Python.Error.{
  Error, exception, type_error, Reply, returned, raised, get,
}
use browseterm_server_local.World.Action.{Action, raise, lift, ◌>>=◌, try_except, text_of}
use browseterm_server_local.Cloud.Client
use browseterm_server_local.Cloud.Models.{GetImageDataModel, given}
use browseterm_server_local.Cloud.Rows.{database_failed}

unfoldable pub list_all_existing_images : Action Value
unfolding Client.list_images database_failed
list_all_existing_images = try_except Client.list_images database_failed

-- `filter and v != filter`: the filter is given and refuses the value.
unfoldable pub refuses : Option String → Value → Bool
refuses none v = false
refuses (some s) (str t) = not (s == "") && not (t == s)
refuses (some s) v = not (s == "")

-- One test of the loop: a filter that is not given reads nothing of the image.
unfoldable pub passes : Option String → String → Value → Reply Bool
unfolding refuses get
passes filter key image =
    if given filter
    then elim (get image key null) [
      | raised x ↦ raised x
      | returned v ↦ returned (not (refuses filter v))
    ]
    else returned true

-- `continue` unless the test is passed.
abbrev and_then : Reply Bool → Reply Bool → Reply Bool
and_then (returned true) next = next
and_then other next = other

unfoldable pub matches : GetImageDataModel → Value → Reply Bool
unfolding passes
matches f image =
    and_then (passes f.id "id" image)
      (and_then (passes f.name "name" image) (passes f.image "image" image))

unfoldable pub first_match : GetImageDataModel → Items → Reply Value
unfolding matches
first_match f nil = returned null
first_match f (item v vs) =
    let rest = first_match f vs in
    elim (matches f v) [ raised x ↦ raised x | returned true ↦ returned v | returned false ↦ rest ]

keys : Fields → Items
keys end = nil
keys (field k v d) = item (str k) (keys d)

-- `for image in images`. A text that is not empty is walked by its characters; the loops here fail
-- at its first, as they do at the text itself.
unfoldable pub items_of : Value → Reply Items
unfolding keys class_name
items_of (list vs) = returned vs
items_of (dict d) = returned (keys d)
items_of (str s) = returned (if s == "" then nil else item (str s) nil)
items_of v = raised (type_error ("'" <> class_name v <> "' object is not iterable"))

image_failed : {A : Type 0} → Error → Action A
image_failed x = do t ← text_of x; raise (exception ("Database operation failed: " <> t))

unfoldable pub get_image : GetImageDataModel → Action Value
unfolding list_all_existing_images first_match items_of image_failed
get_image f =
    try_except
      (do v ← list_all_existing_images; images ← lift (items_of v); lift (first_match f images))
      image_failed

unfoldable pub list_all_existing_subscription_types : Action Value
unfolding Client.list_subscription_types database_failed
list_all_existing_subscription_types = try_except Client.list_subscription_types database_failed

unfoldable pub get_user_current_subscription_plan : String → Action Value
unfolding Client.get_current_subscription database_failed
get_user_current_subscription_plan user_id =
    try_except (Client.get_current_subscription (str user_id)) database_failed
