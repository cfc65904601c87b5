-- ===== src/Catalog/Settings.antt =====
-- api/catalog-publish.js: the settings of a new version, public and private.
use autoform_panel.Js.Value.{
  set_field, lookup, field_names, undefined, property, obj, no_property, contains, Value,
  Properties,
}
use autoform_panel.Prelude.{String, Bool, true, false, Option, none, some, str_eq, if◌then◌else◌}

abbrev pub object_fields : Value → Option Properties
object_fields (obj fs) = some fs
object_fields _ = none

abbrev pub remove_field : String → Properties → Properties
remove_field k no_property = no_property
remove_field k (property j v fs) =
    let rest = remove_field k fs in if str_eq j k then rest else property j v rest

-- `{ ...old, ...new }`
abbrev pub merge : Properties → Properties → Properties
merge old no_property = old
merge old (property k v fs) = merge (set_field k v old) fs

abbrev pub or_no_fields : Option Properties → Properties
or_no_fields none = no_property
or_no_fields (some fs) = fs

-- `settings !== undefined || prevSettings !== undefined`, then both spread.
abbrev pub merged_settings : Option Properties → Option Properties → Option Properties
merged_settings none none = none
merged_settings none (some new) = some (merge no_property new)
merged_settings (some old) new = some (merge (merge no_property old) (or_no_fields new))

abbrev pub field_of : Option Properties → String → Value
field_of none k = undefined
field_of (some fs) k = lookup k fs

abbrev pub has_field : Option Properties → String → Bool
has_field none k = false
has_field (some fs) k = contains (field_names fs) k

-- A private key moves from the public settings to the private ones.
abbrev pub move_private : String → Properties × Properties → Properties × Properties
move_private k (given, secret) =
    if contains (field_names given) k
    then (remove_field k given, set_field k (lookup k given) secret)
    else (given, secret)

abbrev pub split_settings : Properties → Properties → Properties × Properties
split_settings given secret =
    move_private "notificationsEnabled" (move_private "notificationAdapter" (given, secret))

abbrev pub has_fields : Properties → Bool
has_fields no_property = false
has_fields (property k v fs) = true

abbrev pub public_part : Option Properties → Properties → Option Properties
public_part none secret = none
public_part (some given) secret = some (split_settings given secret).0

abbrev pub private_part : Option Properties → Properties → Properties
private_part none secret = secret
private_part (some given) secret = (split_settings given secret).1
