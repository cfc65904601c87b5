-- ===== src/Catalog/Publish/Secrets.antt =====
-- The private keys of the settings.
use autoform_panel.Pairing.Messages.Keys.{lookup-set_field}
use autoform_panel.Catalog.Publish.{undefined, property}
use autoform_panel.Catalog.Settings.{split_settings, remove_field, move_private}
use autoform_panel.Js.Value.{no_property, field_names, lookup, contains, Properties}
use autoform_panel.Prelude.{
  ◌∙◌, String, ◌≡◌, refl, true, false, not, ◌&&◌, arith, eq_iff, str_eq, if◌then◌else◌,
}

names-remove_field :
    (k j : String) (fs : Properties)
    → contains (field_names (remove_field k fs)) j
      ≡ (contains (field_names fs) j && not (str_eq k j))
names-remove_field k j no_property = refl
names-remove_field k j (property i v fs) =
    ground (arith, names-remove_field k j fs, eq_iff i k, eq_iff i j, eq_iff k j)

lookup-remove_field :
    (k j : String) (fs : Properties)
    → lookup j (remove_field k fs) ≡ (if str_eq k j then undefined else lookup j fs)
lookup-remove_field k j no_property = ground arith
lookup-remove_field k j (property i v fs) =
    ground (arith, lookup-remove_field k j fs, eq_iff i k, eq_iff i j, eq_iff k j)

-- Moving a private key keeps every other public field.
move_private-lookup :
    (k j : String) (given secret : Properties)
    → str_eq k j ≡ false
    → lookup j (move_private k (given, secret)).0 ≡ lookup j given
move_private-lookup k j given secret h = ground (arith, lookup-remove_field k j given)

move_private-names :
    (k j : String) (given secret : Properties)
    → contains (field_names (move_private k (given, secret)).0) j
      ≡ (contains (field_names given) j && not (str_eq k j))
move_private-names k j given secret = ground (arith, names-remove_field k j given, eq_iff k j)

-- The value of a private key that is given ends in the private settings.
move_private-moved :
    (k : String) (given secret : Properties)
    → contains (field_names given) k ≡ true
    → lookup k (move_private k (given, secret)).1 ≡ lookup k given
move_private-moved k given secret h =
    ground (arith, lookup-set_field k k (lookup k given) secret, eq_iff k k)

move_private-kept :
    (k j : String) (given secret : Properties)
    → str_eq k j ≡ false
    → lookup j (move_private k (given, secret)).1 ≡ lookup j secret
move_private-kept k j given secret h = ground (arith, lookup-set_field k j (lookup k given) secret)

-- The public settings of a version hold neither private key and keep every other field, and the
-- private settings hold the adapter and the switch that were given.
pub split_settings_lem :
    (given secret : Properties)
    → (contains (field_names (split_settings given secret).0) "notificationAdapter" ≡ false)
      × (contains (field_names (split_settings given secret).0) "notificationsEnabled" ≡ false)
      × ((k : String)
          → str_eq "notificationAdapter" k ≡ false
          → str_eq "notificationsEnabled" k ≡ false
          → lookup k (split_settings given secret).0 ≡ lookup k given)
      × (contains (field_names given) "notificationAdapter" ≡ true
          → lookup "notificationAdapter" (split_settings given secret).1
            ≡ lookup "notificationAdapter" given)
      × (contains (field_names given) "notificationsEnabled" ≡ true
          → lookup "notificationsEnabled" (split_settings given secret).1
            ≡ lookup "notificationsEnabled" given)
split_settings_lem given secret =
    let adapter : String = "notificationAdapter" in
    let enabled : String = "notificationsEnabled" in
    let middle = (move_private adapter (given, secret)).0 in
    let hidden = (move_private adapter (given, secret)).1 in
    let has_enabled = move_private-names adapter enabled given secret in
    (
      ground (
        arith,
        move_private-names enabled adapter middle hidden,
        move_private-names adapter adapter given secret,
      ),
      ground (arith, move_private-names enabled enabled middle hidden),
      (λ k p q.
          move_private-lookup enabled k middle hidden q
          ∙ move_private-lookup adapter k given secret p),
      (λ h.
          move_private-kept enabled adapter middle hidden refl
          ∙ move_private-moved adapter given secret h),
      (λ h.
          move_private-moved enabled middle hidden (ground (arith, has_enabled, h))
          ∙ move_private-lookup adapter enabled given secret refl),
    )
