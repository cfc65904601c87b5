-- ===== src/Notification/Delivery/Valid.antt =====
-- Adapters of two deliveries without errors.
use autoform_panel.Notification.Round.Container.{validate_template_container-bounded, height}
use autoform_panel.Stats.{elements}
use autoform_panel.Notification.Round.{validate_template_container, int_between}
use autoform_panel.Notification.Templates.{controlled_template_tokens}
use autoform_panel.Notification.{
  unless, indexed, is_json_container, contains_message, bounded_string,
}
use autoform_panel.Stats.Distinct.{nil-append, all_new, unless-nil}
use autoform_panel.Notification.Formatters.{
  round_allowed, validate_v3_formatters, validate_round_message_template,
}
use autoform_panel.Notification.Delivery.{
  unsupported_in, validate_notification_adapter_v3, validate_delivery, delivery_path, deliveries,
  status_error, at_field, is_method, statuses_from, delivery_url, delivery_statuses,
  delivery_fields, delivery_body, protocol_errors,
}
use autoform_panel.Js.Value.{
  field_names, no_element, null, undefined, items, obj, element, num, arr, strict_eq, bool, str,
  lookup, Value, Properties,
}
use autoform_panel.Prelude.{
  ℕ, ◌+◌, ◌≤◌, String, ◌≡◌, refl, inl, inr, Bool, true, false, ◌&&◌, ◌||◌, Option, none, some, List,
  [], ◌∷◌, str_eq, Bool-cases, all,
}

abbrev is_web : Option String → Bool
is_web none = false
is_web (some protocol) = str_eq protocol "https:" || str_eq protocol "http:"

web_protocol : (path : String) (o : Option String) → protocol_errors path o ≡ [] → is_web o ≡ true
web_protocol path none h = cc
web_protocol path (some protocol) h = unless-nil _ (path ∷ " must use http or https" ∷ []) h

module _ (protocol_of : String → Option String) where
  -- A text that is not empty, has at most 2,048 units and is a URL of http or https.
  abbrev pub is_web_url : Value → Bool
  is_web_url (str s) = bounded_string (str s) 2048 false && is_web (protocol_of s)
  is_web_url _ = false

  -- What is asked of a delivery.
  pub record IsDelivery (path : String) (fs : Properties) : Type 0 where
    pub url : is_web_url (lookup "url" fs) ≡ true
    pub method : is_method (lookup "method" fs) ≡ true
    pub message_inside : contains_message (lookup "bodyTemplate" fs) ≡ true
    pub body_levels : height (lookup "bodyTemplate" fs) ≤ 8
    pub template :
        (s : String) × (lookup "messageTemplate" fs ≡ str s)
        × ((controlled_template_tokens round_allowed (at_field path "messageTemplate") s).errors
            ≡ [])
    pub statuses :
        (all (int_between 100 599) (elements (lookup "successStatuses" fs)) ≡ true)
        × (all_new strict_eq [] (elements (lookup "successStatuses" fs)) ≡ true)
    pub timeout : int_between 1000 8000 (lookup "timeoutMs" fs) ≡ true

  web_url : (path : String) (v : Value) → delivery_url protocol_of path v ≡ [] → is_web_url v ≡ true
  unfolding bounded_string
  web_url path (str s) h = elim (Bool-cases (bounded_string (str s) 2048 false)) [
    | inr e ↦ let broken = rw e at h in cc
    | inl e ↦ rw e (web_protocol (at_field path "url") (protocol_of s) (rw e at h))
  ]
  web_url path undefined h = cc
  web_url path null h = cc
  web_url path (bool b) h = cc
  web_url path (num n) h = cc
  web_url path (arr vs) h = cc
  web_url path (obj fs) h = cc

statuses-valid :
    (path : String) (vs : List Value) (n : ℕ) (seen : List Value)
    → statuses_from path vs n seen ≡ []
    → (all (int_between 100 599) vs ≡ true) × (all_new strict_eq seen vs ≡ true)
statuses-valid path [] n seen h = (refl, refl)
statuses-valid path (v ∷ vs) n seen h =
    let (first, rest) =
      nil-append (status_error (indexed path n) v seen) (statuses_from path vs (n + 1) (v ∷ seen))
        h in
    let (valid, new) = statuses-valid path vs (n + 1) (v ∷ seen) rest in
    elim (Bool-cases (int_between 100 599 v)) [
      | inl e ↦
          let fresh =
            unless-nil _ (indexed path n ∷ " must not be duplicated" ∷ []) (rw e at first) in
          (rw (e, valid) refl, rw (fresh, new) refl)
      | inr e ↦ let broken = rw e at first in cc
    ]

delivery_statuses-valid :
    (path : String) (v : Value)
    → delivery_statuses path v ≡ []
    → (all (int_between 100 599) (elements v) ≡ true) × (all_new strict_eq [] (elements v) ≡ true)
delivery_statuses-valid path (arr (element v vs)) h =
    statuses-valid (at_field path "successStatuses") (v ∷ items vs) 0 [] h
delivery_statuses-valid path (arr no_element) h = cc
delivery_statuses-valid path undefined h = cc
delivery_statuses-valid path null h = cc
delivery_statuses-valid path (bool b) h = cc
delivery_statuses-valid path (num n) h = cc
delivery_statuses-valid path (str s) h = cc
delivery_statuses-valid path (obj fs) h = cc

delivery_body-valid :
    (path : String) (v : Value)
    → delivery_body path v ≡ []
    → (contains_message v ≡ true) × (height v ≤ 8)
delivery_body-valid path v h = elim (Bool-cases (is_json_container v)) [
  | inr e ↦ let broken = rw e at h in cc
  | inl e ↦
      let (small, message) =
        nil-append (validate_template_container v (at_field path "bodyTemplate") 0)
          (unless (contains_message v) (path ∷ ".bodyTemplate must contain {{message}}" ∷ []))
          (rw e at h) in
      (
        unless-nil _ (path ∷ ".bodyTemplate must contain {{message}}" ∷ []) message,
        (validate_template_container-bounded v (at_field path "bodyTemplate") small).0,
      )
]

message_template :
    (path : String) (v : Value)
    → validate_round_message_template v path ≡ []
    → (s : String) × (v ≡ str s) × ((controlled_template_tokens round_allowed path s).errors ≡ [])
unfolding validate_round_message_template
message_template path (str s) h = elim (Bool-cases (bounded_string (str s) 4000 false)) [
  | inl e ↦ (s, refl, rw e at h)
  | inr e ↦ let broken = rw e at h in cc
]
message_template path undefined h = cc
message_template path null h = cc
message_template path (bool b) h = cc
message_template path (num n) h = cc
message_template path (arr vs) h = cc
message_template path (obj fs) h = cc

module _ (protocol_of : String → Option String) where
  delivery_fields-IsDelivery :
      (path : String) (fs : Properties)
      → delivery_fields protocol_of path fs ≡ []
      → IsDelivery protocol_of path fs
        × (validate_v3_formatters (lookup "formatters" fs) (at_field path "formatters") ≡ [])
  delivery_fields-IsDelivery path fs h =
      let (h₇, timeout) = nil-append _ _ h in
      let (h₆, response) = nil-append _ _ h₇ in
      let (h₅, statuses) = nil-append _ _ h₆ in
      let (h₄, formatters) = nil-append _ _ h₅ in
      let (h₃, template) = nil-append _ _ h₄ in
      let (h₂, body) = nil-append _ _ h₃ in
      let (h₁, method) = nil-append _ _ h₂ in
      let (keys, url) = nil-append _ _ h₁ in
      let (message, levels) = delivery_body-valid path (lookup "bodyTemplate" fs) body in
      (
        record {
          url = web_url protocol_of path (lookup "url" fs) url;
          method = unless-nil _ (path ∷ ".method must be one of: POST, PUT, PATCH" ∷ []) method;
          message_inside = message;
          body_levels = levels;
          template =
              message_template (at_field path "messageTemplate") (lookup "messageTemplate" fs)
                template;
          statuses = delivery_statuses-valid path (lookup "successStatuses" fs) statuses;
          timeout =
              unless-nil _ (path ∷ ".timeoutMs must be an integer from 1000 to 8000" ∷ []) timeout;
        },
        formatters,
      )

  -- A delivery of that name, which is as asked.
  abbrev pub HasDelivery : String → Properties → Type 0
  HasDelivery name ds =
      (fs : Properties) × (lookup name ds ≡ obj fs)
      × IsDelivery protocol_of (delivery_path name) fs
      × (validate_v3_formatters (lookup "formatters" fs)
            (at_field (delivery_path name) "formatters")
          ≡ [])

  validate_delivery-HasDelivery :
      (name : String) (ds : Properties) (v : Value)
      → lookup name ds ≡ v
      → validate_delivery protocol_of (delivery_path name) v ≡ []
      → HasDelivery name ds
  unfolding validate_delivery
  validate_delivery-HasDelivery name ds (obj fs) e h =
      let (delivery, formatters) = delivery_fields-IsDelivery (delivery_path name) fs h in
      (fs, e, delivery, formatters)
  validate_delivery-HasDelivery name ds undefined e h = cc
  validate_delivery-HasDelivery name ds null e h = cc
  validate_delivery-HasDelivery name ds (bool b) e h = cc
  validate_delivery-HasDelivery name ds (num n) e h = cc
  validate_delivery-HasDelivery name ds (str s) e h = cc
  validate_delivery-HasDelivery name ds (arr vs) e h = cc

  deliveries-HasDelivery :
      (v : Value)
      → deliveries protocol_of v ≡ []
      → (ds : Properties) × (v ≡ obj ds) × HasDelivery "summary" ds × HasDelivery "problem" ds
  deliveries-HasDelivery (obj ds) h =
      let (before, problem) = nil-append _ _ h in
      let (keys, summary) = nil-append _ _ before in
      (
        ds,
        refl,
        validate_delivery-HasDelivery "summary" ds (lookup "summary" ds) refl summary,
        validate_delivery-HasDelivery "problem" ds (lookup "problem" ds) refl problem,
      )
  deliveries-HasDelivery undefined h = cc
  deliveries-HasDelivery null h = cc
  deliveries-HasDelivery (bool b) h = cc
  deliveries-HasDelivery (num n) h = cc
  deliveries-HasDelivery (str s) h = cc
  deliveries-HasDelivery (arr vs) h = cc

  -- An adapter of the third version without errors has a summary and a problem delivery. Each has
  -- a URL of http or https, an allowed method, a body template of at most eight levels with a place
  -- for the message, a message template and formatters without errors, different HTTP statuses
  -- from 100 to 599, and a timeout of one to eight seconds.
  pub validate_notification_adapter_v3-HasDelivery :
      (fs : Properties)
      → validate_notification_adapter_v3 protocol_of (obj fs) ≡ []
      → (ds : Properties) × (lookup "deliveries" fs ≡ obj ds)
        × HasDelivery "summary" ds
        × HasDelivery "problem" ds
  unfolding validate_notification_adapter_v3
  validate_notification_adapter_v3-HasDelivery fs h =
      let (keys, each) =
        nil-append
          (unsupported_in "notificationAdapter" ("version" ∷ "deliveries" ∷ []) (field_names fs))
          (deliveries protocol_of (lookup "deliveries" fs)) h in
      deliveries-HasDelivery (lookup "deliveries" fs) each
