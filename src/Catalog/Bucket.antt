-- ===== src/Catalog/Bucket.antt =====
-- FileSystemR2Bucket of stores/catalog-bucket.mjs: a directory of objects with conditional writes,
-- which one queue runs one at a time.
pub mod Laws
use autoform_panel.Js.Text.{trim}
use autoform_panel.Pairing.Crypto.{split_commas}
use autoform_panel.Js.Value.{contains}
use autoform_panel.Prelude.{
  code, String, Bool, true, false, not, ◌&&◌, ◌||◌, Option, none, some, List, [], ◌∷◌, map, str_eq,
  ◌==◌, if◌then◌else◌,
}
use mathlib.Core.Option
use Prim.Native.String

-- A write may fail before the rename that makes it visible, or after it, at the metadata.
pub data Disk : Type 0 where
  fine fails_before fails_after : Disk

pub record Entry : Type 0 where
  pub key : String
  pub text : String

-- The files below the root; `faults` says of each later write how it goes.
pub record Bucket : Type 0 where
  pub entries : List Entry
  pub faults : List Disk

-- The `onlyIf` of a put: HTTP headers, or an R2 conditional. A field that is absent is none.
pub data OnlyIf : Type 0 where
  always : OnlyIf
  headers : (if_match if_none_match : Option String) → OnlyIf
  conditional : (etag_matches etag_does_not_match : Option (List String)) → OnlyIf

abbrev without_weak : String → String
without_weak (String.◌∷◌ w (String.◌∷◌ slash rest)) =
    if code w == 87 && code slash == 47 then rest else String.◌∷◌ w (String.◌∷◌ slash rest)
without_weak s = s

-- The text before its last character, if that is a quote.
abbrev before_quote : String → Option String
before_quote String.[] = none
before_quote (String.◌∷◌ c String.[]) = if code c == 34 then some "" else none
before_quote (String.◌∷◌ c (String.◌∷◌ d s)) =
    Option.map (λ (t : String). String.◌∷◌ c t) (before_quote (String.◌∷◌ d s))

abbrev unquoted : String → Option String → String
unquoted s none = s
unquoted s (some t) = t

abbrev without_quotes : String → String
without_quotes String.[] = ""
without_quotes (String.◌∷◌ c s) =
    if code c == 34 then unquoted (String.◌∷◌ c s) (before_quote s) else String.◌∷◌ c s

-- unquote
unfoldable pub unquote : String → String
unquote value = without_quotes (without_weak (trim value))

-- `!etag || (!list.includes("*") && !list.includes(etag))`
abbrev misses : Option String → List String → Bool
misses none list = true
misses (some etag) list = not (contains list "*") && not (contains list etag)

-- `etag && (list.includes("*") || list.includes(etag))`
abbrev meets : Option String → List String → Bool
meets none list = false
meets (some etag) list = contains list "*" || contains list etag

abbrev unless_absent : Option (List String) → (List String → Bool) → Bool
unless_absent none test = false
unless_absent (some list) test = test (map unquote list)

-- preconditionHolds, over the ETag of the object that exists; dates are not used by the panel.
unfoldable pub precondition_holds : OnlyIf → Option String → Bool
precondition_holds always etag = true
precondition_holds (headers if_match if_none_match) etag =
    not (unless_absent (Option.map split_commas if_match) (misses etag))
    && not (unless_absent (Option.map split_commas if_none_match) (meets etag))
precondition_holds (conditional matches does_not_match) etag =
    not (unless_absent matches (misses etag)) && not (unless_absent does_not_match (meets etag))

abbrev pub text_of : List Entry → String → Option String
text_of [] key = none
text_of (e ∷ es) key = if str_eq e.key key then some e.text else text_of es key

abbrev pub store_text : List Entry → String → String → List Entry
store_text [] key text = record { key = key; text = text } ∷ []
store_text (e ∷ es) key text =
    if str_eq e.key key then record e { text = text } ∷ es else e ∷ store_text es key text

abbrev pub remove_text : List Entry → String → List Entry
remove_text [] key = []
remove_text (e ∷ es) key =
    let rest = remove_text es key in if str_eq e.key key then rest else e ∷ rest

-- What `get` and `put` return: the text and its ETag.
pub record Object : Type 0 where
  pub text : String
  pub etag : String

pub data Written : Type 0 where
  written : Object → Written
  refused : Written
  broke : Written

abbrev next_disk : List Disk → Disk
next_disk [] = fine
next_disk (d ∷ ds) = d

abbrev later_disks : List Disk → List Disk
later_disks [] = []
later_disks (d ∷ ds) = ds

module _ (md5 : String → String) where
  abbrev pub object_of : String → Object
  object_of text = record { text = text; etag = md5 text }

  -- `get(key)`
  unfoldable pub get_object : Bucket → String → Option Object
  get_object b key = Option.map object_of (text_of b.entries key)

  abbrev store_with : Disk → Bucket → String → String → Written × Bucket
  store_with fine b key text =
      (written (object_of text), record b { entries = store_text b.entries key text })
  store_with fails_before b key text = (broke, b)
  store_with fails_after b key text = (broke, record b { entries = store_text b.entries key text })

  -- `put(key, value, { onlyIf })`
  unfoldable pub put_object : Bucket → String → String → OnlyIf → Written × Bucket
  put_object b key text only_if =
      if not (precondition_holds only_if (Option.map md5 (text_of b.entries key)))
      then (refused, b)
      else store_with (next_disk b.faults) (record b { faults = later_disks b.faults }) key text

-- `delete(keys)`
unfoldable pub delete_objects : Bucket → List String → Bucket
delete_objects b [] = b
delete_objects b (key ∷ keys) =
    delete_objects (record b { entries = remove_text b.entries key }) keys
