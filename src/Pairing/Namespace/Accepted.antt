-- ===== src/Pairing/Namespace/Accepted.antt =====
-- Which events of a run were accepted, and how `fetch` passes on what its route answered.
-- One where the event is a request at `path` to `name` that was accepted.
use autoform_panel.Pairing.Store.Effects.{ok_reply}
use autoform_panel.Pairing.Store.{Reply}
use autoform_panel.Pairing.Storage.{threw, ok, Db, Outcome}
use autoform_panel.Pairing.Namespace.{caught, call, Event}
use autoform_panel.Prelude.{ℕ, String, ◌≡◌, refl, Bool, ◌&&◌, Option, some, str_eq, if◌then◌else◌}

abbrev pub accepted_at : String → String → Event → Option Reply → ℕ
accepted_at path name (call n ms request) (some r) =
    if str_eq n name && str_eq request.pathname path && r.accepted then 1 else 0
accepted_at path name _ _ = 0

abbrev pub one_if : Bool → ℕ
one_if b = if b then 1 else 0

pub caught-ok : (o : Outcome Reply × Db) → (caught o).0.accepted ≡ ok_reply o.0
caught-ok (ok r, db) = refl
caught-ok (threw, db) = refl

pub caught-db : (o : Outcome Reply × Db) → (caught o).1 ≡ o.1
caught-db (ok r, db) = refl
caught-db (threw, db) = refl
