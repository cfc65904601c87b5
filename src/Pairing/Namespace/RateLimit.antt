-- ===== src/Pairing/Namespace/RateLimit.antt =====
-- Within one window a name accepts at most as many rate calls as its limit.
pub mod Steps
use autoform_panel.Pairing.Namespace.Accepted.{accepted_at}
use autoform_panel.Pairing.Namespace.RateLimit.Steps.{step-room, room, InWindow}
use autoform_panel.Pairing.Storage.{Db}
use autoform_panel.Pairing.Namespace.{step, Event}
use autoform_panel.Pairing.Messages.{Url}
use autoform_panel.Prelude.{ℕ, ◌+◌, ◌≤◌, String, Option, List, [], ◌∷◌, arith, All}

module _ (parse_url : String → Option Url) (name : String) where
  -- The rate calls of `name` that were accepted in a run.
  abbrev pub allowed : List Event → Db → ℕ
  allowed [] db = 0
  allowed (e ∷ es) db =
      accepted_at "/v1/rate" name e (step parse_url e db).0 + allowed es (step parse_url e db).1

module _ (parse_url : String → Option Url) (name : String) (limit start seconds : ℕ) where
  allowed-room :
      (es : List Event) (db : Db)
      → All (InWindow name limit start seconds) es
      → allowed parse_url name es db ≤ room name limit start seconds db
  allowed-room [] db h = omega arith
  allowed-room (e ∷ es) db (h, hs) = omega (
    arith,
    allowed-room es (step parse_url e db).1 hs,
    step-room parse_url name limit start seconds e db h,
  )

  -- In a run without sweeps, whose rate calls of the name all carry this limit and lie in the
  -- window that begins at `start`, no more of them are accepted than the limit.
  pub allowed-le-limit :
      (es : List Event) (db : Db)
      → All (InWindow name limit start seconds) es
      → allowed parse_url name es db ≤ limit
  allowed-le-limit es db h = omega (arith, allowed-room es db h)
