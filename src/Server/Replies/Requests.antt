-- ===== src/Server/Replies/Requests.antt =====
-- server.py: which handler got which requests over a run, and when a list of responses is up to date
-- with them.
use dist_res_engine.Base.{
  ℕ, ◌≤◌, ◌≡◌, refl, sym, Bool, true, false, not, ◌&&◌, List, [], ◌∷◌, ◌++◌, arith, length,
  if◌then◌else◌, nat_eq, ◌==◌, string_eq,
}
use mathlib.Core.List.{append-nil}
use dist_res_engine.Protocol.{message}
use dist_res_engine.Protocol.Wire.{Json, obj}
use dist_res_engine.Server.World.{World}
use dist_res_engine.Server.Events.{Event, connects, receives, step}
use dist_res_engine.Server.Replies.{is_request, id_of}

-- The ids of the requests that handler `h` has got since it was connected, with those of one event.
unfoldable pub note : ℕ → Event → World → List Json → List Json
note h (connects g address) w ids = if not (w.handlers g).is_running && g == h then [] else ids
note h (receives g (message (obj m))) w ids =
    if (is_request m && (w.handlers g).is_running) && g == h then ids ++ id_of m ∷ [] else ids
note h _ w ids = ids

unfoldable pub requests : ℕ → List Event → World → List Json → List Json
requests h [] w ids = ids
requests h (e ∷ es) w ids = requests h es (step e w) (note h e w ids)

-- All requests have been answered, but for the last one where the handler has ended.
unfoldable pub IsUpToDate : List Json → List Json × Bool → Type 0
IsUpToDate ids (answered, running) =
    (rest : List Json) × (ids ≡ answered ++ rest) × (length rest ≤ 1) × (running ≡ true → rest ≡ [])

-- The request has been answered, and the handler goes on.
pub answered-IsUpToDate :
    (b : Bool) (i : Json) (ids answered : List Json) (running : Bool)
    → (b ≡ true → running ≡ true)
    → IsUpToDate ids (answered, running)
    → IsUpToDate
        (if b then ids ++ i ∷ [] else ids)
        (if b then answered ++ i ∷ [] else answered, running)
unfolding IsUpToDate
answered-IsUpToDate false i ids answered running r u = u
answered-IsUpToDate true i ids answered running r (rest, e, l, none) = (
  [],
  rw (e, none (r refl), append-nil answered) (sym (append-nil (answered ++ i ∷ []))),
  omega arith,
  λ _. refl,
)

-- A handler has ended, behind its answer to the request or in front of it.
pub ended-IsUpToDate :
    (b : Bool) (i : Json) (ids answered : List Json) (running : Bool)
    → (b ≡ true → running ≡ true)
    → IsUpToDate ids (answered, running)
    → IsUpToDate
        (if b then ids ++ i ∷ [] else ids)
        (if b then answered ++ i ∷ [] else answered, if b then false else running)
      × IsUpToDate (if b then ids ++ i ∷ [] else ids) (answered, if b then false else running)
      × IsUpToDate ids (answered, if b then false else running)
unfolding IsUpToDate
ended-IsUpToDate false i ids answered running r u = (u, u, u)
ended-IsUpToDate true i ids answered running r (rest, e, l, none) = (
  (
    [],
    rw (e, none (r refl), append-nil answered) (sym (append-nil (answered ++ i ∷ []))),
    omega arith,
    λ _. refl,
  ),
  (i ∷ [], rw (e, none (r refl), append-nil answered) refl, omega arith, λ f. cc),
  (rest, e, l, λ f. cc),
)
