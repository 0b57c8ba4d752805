-- ===== src/Replay/EventLoop/Waits/Waiters.antt =====
-- Who waits for an iteration, and what is added to the waits.
use infer_twin.Base.{Bool, true, if◌then◌else◌, ℕ, zero, suc, ◌+◌, String, List, [], ◌∷◌}
use infer_twin.Base.Dict.{contains}
use infer_twin.Scheduler.State.{RequestState, is_finished}

-- What the attribution goes by: the name of each request, and whether it is finished.
abbrev pub View : Type 0
View = List (String × Bool)

abbrev pub view : RequestState → String × Bool
view s = (s.request_id, is_finished s.status)

abbrev pub view_at : ℕ → View → String × Bool
view_at a [] = ("", true)
view_at zero (v ∷ views) = v
view_at (suc a) (v ∷ views) = view_at a views

-- the addresses at which a name stands for the first time
abbrev pub firsts : (seen : List String) → List ℕ → View → List ℕ
firsts seen [] views = []
firsts seen (a ∷ active) views =
    let rest = firsts ((view_at a views).0 ∷ seen) active views in
    if contains (view_at a views).0 seen then rest else a ∷ rest

-- the addresses of requests that are neither finished nor in the batch
abbrev pub outside : (scheduled : List String) → List ℕ → View → List ℕ
outside scheduled [] views = []
outside scheduled (a ∷ active) views =
    let rest = outside scheduled active views in
    if (view_at a views).1
    then rest
    else if contains (view_at a views).0 scheduled
    then rest
    else a ∷ rest

-- Who waits: of each name the first request, if it is neither finished nor in the batch.
abbrev pub waiters : (scheduled seen : List String) → List ℕ → View → List ℕ
waiters scheduled seen active views = outside scheduled (firsts seen active views) views

-- one more wait at an address, and at each of some addresses
abbrev pub add_wait : (duration a : ℕ) → List RequestState → List RequestState
add_wait duration a [] = []
add_wait duration zero (s ∷ states) =
    record s { compute_wait_ms = s.compute_wait_ms + duration } ∷ states
add_wait duration (suc a) (s ∷ states) = s ∷ add_wait duration a states

abbrev pub add_waits : (duration : ℕ) → List ℕ → List RequestState → List RequestState
add_waits duration [] states = states
add_waits duration (a ∷ ws) states = add_waits duration ws (add_wait duration a states)
