-- ===== src/Streaming/Source/Laws.antt =====
-- A source gives its requests in order, or refuses the first that is out of order.
use infer_twin.Base.{
  ℕ, zero, suc, ◌+◌, Bool, true, false, ◌&&◌, ◌||◌, not, List, [], ◌∷◌, Option, none, some, Result,
  ok, raise, value_error, ◌>>=◌, ◌≡◌, refl, get_elem?, drop, length, Bool-cases, inl, inr,
  if◌then◌else◌,
}
use native.Mathlib.Nat.{suc-add}
use infer_twin.Request.Simulation.{SimulationRequest}
use infer_twin.Streaming.Source.{ListRequestSource, new_source, peek, unsorted, record_emitted, pop}

-- The requests of a source, popped until there is none; each turn pops one, so that the number of those
-- left is enough fuel.
unfoldable pub drain : (fuel : ℕ) → ListRequestSource → Result (List SimulationRequest)
drain zero s = ok []
drain (suc fuel) s = do p ← pop s; rest ← drain fuel p.1; ok (p.0 ∷ rest)

-- The requests come in the order of their replay, after the one emitted last.
abbrev pub in_order : Option SimulationRequest → List SimulationRequest → Bool
in_order last [] = true
in_order last (request ∷ requests) = not (unsorted last request) && in_order (some request) requests

drop-get :
    (i : ℕ) (l : List SimulationRequest) {r : SimulationRequest} {rest : List SimulationRequest}
    → drop i l ≡ r ∷ rest
    → (get_elem? l i ≡ some r) × (drop (i + 1) l ≡ rest)
drop-get zero [] h = cc
drop-get zero (x ∷ l) h = (cc, cc)
drop-get (suc i) [] h = cc
drop-get (suc i) (x ∷ l) h = rw (suc-add i 1) (drop-get i l h)

-- a pop of a request that is there
pop-next :
    (s : ListRequestSource) (request : SimulationRequest)
    → get_elem? s.requests s.index ≡ some request
    → pop s ≡ (
        if s.require_sorted && unsorted s.last_emitted request
        then raise value_error
        else ok (request, record s { index = s.index + 1; last_emitted = some request }))
unfolding pop peek record_emitted
pop-next s request h = elim (Bool-cases (s.require_sorted && unsorted s.last_emitted request)) [
  | inl refused ↦ rw (h, refused) refl
  | inr accepted ↦ rw (h, accepted) refl
]

-- One request before the others: the checks together.
one_more :
    (checked refused ordered : Bool) (request : SimulationRequest) (rest : List SimulationRequest)
    (s' : ListRequestSource) (first : Result (SimulationRequest × ListRequestSource))
    (later : ListRequestSource → Result (List SimulationRequest))
    → first ≡ (if checked && refused then raise value_error else ok (request, s'))
    → later s' ≡ (if not checked || ordered then ok rest else raise value_error)
    → (first >>= λ p. later p.1 >>= λ r. ok (p.0 ∷ r))
      ≡ (if not checked || (not refused && ordered) then ok (request ∷ rest) else raise value_error)
one_more false refused ordered request rest s' first later h h' = rw (h, h') refl
one_more true true ordered request rest s' first later h h' = rw h refl
one_more true false true request rest s' first later h h' = rw (h, h') refl
one_more true false false request rest s' first later h h' = rw (h, h') refl

abbrev nothing_more : Result (List SimulationRequest)
nothing_more = ok []

none_left :
    (checked : Bool) → nothing_more ≡ (if not checked || true then ok [] else raise value_error)
none_left true = refl
none_left false = refl

drain_lem :
    (rest : List SimulationRequest) (s : ListRequestSource)
    → drop s.index s.requests ≡ rest
    → drain (length rest) s ≡ (
        if not s.require_sorted || in_order s.last_emitted rest then ok rest else raise value_error)
unfolding drain
drain_lem [] s h = none_left s.require_sorted
drain_lem (request ∷ rest) s h =
    let (here, after) = drop-get s.index s.requests h in
    let s' = record s { index = s.index + 1; last_emitted = some request } in
    one_more s.require_sorted (unsorted s.last_emitted request) (in_order (some request) rest)
      request rest s' (pop s) (drain (length rest)) (pop-next s request here)
      (drain_lem rest s' after)

-- As many pops as there are requests give exactly the requests, in their order, if the source does not ask
-- for sorted ones or they are in the order of their replay; otherwise a pop raises ValueError.
pub drain-in_order :
    (requests : List SimulationRequest) (require_sorted : Bool)
    → drain (length requests) (new_source requests require_sorted)
      ≡ (if not require_sorted || in_order none requests then ok requests else raise value_error)
unfolding new_source
drain-in_order requests require_sorted =
    drain_lem requests
      (record {
        requests = requests;
        index = 0;
        last_emitted = none;
        require_sorted = require_sorted;
      })
      refl
