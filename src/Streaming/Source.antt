-- ===== src/Streaming/Source.antt =====
-- `ListRequestSource` of src/infertwin/streaming/source.py: the requests of a list, one after the other,
-- checked to come in the order of their replay. UnsortedRequestSourceError is a ValueError.
pub mod Laws
use infer_twin.Base.{
  ℕ, ◌+◌, Bool, false, ◌&&◌, not, List, [], ◌∷◌, Option, none, some, Result, ok, raise, index_error,
  reject_if, ◌>>=◌, ◌>>◌, get_elem?,
}
use infer_twin.Request.Arrival.{arrives_before}
use infer_twin.Request.Simulation.{SimulationRequest}

-- `last_emitted` is the request whose key was emitted last.
pub record ListRequestSource : Type 0 where
  pub requests : List SimulationRequest
  pub index : ℕ
  pub last_emitted : Option SimulationRequest
  pub require_sorted : Bool

unfoldable pub new_source : List SimulationRequest → Bool → ListRequestSource
new_source requests require_sorted = record {
  requests = requests;
  index = 0;
  last_emitted = none;
  require_sorted = require_sorted;
}

unfoldable pub peek : ListRequestSource → Option SimulationRequest
peek s = get_elem? s.requests s.index

-- `_guard_sorted`: whether `current_key < previous_key`
abbrev pub unsorted : Option SimulationRequest → SimulationRequest → Bool
unsorted none current = false
unsorted (some previous) current = not (arrives_before previous current)

-- `_record_emitted`
unfoldable pub record_emitted : SimulationRequest → ListRequestSource → Result ListRequestSource
record_emitted request s = do
  reject_if (s.require_sorted && unsorted s.last_emitted request)
  ok (record s { last_emitted = some request })

-- `pop`, behind `peek`
abbrev pub pop_peeked :
    Option SimulationRequest → ListRequestSource → Result (SimulationRequest × ListRequestSource)
pop_peeked none s = raise index_error
pop_peeked (some request) s = do
  s' ← record_emitted request (record s { index = s.index + 1 })
  ok (request, s')

unfoldable pub pop : ListRequestSource → Result (SimulationRequest × ListRequestSource)
pop s = pop_peeked (peek s) s
