-- ===== src/Request/Arrival.antt =====
-- The order in which requests are replayed: by the time of their arrival, and then by their name.
use infer_twin.Base.Order.{str_le}
use infer_twin.Base.{Bool, ◌&&◌, ◌||◌, ltb, ◌==◌}
use infer_twin.Request.Simulation.{SimulationRequest}

-- `key(a) <= key(b)` of the keys `(start_time_ms, request_id)`
abbrev pub arrives_before : SimulationRequest → SimulationRequest → Bool
arrives_before a b =
    ltb a.start_time_ms b.start_time_ms
    || (a.start_time_ms == b.start_time_ms && str_le a.request_id b.request_id)
