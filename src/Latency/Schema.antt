-- ===== src/Latency/Schema.antt =====
-- src/infertwin/latency/schema.py: the key under which a latency is remembered, and the latency.
use infer_twin.Base.{ℕ, String, Bool, ◌&&◌, List, str_eq, ◌==◌}
use infer_twin.Scheduler.BatchShape.{
  BatchShape, batch_size, scheduled_prefill_tokens, max_query_len, total_context_tokens,
  kv_load_tokens, kv_load_bytes, kv_load_request_count,
}

pub record ShapeKey : Type 0 where
  pub backend : String
  pub model_name : String
  pub hardware_name : String
  pub batch_size : ℕ
  pub scheduled_prefill_tokens : ℕ
  pub scheduled_decode_tokens : ℕ
  pub max_query_len : ℕ
  pub total_context_tokens : ℕ
  pub kv_load_tokens : ℕ
  pub kv_load_bytes : ℕ
  pub kv_load_request_count : ℕ

-- `from_shape`
unfoldable pub from_shape : (backend model_name hardware_name : String) → BatchShape → ShapeKey
from_shape backend model_name hardware_name shape = record {
  backend = backend;
  model_name = model_name;
  hardware_name = hardware_name;
  batch_size = batch_size shape;
  scheduled_prefill_tokens = scheduled_prefill_tokens shape;
  scheduled_decode_tokens = shape.scheduled_decode_tokens;
  max_query_len = max_query_len shape;
  total_context_tokens = total_context_tokens shape;
  kv_load_tokens = kv_load_tokens shape;
  kv_load_bytes = kv_load_bytes shape;
  kv_load_request_count = kv_load_request_count shape;
}

-- `==` of two keys, field by field
unfoldable pub key_eq : ShapeKey → ShapeKey → Bool
key_eq a b =
    str_eq a.backend b.backend
    && (str_eq a.model_name b.model_name
        && (str_eq a.hardware_name b.hardware_name
            && (a.batch_size == b.batch_size
                && (a.scheduled_prefill_tokens == b.scheduled_prefill_tokens
                    && (a.scheduled_decode_tokens == b.scheduled_decode_tokens
                        && (a.max_query_len == b.max_query_len
                            && (a.total_context_tokens == b.total_context_tokens
                                && (a.kv_load_tokens == b.kv_load_tokens
                                    && (a.kv_load_bytes == b.kv_load_bytes
                                        && (a.kv_load_request_count
                                            == b.kv_load_request_count))))))))))

-- A value of `details`: a number, of which the sign matters, a text or a truth value.
pub data Detail : Type 0 where
  amount : ℕ → Detail
  negative : ℕ → Detail
  text : String → Detail
  flag : Bool → Detail

pub record LatencyResult : Type 0 where
  pub duration_ms : ℕ
  pub backend : String
  pub shape_key : ShapeKey
  pub memoized : Bool
  pub details : List (String × Detail)
