-- ===== src/Request/Simulation.antt =====
-- `SimulationRequest` of src/infertwin/instance/request.py. The two times are natural numbers.
use infer_twin.Base.{ℕ, String, List, Option}
use infer_twin.Cache.Conversion.{CacheBlockConversionResult}
use infer_twin.Request.Block.{PrefixBlock}

pub record SimulationRequest : Type 0 where
  pub request_id : String
  pub tenant_id : String
  pub instance_uuid : String
  pub model : String
  pub service_start_time : ℕ
  pub start_time_ms : ℕ
  pub tokenizer_profile : String
  pub prompt_tokens : ℕ
  pub prompt_blocks : List PrefixBlock
  pub kv_bytes_per_token : Option ℕ
  pub requested_block_size : Option ℕ
  pub runtime_block_size : Option ℕ
  pub effective_block_size : Option ℕ
  pub block_conversion_result : Option CacheBlockConversionResult
