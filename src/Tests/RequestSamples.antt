-- ===== src/Tests/RequestSamples.antt =====
-- Small requests.
use infer_twin.Base.{ℕ, String, none, some}
use infer_twin.Request.Simulation.{SimulationRequest}
use infer_twin.Tests.Samples.{abd}

-- eleven tokens in three blocks
abbrev pub request : String → ℕ → SimulationRequest
request id start = record {
  request_id = id;
  tenant_id = "t";
  instance_uuid = "i1";
  model = "m";
  service_start_time = 0;
  start_time_ms = start;
  tokenizer_profile = "p";
  prompt_tokens = 11;
  prompt_blocks = abd;
  kv_bytes_per_token = none;
  requested_block_size = none;
  runtime_block_size = none;
  effective_block_size = some 4;
  block_conversion_result = none;
}
