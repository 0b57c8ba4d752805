-- ===== src/Streaming/Codec.antt =====
-- src/infertwin/streaming/request_codec.py: requests as records of a shard, and back. The text of a
-- time, and that of a reason, are parameters.
pub mod Laws
use infer_twin.Base.{
  ℕ, String, str_eq, Bool, not, List, [], ◌∷◌, Option, none, some, Result, ok, raise, value_error,
  reject_if, ◌>>=◌, ◌>>◌, if◌then◌else◌,
}
use infer_twin.Cache.BlockSize.{UnsupportedReason}
use infer_twin.Cache.BlockSize.UnsupportedReason.{stated}
use infer_twin.Cache.Conversion.{CacheBlockConversionResult}
use infer_twin.Request.Block.{PrefixBlock}
use infer_twin.Request.Simulation.{SimulationRequest}
use infer_twin.Streaming.Fields.{
  required_str, optional_str, required_int, optional_int, required_number, required_list,
}
use infer_twin.Streaming.Json.{
  Json, null, flag, integer, real, text, array, object, Items, no_items, item, Fields, no_fields,
  field, get,
}

-- `STREAMING_REQUEST_SCHEMA_VERSION`
abbrev pub schema_version : String
schema_version = "infertwin.streaming.request.v1"

abbrev pub nullable_int : Option ℕ → Json
nullable_int none = null
nullable_int (some n) = integer n

abbrev pub nullable_text : Option String → Json
nullable_text none = null
nullable_text (some s) = text s

unfoldable pub encode_prefix_block : PrefixBlock → Json
encode_prefix_block block = object (
    field "block_key" (text block.block_key) (
      field "content_hash" (text block.content_hash) (
        field "block_index" (integer block.block_index) (
          field "token_count" (integer block.token_count)
            (field "size_bytes" (integer block.size_bytes) no_fields)))))

unfoldable pub encode_prefix_blocks : List PrefixBlock → Items
encode_prefix_blocks [] = no_items
encode_prefix_blocks (block ∷ blocks) =
    item (encode_prefix_block block) (encode_prefix_blocks blocks)

-- `_require_schema_version`
unfoldable pub version_differs : Json → Bool
version_differs (text s) = not (str_eq s schema_version)
version_differs _ = Bool.true

unfoldable pub decode_prefix_block : Json → Result PrefixBlock
decode_prefix_block (object fields) = do
  block_key ← required_str fields "block_key"
  content_hash ← required_str fields "content_hash"
  block_index ← required_int fields "block_index"
  token_count ← required_int fields "token_count"
  size_bytes ← required_int fields "size_bytes"
  ok (record {
    block_key = block_key;
    content_hash = content_hash;
    block_index = block_index;
    token_count = token_count;
    size_bytes = size_bytes;
  })
decode_prefix_block _ = raise value_error

unfoldable pub decode_prefix_blocks : Items → Result (List PrefixBlock)
decode_prefix_blocks no_items = ok []
decode_prefix_blocks (item value values) = do
  block ← decode_prefix_block value
  blocks ← decode_prefix_blocks values
  ok (block ∷ blocks)

-- The message of a reason: `message` for those that the program gives, the text itself of one read back.
abbrev pub reason_text : (UnsupportedReason → String) → UnsupportedReason → String
reason_text message (stated s) = s
reason_text message reason = message reason

abbrev pub stated_reason : Option String → Option UnsupportedReason
stated_reason none = none
stated_reason (some s) = some (stated s)

abbrev pub text_of_reason : (UnsupportedReason → String) → Option UnsupportedReason → Option String
text_of_reason message none = none
text_of_reason message (some reason) = some (reason_text message reason)

-- `asdict(result)`, or `None`
unfoldable pub encode_block_conversion_result :
    (UnsupportedReason → String) → Option CacheBlockConversionResult → Json
encode_block_conversion_result message none = null
encode_block_conversion_result message (some c) = object (
    field "requested_block_size" (integer c.requested_block_size) (
      field "runtime_block_size" (integer c.runtime_block_size) (
        field "effective_block_size" (integer c.effective_block_size) (
          field "max_cache_hit_length" (integer c.max_cache_hit_length) (
            field "max_matchable_blocks" (integer c.max_matchable_blocks) (
              field "matched_blocks" (integer c.matched_blocks) (
                field "speculative_drop_blocks" (integer c.speculative_drop_blocks) (
                  field "cached_blocks" (integer c.cached_blocks) (
                    field "cached_tokens" (integer c.cached_tokens) (
                      field "unsupported_reason"
                        (nullable_text (text_of_reason message c.unsupported_reason))
                        no_fields))))))))))

unfoldable pub decode_block_conversion_result : Json → Result (Option CacheBlockConversionResult)
decode_block_conversion_result null = ok none
decode_block_conversion_result (object fields) = do
  requested ← required_int fields "requested_block_size"
  runtime ← required_int fields "runtime_block_size"
  effective ← required_int fields "effective_block_size"
  hit_length ← required_int fields "max_cache_hit_length"
  matchable ← required_int fields "max_matchable_blocks"
  matched ← required_int fields "matched_blocks"
  dropped ← required_int fields "speculative_drop_blocks"
  cached_blocks ← required_int fields "cached_blocks"
  cached_tokens ← required_int fields "cached_tokens"
  reason ← optional_str fields "unsupported_reason"
  ok (
      some (record {
        requested_block_size = requested;
        runtime_block_size = runtime;
        effective_block_size = effective;
        max_cache_hit_length = hit_length;
        max_matchable_blocks = matchable;
        matched_blocks = matched;
        speculative_drop_blocks = dropped;
        cached_blocks = cached_blocks;
        cached_tokens = cached_tokens;
        unsupported_reason = stated_reason reason;
      }))
decode_block_conversion_result _ = raise value_error

-- `isoformat` and `fromisoformat` are the methods of `datetime`; `none` is its ValueError.
module _ (isoformat : ℕ → String) (message : UnsupportedReason → String) where
  unfoldable pub encode_simulation_request : SimulationRequest → Fields
  encode_simulation_request r = field "schema_version" (text schema_version) (
      field "request_id" (text r.request_id) (
        field "tenant_id" (text r.tenant_id) (
          field "instance_uuid" (text r.instance_uuid) (
            field "model" (text r.model) (
              field "service_start_time" (text (isoformat r.service_start_time)) (
                field "start_time_ms" (real r.start_time_ms) (
                  field "tokenizer_profile" (text r.tokenizer_profile) (
                    field "prompt_tokens" (integer r.prompt_tokens) (
                      field "prompt_blocks" (array (encode_prefix_blocks r.prompt_blocks)) (
                        field "kv_bytes_per_token" (nullable_int r.kv_bytes_per_token) (
                          field "requested_block_size" (nullable_int r.requested_block_size) (
                            field "runtime_block_size" (nullable_int r.runtime_block_size) (
                              field "effective_block_size" (nullable_int r.effective_block_size) (
                                field "block_conversion_result"
                                  (encode_block_conversion_result message r.block_conversion_result)
                                  no_fields))))))))))))))

abbrev pub parsed_time : Option ℕ → Result ℕ
parsed_time none = raise value_error
parsed_time (some t) = ok t

module _ (fromisoformat : String → Option ℕ) where
  unfoldable pub decode_datetime : Fields → String → Result ℕ
  decode_datetime fields key = do value ← required_str fields key; parsed_time (fromisoformat value)

  unfoldable pub decode_simulation_request : Fields → Result SimulationRequest
  decode_simulation_request fields = do
    reject_if (version_differs (get fields "schema_version"))
    request_id ← required_str fields "request_id"
    tenant_id ← required_str fields "tenant_id"
    instance_uuid ← required_str fields "instance_uuid"
    model ← required_str fields "model"
    service_start_time ← decode_datetime fields "service_start_time"
    start_time_ms ← required_number fields "start_time_ms"
    tokenizer_profile ← required_str fields "tokenizer_profile"
    prompt_tokens ← required_int fields "prompt_tokens"
    values ← required_list fields "prompt_blocks"
    prompt_blocks ← decode_prefix_blocks values
    kv_bytes_per_token ← optional_int fields "kv_bytes_per_token"
    requested_block_size ← optional_int fields "requested_block_size"
    runtime_block_size ← optional_int fields "runtime_block_size"
    effective_block_size ← optional_int fields "effective_block_size"
    conversion ← decode_block_conversion_result (get fields "block_conversion_result")
    ok (record {
      request_id = request_id;
      tenant_id = tenant_id;
      instance_uuid = instance_uuid;
      model = model;
      service_start_time = service_start_time;
      start_time_ms = start_time_ms;
      tokenizer_profile = tokenizer_profile;
      prompt_tokens = prompt_tokens;
      prompt_blocks = prompt_blocks;
      kv_bytes_per_token = kv_bytes_per_token;
      requested_block_size = requested_block_size;
      runtime_block_size = runtime_block_size;
      effective_block_size = effective_block_size;
      block_conversion_result = conversion;
    })

  -- `decode_simulation_request_line`; `loads` is that of `json`, and `none` its JSONDecodeError.
  decoded_record : Option Json → Result SimulationRequest
  unfolding decode_simulation_request
  decoded_record (some (object fields)) = decode_simulation_request fields
  decoded_record _ = raise value_error

  unfoldable pub decode_simulation_request_line :
      (loads : String → Option Json) → String → Result SimulationRequest
  unfolding decoded_record
  decode_simulation_request_line loads line = decoded_record (loads line)
