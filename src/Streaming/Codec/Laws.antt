-- ===== src/Streaming/Codec/Laws.antt =====
-- A request that is encoded and decoded is the request again.
use infer_twin.Base.{
  ℕ, String, str_eq, false, List, [], ◌∷◌, Option, none, some, ok, All, ◌≡◌, refl,
}
use infer_twin.Cache.BlockSize.{UnsupportedReason}
use infer_twin.Cache.Conversion.{CacheBlockConversionResult}
use infer_twin.Request.Block.{PrefixBlock}
use infer_twin.Request.Simulation.{SimulationRequest}
use infer_twin.Streaming.Codec.{
  reason_text, text_of_reason, stated_reason, nullable_int, nullable_text, encode_prefix_block,
  decode_prefix_block, encode_prefix_blocks, decode_prefix_blocks, encode_block_conversion_result,
  decode_block_conversion_result, encode_simulation_request, decode_simulation_request,
  decode_datetime, version_differs,
}
use infer_twin.Streaming.Fields.{
  required_text, optional_text, optional_integer, required_str, optional_str, required_int,
  optional_int, required_number, required_list,
}
use infer_twin.Streaming.Json.{text, get}

abbrev pub Filled : String → Type 0
Filled s = str_eq s "" ≡ false

required_text-Filled : (s : String) → Filled s → required_text (text s) ≡ ok s
required_text-Filled s h = rw h refl

optional_integer-nullable_int : (n : Option ℕ) → optional_integer (nullable_int n) ≡ ok n
optional_integer-nullable_int none = refl
optional_integer-nullable_int (some n) = refl

abbrev pub FilledBlock : PrefixBlock → Type 0
FilledBlock b = Filled b.block_key × Filled b.content_hash

block-roundtrip :
    (b : PrefixBlock) → FilledBlock b → decode_prefix_block (encode_prefix_block b) ≡ ok b
unfolding decode_prefix_block encode_prefix_block required_str required_int get
block-roundtrip b (h, c) = simp (h, c)

blocks-roundtrip :
    (bs : List PrefixBlock)
    → All FilledBlock bs
    → decode_prefix_blocks (encode_prefix_blocks bs) ≡ ok bs
unfolding decode_prefix_blocks encode_prefix_blocks
blocks-roundtrip [] h = refl
blocks-roundtrip (b ∷ bs) (h, hs) = rw (block-roundtrip b h, blocks-roundtrip bs hs) refl

-- the same result, with its reason as the text that stands in the record
abbrev pub restated :
    (UnsupportedReason → String) → CacheBlockConversionResult → CacheBlockConversionResult
restated message c = record c {
  unsupported_reason = stated_reason (text_of_reason message c.unsupported_reason);
}

abbrev pub restated_optional :
    (UnsupportedReason → String)
    → Option CacheBlockConversionResult
    → Option CacheBlockConversionResult
restated_optional message none = none
restated_optional message (some c) = some (restated message c)

abbrev pub FilledReason : (UnsupportedReason → String) → Option UnsupportedReason → Type 0
FilledReason message none = Unit
FilledReason message (some reason) = Filled (reason_text message reason)

abbrev pub FilledConversion :
    (UnsupportedReason → String) → Option CacheBlockConversionResult → Type 0
FilledConversion message none = Unit
FilledConversion message (some c) = FilledReason message c.unsupported_reason

reason-roundtrip :
    (message : UnsupportedReason → String) (reason : Option UnsupportedReason)
    → FilledReason message reason
    → optional_text (nullable_text (text_of_reason message reason))
      ≡ ok (text_of_reason message reason)
reason-roundtrip message none h = refl
reason-roundtrip message (some reason) h = rw h refl

conversion-roundtrip :
    (message : UnsupportedReason → String) (c : Option CacheBlockConversionResult)
    → FilledConversion message c
    → decode_block_conversion_result (encode_block_conversion_result message c)
      ≡ ok (restated_optional message c)
unfolding decode_block_conversion_result encode_block_conversion_result required_int optional_str
    get
conversion-roundtrip message none h = refl
conversion-roundtrip message (some c) h = rw (reason-roundtrip message c.unsupported_reason h) refl

-- No text of the request is empty.
pub record FilledRequest (message : UnsupportedReason → String) (r : SimulationRequest)
    : Type 0 where
  pub request_id : Filled r.request_id
  pub tenant_id : Filled r.tenant_id
  pub instance_uuid : Filled r.instance_uuid
  pub model : Filled r.model
  pub tokenizer_profile : Filled r.tokenizer_profile
  pub blocks : All FilledBlock r.prompt_blocks
  pub conversion : FilledConversion message r.block_conversion_result

-- the request as it is read back
abbrev pub reread : (UnsupportedReason → String) → SimulationRequest → SimulationRequest
reread message r = record r {
  block_conversion_result = restated_optional message r.block_conversion_result;
}

module _ (isoformat : ℕ → String) (fromisoformat : String → Option ℕ)
    (message : UnsupportedReason → String) where
  -- Where the text of a request's time is not empty and is parsed back, and no other text of it is empty,
  -- the request is decoded from its encoding: no exception is raised, and each field is what was
  -- encoded, the reason of an unsupported conversion being its message.
  pub decode-encode :
      (r : SimulationRequest)
      → fromisoformat (isoformat r.service_start_time) ≡ some r.service_start_time
      → Filled (isoformat r.service_start_time)
      → FilledRequest message r
      → decode_simulation_request fromisoformat (encode_simulation_request isoformat message r)
        ≡ ok (reread message r)
  unfolding decode_simulation_request encode_simulation_request required_str required_int
      optional_int required_number required_list decode_datetime version_differs get
  decode-encode r parsed filled f =
      rw
        (
          f.request_id,
          f.tenant_id,
          f.instance_uuid,
          f.model,
          filled,
          parsed,
          f.tokenizer_profile,
          blocks-roundtrip r.prompt_blocks f.blocks,
          optional_integer-nullable_int r.kv_bytes_per_token,
          optional_integer-nullable_int r.requested_block_size,
          optional_integer-nullable_int r.runtime_block_size,
          optional_integer-nullable_int r.effective_block_size,
          conversion-roundtrip message r.block_conversion_result f.conversion,
        )
        refl
