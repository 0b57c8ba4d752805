-- ===== src/Tests/RequestRuns.antt =====
-- The theorems on the blocks, the encoding and the order of requests, applied.
use infer_twin.Base.{
  ℕ, ◌+◌, ◌*◌, String, List, [], ◌∷◌, Option, none, some, ok, ◌≡◌, refl, arith, true, length, take,
  sum_by, inl, inr, str_eq, ◌==◌, if◌then◌else◌, value_error, raise, not, ◌||◌,
}
use infer_twin.Cache.BlockSize.{UnsupportedReason}
use infer_twin.Request.Block.{PrefixBlock, tokens}
use infer_twin.Request.Hasher.Laws.{Cut, build_prefix_blocks-Cut, build_prefix_blocks-shared}
use infer_twin.Request.Hasher.{Field, parent_digest, text_field, token_field, build_prefix_blocks}
use infer_twin.Streaming.Codec.Laws.{decode-encode, reread}
use infer_twin.Streaming.Codec.{encode_simulation_request, decode_simulation_request}
use infer_twin.Streaming.Source.Laws.{drain, in_order, drain-in_order}
use infer_twin.Streaming.Source.{new_source}
use infer_twin.Tests.RequestSamples.{request}

-- a digest that adds up what it is given
abbrev field_number : Field ℕ → ℕ
field_number (parent_digest n) = 2 * n
field_number (text_field s) = 1
field_number (token_field n) = n + 1

abbrev digest : List (Field ℕ) → ℕ
digest fields = sum_by field_number fields

abbrev hex : ℕ → String
hex n = if n == 0 then "0" else "1"

abbrev prompt : List ℕ
prompt = 5 ∷ 6 ∷ 7 ∷ []

build_prefix_blocks-Cut_example :
    (blocks : List PrefixBlock) × (build_prefix_blocks digest hex 0 prompt 2 "m" "t" none
        "model_shared"
      ≡ ok blocks)
    × Cut 2 0 (length prompt) blocks
    × (tokens blocks ≡ length prompt)
build_prefix_blocks-Cut_example =
    build_prefix_blocks-Cut digest hex 0 2 "m" "t" "model_shared" none prompt (omega arith)
      (inr refl)

build_prefix_blocks-shared_example :
    (blocks blocks' : List PrefixBlock) × (build_prefix_blocks digest hex 0 prompt 2 "m" "t" none
        "tenant_isolated"
      ≡ ok blocks)
    × (build_prefix_blocks digest hex 0 (5 ∷ 6 ∷ 8 ∷ 9 ∷ []) 2 "m" "t" none "tenant_isolated"
        ≡ ok blocks')
    × (take 1 blocks ≡ take 1 blocks')
build_prefix_blocks-shared_example =
    build_prefix_blocks-shared digest hex 0 2 "m" "t" "tenant_isolated" none 1 prompt
      (5 ∷ 6 ∷ 8 ∷ 9 ∷ []) (omega arith) (inl refl) (omega arith) (omega arith) refl

abbrev isoformat : ℕ → String
isoformat t = "1970-01-01T00:00:00"

abbrev fromisoformat : String → Option ℕ
fromisoformat s = if str_eq s "1970-01-01T00:00:00" then some 0 else none

abbrev message : UnsupportedReason → String
message reason = "unsupported"

decode-encode_example :
    decode_simulation_request fromisoformat
      (encode_simulation_request isoformat message (request "r1" 3))
    ≡ ok (reread message (request "r1" 3))
decode-encode_example =
    decode-encode isoformat fromisoformat message (request "r1" 3) refl refl (record {
      request_id = refl;
      tenant_id = refl;
      instance_uuid = refl;
      model = refl;
      tokenizer_profile = refl;
      blocks = ((refl, refl), ((refl, refl), ((refl, refl), tt)));
      conversion = tt;
    })

drain-in_order_example :
    drain
      (length (request "r1" 3 ∷ request "r2" 3 ∷ []))
      (new_source (request "r1" 3 ∷ request "r2" 3 ∷ []) true)
    ≡ (if not true || in_order none (request "r1" 3 ∷ request "r2" 3 ∷ [])
        then ok (request "r1" 3 ∷ request "r2" 3 ∷ [])
        else raise value_error)
drain-in_order_example = drain-in_order (request "r1" 3 ∷ request "r2" 3 ∷ []) true
