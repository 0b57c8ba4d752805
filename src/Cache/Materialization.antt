-- ===== src/Cache/Materialization.antt =====
-- src/infertwin/cache/materialization.py: which computed blocks become visible to lookups, and when.
-- The tokens computed before a chunk are an option: `none` is the -1 of a finished request.
-- `cache.materialize` is a parameter: a cache is behind the protocol `PrefixCache`.
pub mod Laws
use infer_twin.Base.Dict.{contains, lookup, insert}
use infer_twin.Base.{
  ℕ, ◌+◌, String, Bool, true, false, ◌&&◌, ◌||◌, not, List, [], ◌∷◌, ◌++◌, Option, none, some,
  Result, ok, raise, value_error, reject_if, ◌>>=◌, ◌>>◌, if◌then◌else◌, leb, ltb, ◌==◌, length,
}
use infer_twin.Request.Block.{PrefixBlock, tokens}

pub data MaterializationPolicy : Type 0 where
  finish_time progressive_full_block : MaterializationPolicy

-- `supports_progressive_chunks`
unfoldable pub supports_progressive_chunks : MaterializationPolicy → Bool
supports_progressive_chunks finish_time = false
supports_progressive_chunks progressive_full_block = true

-- `_block_end_tokens_by_key`, from a cursor on
unfoldable pub block_end_tokens_from : ℕ → List (String × ℕ) → List PrefixBlock → List (String × ℕ)
block_end_tokens_from cursor ends [] = ends
block_end_tokens_from cursor ends (b ∷ bs) =
    block_end_tokens_from (cursor + b.token_count)
      (insert b.block_key (cursor + b.token_count) ends) bs

unfoldable pub block_end_tokens_by_key : List PrefixBlock → List (String × ℕ)
unfolding block_end_tokens_from
block_end_tokens_by_key blocks = block_end_tokens_from 0 [] blocks

-- `computed_tokens_before < block_end_token`
unfoldable pub is_after : Option ℕ → ℕ → Bool
is_after none end = true
is_after (some before) end = ltb before end

-- `computed_tokens_before > computed_tokens_after`
unfoldable pub is_reversed : Option ℕ → ℕ → Bool
is_reversed none after = false
is_reversed (some before) after = ltb after before

-- The loop over the blocks, behind the keys that it passes over.
unfoldable pub select_loop :
    (block_size : ℕ) (before : Option ℕ) (after : ℕ) (ends : List (String × ℕ))
    (already selected_keys : List String)
    → List PrefixBlock
    → Result (List PrefixBlock)
unfolding is_after
select_loop block_size before after ends already selected_keys [] = ok []
select_loop block_size before after ends already selected_keys (b ∷ bs) =
    elim (contains b.block_key already
      || (contains b.block_key selected_keys || not (b.token_count == block_size))) [
        | true ↦ select_loop block_size before after ends already selected_keys bs
        | false ↦ elim (lookup b.block_key ends) [
          | none ↦ raise value_error
          | some end ↦ elim (is_after before end && leb end after) [
            | false ↦ select_loop block_size before after ends already selected_keys bs
            | true ↦ do
              rest ←
                  select_loop block_size before after ends already (b.block_key ∷ selected_keys) bs
              ok (b ∷ rest)
          ]
        ]
      ]

-- `_select_newly_completed_full_blocks`
unfoldable pub select_newly_completed_full_blocks :
    (blocks prompt_blocks : List PrefixBlock) (block_size : ℕ) (before : Option ℕ) (after : ℕ)
    (already : List String)
    → Result (List PrefixBlock)
unfolding select_loop block_end_tokens_by_key is_reversed
select_newly_completed_full_blocks [] prompt_blocks block_size before after already = ok []
select_newly_completed_full_blocks (b ∷ bs) prompt_blocks block_size before after already = do
  reject_if (leb block_size 0)
  reject_if (is_reversed before after)
  select_loop block_size before after (block_end_tokens_by_key prompt_blocks) already [] (b ∷ bs)

module _ {ℓ} {C : Type ℓ}
    (materialize : (now_ms : ℕ) (request_id instance_uuid reason : String)
      → List PrefixBlock
      → C
      → Result C) where
  unfoldable pub materialize_scheduled_chunk :
      MaterializationPolicy
      → (blocks prompt_blocks : List PrefixBlock) → (block_size before after chunk_finish_time : ℕ)
      → (request_id instance_uuid : String) → (already : List String) → C
      → Result (List PrefixBlock × C)
  unfolding select_newly_completed_full_blocks
  materialize_scheduled_chunk finish_time blocks prompt_blocks block_size before after time
        request_id instance_uuid already c =
      ok ([], c)
  materialize_scheduled_chunk progressive_full_block blocks prompt_blocks block_size before after
        time request_id instance_uuid already c =
      do
        selected ←
            select_newly_completed_full_blocks blocks prompt_blocks block_size (some before) after
              already
        c' ←
            materialize time request_id instance_uuid "progressive_chunk_materialization" selected c
        ok (selected, c')

  unfoldable pub materialize_finished_request :
      MaterializationPolicy
      → (blocks prompt_blocks : List PrefixBlock) → (block_size finish_time : ℕ)
      → (request_id instance_uuid : String) → (already : List String) → C
      → Result (List PrefixBlock × C)
  unfolding select_newly_completed_full_blocks
  materialize_finished_request finish_time blocks prompt_blocks block_size time request_id
        instance_uuid already c =
      do
        c' ← materialize time request_id instance_uuid "finish_time_materialization" blocks c
        ok (blocks, c')
  materialize_finished_request progressive_full_block [] prompt_blocks block_size time request_id
        instance_uuid already c =
      ok ([], c)
  materialize_finished_request progressive_full_block (b ∷ bs) prompt_blocks block_size time
        request_id instance_uuid already c =
      do
        selected ←
            select_newly_completed_full_blocks (b ∷ bs) prompt_blocks block_size none
              (tokens prompt_blocks) already
        c' ←
            materialize time request_id instance_uuid "progressive_chunk_materialization" selected c
        ok (selected, c')
