-- ===== src/Scheduler/State/Materialized.antt =====
-- Which blocks a request has materialized while it was computed.
use infer_twin.Base.Dict.{contains}
use infer_twin.Base.{
  ◌+◌, String, Bool, true, false, List, [], ◌∷◌, ◌++◌, arith, ◌≡◌, refl, length, sum_by,
  append_assoc, append-nil, sym, ◌∙◌,
}
use infer_twin.Request.Block.{PrefixBlock, block_keys}
use infer_twin.Scheduler.State.{RequestState, record_progressive_materialization}

-- The blocks of which the keys are new, each key once: what has to be recorded.
unfoldable pub new_blocks : List String → List PrefixBlock → List PrefixBlock
new_blocks seen [] = []
new_blocks seen (b ∷ bs) = elim (contains b.block_key seen) [
  | true ↦ new_blocks seen bs
  | false ↦ b ∷ new_blocks (seen ++ b.block_key ∷ []) bs
]

-- What recording blocks makes of a request.
pub record Recorded (r : RequestState) (recorded : List PrefixBlock) (r' : RequestState)
    : Type 0 where
  pub keys :
      r'.progressive_materialized_block_keys
      ≡ r.progressive_materialized_block_keys ++ block_keys recorded
  pub blocks :
      r'.progressive_materialized_blocks ≡ r.progressive_materialized_blocks + length recorded
  pub tokens :
      r'.progressive_materialized_tokens
      ≡ r.progressive_materialized_tokens + sum_by (λ b. b.token_count) recorded

-- the request with one block more
abbrev with_block : PrefixBlock → RequestState → RequestState
with_block b r = record r {
  progressive_materialized_block_keys = r.progressive_materialized_block_keys ++ b.block_key ∷ [];
  progressive_materialized_blocks = r.progressive_materialized_blocks + 1;
  progressive_materialized_tokens = r.progressive_materialized_tokens + b.token_count;
}

Recorded-cons :
    (b : PrefixBlock) (r r' : RequestState) (recorded : List PrefixBlock)
    → Recorded (with_block b r) recorded r'
    → Recorded r (b ∷ recorded) r'
Recorded-cons b r r' recorded h =
    let more_blocks = h.blocks in
    let more_tokens = h.tokens in
    record {
      keys =
          h.keys
          ∙ append_assoc r.progressive_materialized_block_keys (b.block_key ∷ [])
              (block_keys recorded);
      blocks = omega (arith, more_blocks);
      tokens = omega (arith, more_tokens);
    }

abbrev RecordedAll : List PrefixBlock → RequestState → Type 0
RecordedAll bs r =
    (r' : RequestState) × (record_progressive_materialization bs r
      ≡ (new_blocks r.progressive_materialized_block_keys bs, r'))
    × Recorded r (new_blocks r.progressive_materialized_block_keys bs) r'

record-turn :
    (b : PrefixBlock) (bs : List PrefixBlock) (r : RequestState) (known : Bool)
    → contains b.block_key r.progressive_materialized_block_keys ≡ known
    → RecordedAll bs r
    → RecordedAll bs (with_block b r)
    → RecordedAll (b ∷ bs) r
unfolding record_progressive_materialization new_blocks
record-turn b bs r true e (r', same, h) rest =
    let k : new_blocks r.progressive_materialized_block_keys (b ∷ bs)
        ≡ new_blocks r.progressive_materialized_block_keys bs =
      rw (e, new_blocks) refl in
    (r', rw (e, record_progressive_materialization, same, new_blocks) refl, rw k h)
record-turn b bs r false e rest (r', same, h) =
    let more = r.progressive_materialized_block_keys ++ b.block_key ∷ [] in
    let k : new_blocks r.progressive_materialized_block_keys (b ∷ bs) ≡ b ∷ new_blocks more bs =
      rw (e, new_blocks) refl in
    (
      r',
      rw (e, record_progressive_materialization, same, new_blocks) refl,
      rw k (Recorded-cons b r r' (new_blocks more bs) h),
    )

-- `record_progressive_materialization` records the blocks of the list with a key that was not recorded
-- before, each key once and in order, and counts them and their tokens.
pub record-Recorded :
    (bs : List PrefixBlock) (r : RequestState)
    → (r' : RequestState) × (record_progressive_materialization bs r
        ≡ (new_blocks r.progressive_materialized_block_keys bs, r'))
      × Recorded r (new_blocks r.progressive_materialized_block_keys bs) r'
unfolding record_progressive_materialization new_blocks
record-Recorded [] r = (
  r,
  refl,
  record {
    keys = sym (append-nil r.progressive_materialized_block_keys);
    blocks = omega arith;
    tokens = omega arith;
  },
)
record-Recorded (b ∷ bs) r =
    record-turn b bs r (contains b.block_key r.progressive_materialized_block_keys) refl
      (record-Recorded bs r) (record-Recorded bs (with_block b r))
