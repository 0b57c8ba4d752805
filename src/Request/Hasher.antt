-- ===== src/Request/Hasher.antt =====
-- `build_prefix_blocks` of src/infertwin/request/block_hasher.py. SHA-256 is a parameter: the digest of the
-- fields that it is updated with, each of which `_encode_field` and `to_bytes` set apart from the next
-- one; token ids fit into their 16 bytes.
pub mod Laws
use infer_twin.Base.{
  ℕ, zero, suc, ◌+◌, ◌*◌, String, str_eq, Bool, List, [], ◌∷◌, ◌++◌, map, Option, none, some,
  Result, ok, raise, value_error, out_of_fuel, reject_if, ◌>>=◌, ◌>>◌, if◌then◌else◌, leb, length,
  take, drop,
}
use infer_twin.Request.Block.{PrefixBlock}

-- What a digest is updated with.
pub data Field (Digest : Type 0) : Type 0 where
  parent_digest : Digest → Field Digest
  text_field : String → Field Digest
  token_field : ℕ → Field Digest

-- `kv_bytes_per_token or 0`
abbrev pub or_zero : Option ℕ → ℕ
or_zero none = 0
or_zero (some n) = n

module _ {Digest : Type 0} (sha256 : List (Field Digest) → Digest) (hex : Digest → String) where
  -- `_content_hash`
  unfoldable pub content_hash : List ℕ → String
  content_hash token_ids = hex (sha256 (map token_field token_ids))

  -- `_chain_hash`
  unfoldable pub chain_hash :
      (parent : Digest) (model tenant_id cache_scope content : String) → Result Digest
  chain_hash parent model tenant_id cache_scope content =
      if str_eq cache_scope "tenant_isolated"
      then ok (
          sha256 (
            parent_digest parent
            ∷ text_field model
            ∷ text_field tenant_id
            ∷ text_field content
            ∷ []))
      else if str_eq cache_scope "model_shared"
      then ok (sha256 (parent_digest parent ∷ text_field model ∷ text_field content ∷ []))
      else raise value_error

  -- one turn of the loop: the block of these tokens, and its digest
  unfoldable pub hash_block :
      (model tenant_id cache_scope : String) (kv_bytes index : ℕ) (parent : Digest)
      → List ℕ
      → Result (PrefixBlock × Digest)
  unfolding content_hash chain_hash
  hash_block model tenant_id cache_scope kv_bytes index parent block_tokens = do
    let content = content_hash block_tokens
    digest ← chain_hash parent model tenant_id cache_scope content
    ok (
      record {
        block_key = hex digest;
        content_hash = content;
        block_index = index;
        token_count = length block_tokens;
        size_bytes = length block_tokens * kv_bytes;
      },
      digest,
    )

  -- The loop over the starts of the blocks: the tokens from a start on. A turn takes a token or more, so the
  -- number of tokens is enough fuel.
  unfoldable pub hash_blocks :
      (size : ℕ) (model tenant_id cache_scope : String) (kv_bytes fuel index : ℕ) (parent : Digest)
      → List ℕ
      → Result (List PrefixBlock)
  unfolding hash_block
  hash_blocks size model tenant_id cache_scope kv_bytes fuel index parent [] = ok []
  hash_blocks size model tenant_id cache_scope kv_bytes zero index parent (t ∷ token_ids) =
      raise out_of_fuel
  hash_blocks size model tenant_id cache_scope kv_bytes (suc fuel) index parent (t ∷ token_ids) = do
    (block, digest) ←
        hash_block model tenant_id cache_scope kv_bytes index parent (take size (t ∷ token_ids))
    blocks ←
        hash_blocks size model tenant_id cache_scope kv_bytes fuel (index + 1) digest
          (drop size (t ∷ token_ids))
    ok (block ∷ blocks)

  -- `none_hash` is `NONE_HASH`.
  unfoldable pub build_prefix_blocks :
      (none_hash : Digest)
      → List ℕ
      → (size : ℕ) (model tenant_id : String) → Option ℕ
      → (cache_scope : String) → Result (List PrefixBlock)
  unfolding hash_blocks
  build_prefix_blocks none_hash token_ids size model tenant_id kv_bytes_per_token cache_scope = do
    reject_if (leb size 0)
    hash_blocks size model tenant_id cache_scope (or_zero kv_bytes_per_token) (length token_ids) 0
        none_hash token_ids
