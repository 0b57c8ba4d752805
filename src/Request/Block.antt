-- ===== src/Request/Block.antt =====
-- `PrefixBlock` of src/infertwin/request/block_hasher.py.
use infer_twin.Base.{ℕ, String, List, sum_by, map}

pub record PrefixBlock : Type 0 where
  pub block_key : String
  pub content_hash : String
  pub block_index : ℕ
  pub token_count : ℕ
  pub size_bytes : ℕ

-- `sum(block.token_count for block in blocks)`
abbrev pub tokens : List PrefixBlock → ℕ
tokens = sum_by (λ b. b.token_count)

abbrev pub block_keys : List PrefixBlock → List String
block_keys = map (λ b. b.block_key)
