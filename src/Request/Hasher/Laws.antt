-- ===== src/Request/Hasher/Laws.antt =====
-- Blocks cut the prompt, and prompts with a common prefix share its blocks.
use infer_twin.Base.{
  ℕ, zero, suc, ◌+◌, ◌-◌, ◌*◌, ◌≤◌, ◌<◌, String, str_eq, true, false, List, [], ◌∷◌, Option, Result,
  ok, ◌≡◌, refl, sym, ap, ◌∙◌, arith, subst, ◌⊎◌, inl, inr, Bool-cases, leb, length, take, drop,
  length-drop, min,
}
use native.Mathlib.Nat.{suc-add, zero-add, suc-mul}
use infer_twin.Request.Block.{PrefixBlock, tokens}
use infer_twin.Request.Hasher.{
  Field, parent_digest, text_field, or_zero, chain_hash, content_hash, hash_block, hash_blocks,
  build_prefix_blocks,
}

-- The two scopes.
abbrev pub KnownScope : String → Type 0
KnownScope cache_scope =
    (str_eq cache_scope "tenant_isolated" ≡ true) ⊎ (str_eq cache_scope "model_shared" ≡ true)

length-take : (n : ℕ) (xs : List ℕ) → length (take n xs) ≡ min n (length xs)
length-take zero xs = omega arith
length-take (suc n) [] = omega arith
length-take (suc n) (x ∷ xs) = omega (arith, length-take n xs)

take-take : (n m : ℕ) (xs : List ℕ) → take n (take (n + m) xs) ≡ take n xs
take-take zero m xs = refl
take-take (suc n) m [] = rw (suc-add n m) refl
take-take (suc n) m (x ∷ xs) = rw (suc-add n m) (ap (◌∷◌ x) (take-take n m xs))

drop-take : (n m : ℕ) (xs : List ℕ) → drop n (take (n + m) xs) ≡ take m (drop n xs)
drop-take zero m xs = rw (zero-add m) refl
drop-take (suc n) zero [] = rw (suc-add n zero) refl
drop-take (suc n) (suc m) [] = rw (suc-add n (suc m)) refl
drop-take (suc n) m (x ∷ xs) = rw (suc-add n m) (drop-take n m xs)

-- Blocks that cut so many tokens: all but the last one full, none empty, numbered from an index on.
abbrev pub Cut : (size index n : ℕ) → List PrefixBlock → Type 0
Cut size index n [] = n ≡ 0
Cut size index n (b ∷ blocks) =
    (0 < n)
    × (b.block_index ≡ index)
    × (b.token_count ≡ min size n)
    × Cut size (index + 1) (n - size) blocks

tokens-Cut :
    (size index n : ℕ) (blocks : List PrefixBlock) → Cut size index n blocks → tokens blocks ≡ n
tokens-Cut size index n [] h = sym h
tokens-Cut size index n (b ∷ blocks) (some_tokens, numbered, count, h) =
    omega (arith, count, tokens-Cut size (index + 1) (n - size) blocks h)

module _ {Digest : Type 0} (sha256 : List (Field Digest) → Digest) (hex : Digest → String)
    (size : ℕ) (model tenant_id cache_scope : String) (kv_bytes : ℕ) (positive : 0 < size)
    (known : KnownScope cache_scope) where
  abbrev loop : (fuel index : ℕ) → Digest → List ℕ → Result (List PrefixBlock)
  loop = hash_blocks sha256 hex size model tenant_id cache_scope kv_bytes

  chain_hash-ok :
      (parent : Digest) (content : String)
      → (digest : Digest) × (chain_hash sha256 hex parent model tenant_id cache_scope content
          ≡ ok digest)
  unfolding chain_hash
  chain_hash-ok parent content = elim (Bool-cases (str_eq cache_scope "tenant_isolated")) [
    | inl isolated ↦ (
      sha256 (
          parent_digest parent ∷ text_field model ∷ text_field tenant_id ∷ text_field content ∷ []),
      rw isolated refl,
    )
    | inr other ↦ elim known [
      | inl isolated ↦ cc
      | inr shared ↦ (
        sha256 (parent_digest parent ∷ text_field model ∷ text_field content ∷ []),
        rw (other, shared) refl,
      )
    ]
  ]

  -- the block of some tokens, and the digest of the chain up to it
  hash_block-ok :
      (index : ℕ) (parent : Digest) (block_tokens : List ℕ)
      → (b : PrefixBlock) × (digest : Digest) × (hash_block sha256 hex model tenant_id cache_scope
            kv_bytes index parent block_tokens
          ≡ ok (b, digest))
        × (b.block_index ≡ index)
        × (b.token_count ≡ length block_tokens)
        × (b.size_bytes ≡ length block_tokens * kv_bytes)
  unfolding hash_block
  hash_block-ok index parent block_tokens =
      let (digest, e) = chain_hash-ok parent (content_hash sha256 hex block_tokens) in
      (
        record {
          block_key = hex digest;
          content_hash = content_hash sha256 hex block_tokens;
          block_index = index;
          token_count = length block_tokens;
          size_bytes = length block_tokens * kv_bytes;
        },
        digest,
        rw e refl,
        refl,
        refl,
        refl,
      )

  loop-Cut :
      (fuel index : ℕ) (parent : Digest) (token_ids : List ℕ)
      → length token_ids ≤ fuel
      → (blocks : List PrefixBlock) × (loop fuel index parent token_ids ≡ ok blocks)
        × Cut size index (length token_ids) blocks
  unfolding hash_blocks
  loop-Cut fuel index parent [] enough = ([], refl, refl)
  loop-Cut zero index parent (t ∷ token_ids) enough = absurd (omega (arith, enough))
  loop-Cut (suc fuel) index parent (t ∷ token_ids) enough =
      let l = t ∷ token_ids in
      let (b, digest, e, numbered, count, bytes) = hash_block-ok index parent (take size l) in
      let rest_length = length-drop size l in
      let (blocks, e1, cut) =
        loop-Cut fuel (index + 1) digest (drop size l)
          (omega (arith, rest_length, enough, positive)) in
      (
        b ∷ blocks,
        rw (e, e1) refl,
        (
          omega arith,
          numbered,
          count ∙ length-take size l,
          subst (λ n. Cut size (index + 1) n blocks) rest_length cut,
        ),
      )

  -- the loop at tokens that are there
  loop-cons :
      (fuel index : ℕ) (parent : Digest) (l : List ℕ)
      → length l ≤ fuel
      → 0 < length l
      → (fuel0 : ℕ) × (length (drop size l) ≤ fuel0)
        × ((b : PrefixBlock) (digest : Digest) (blocks : List PrefixBlock)
            → hash_block sha256 hex model tenant_id cache_scope kv_bytes index parent (take size l)
              ≡ ok (b, digest)
            → loop fuel0 (index + 1) digest (drop size l) ≡ ok blocks
            → loop fuel index parent l ≡ ok (b ∷ blocks))
  unfolding hash_blocks
  loop-cons fuel index parent [] enough some_tokens = absurd (omega (arith, some_tokens))
  loop-cons zero index parent (t ∷ token_ids) enough some_tokens = absurd (omega (arith, enough))
  loop-cons (suc fuel) index parent (t ∷ token_ids) enough some_tokens =
      let rest_length = length-drop size (t ∷ token_ids) in
      (fuel, omega (arith, rest_length, enough, positive), λ b digest blocks e e1. rw (e, e1) refl)

  -- two prompts that begin with the same full blocks
  loop-shared :
      (k fuel fuel' index : ℕ) (parent : Digest) (xs ys : List ℕ)
      → length xs ≤ fuel
      → length ys ≤ fuel'
      → k * size ≤ length xs
      → k * size ≤ length ys
      → take (k * size) xs ≡ take (k * size) ys
      → (blocks blocks' : List PrefixBlock) × (loop fuel index parent xs ≡ ok blocks)
        × (loop fuel' index parent ys ≡ ok blocks')
        × (take k blocks ≡ take k blocks')
  loop-shared zero fuel fuel' index parent xs ys enough enough' long long' same =
      let (blocks, e, cut) = loop-Cut fuel index parent xs enough in
      let (blocks', e', cut') = loop-Cut fuel' index parent ys enough' in
      (blocks, blocks', e, e', refl)
  loop-shared (suc k) fuel fuel' index parent xs ys enough enough' long long' same =
      let whole : suc k * size ≡ size + k * size = omega (arith, suc-mul k size) in
      let first : take (size + k * size) xs ≡ take (size + k * size) ys = rw whole at same in
      let head_block : take size xs ≡ take size ys =
        sym (take-take size (k * size) xs) ∙ ap (take size) first ∙ take-take size (k * size) ys in
      let later : take (k * size) (drop size xs) ≡ take (k * size) (drop size ys) =
        sym (drop-take size (k * size) xs) ∙ ap (drop size) first ∙ drop-take size (k * size) ys in
      let l = length-drop size xs in
      let l' = length-drop size ys in
      let (fuel0, enough0, cons) =
        loop-cons fuel index parent xs enough (omega (arith, long, whole, positive)) in
      let (fuel0', enough0', cons') =
        loop-cons fuel' index parent ys enough' (omega (arith, long', whole, positive)) in
      let (b, digest, e, numbered, count, bytes) = hash_block-ok index parent (take size xs) in
      let (blocks, blocks', e1, e1', shared) =
        loop-shared k fuel0 fuel0' (index + 1) digest (drop size xs) (drop size ys) enough0 enough0'
          (omega (arith, long, whole, l)) (omega (arith, long', whole, l')) later in
      (
        b ∷ blocks,
        b ∷ blocks',
        cons b digest blocks e e1,
        cons' b digest blocks'
            (subst
              (λ z.
                hash_block sha256 hex model tenant_id cache_scope kv_bytes index parent z
                ≡ ok (b, digest))
              head_block e)
            e1',
        ap (◌∷◌ b) shared,
      )

module _ {Digest : Type 0} (sha256 : List (Field Digest) → Digest) (hex : Digest → String)
    (none_hash : Digest) (size : ℕ) (model tenant_id cache_scope : String)
    (kv_bytes : Option ℕ) where
  abbrev build : List ℕ → Result (List PrefixBlock)
  build token_ids =
      build_prefix_blocks sha256 hex none_hash token_ids size model tenant_id kv_bytes cache_scope

  -- With a positive block size and one of the two scopes, the blocks are built without an exception and
  -- cut the prompt: they are numbered in order, none is empty, all but the last one are full, and
  -- their tokens are as many as those of the prompt.
  pub build_prefix_blocks-Cut :
      (token_ids : List ℕ)
      → 0 < size
      → KnownScope cache_scope
      → (blocks : List PrefixBlock) × (build token_ids ≡ ok blocks)
        × Cut size 0 (length token_ids) blocks
        × (tokens blocks ≡ length token_ids)
  unfolding build_prefix_blocks
  build_prefix_blocks-Cut token_ids positive known =
      let n = length token_ids in
      let some_size : leb size 0 ≡ false = ground arith in
      let (blocks, e, cut) =
        loop-Cut sha256 hex size model tenant_id cache_scope (or_zero kv_bytes) positive known n 0
          none_hash token_ids (omega arith) in
      (blocks, rw some_size e, cut, tokens-Cut size 0 n blocks cut)

  -- Prompts of one model and tenant that agree on the tokens of their first k full blocks have the same
  -- first k blocks, with the same keys, whatever follows.
  pub build_prefix_blocks-shared :
      (k : ℕ) (xs ys : List ℕ)
      → 0 < size
      → KnownScope cache_scope
      → k * size ≤ length xs
      → k * size ≤ length ys
      → take (k * size) xs ≡ take (k * size) ys
      → (blocks blocks' : List PrefixBlock) × (build xs ≡ ok blocks)
        × (build ys ≡ ok blocks')
        × (take k blocks ≡ take k blocks')
  unfolding build_prefix_blocks
  build_prefix_blocks-shared k xs ys positive known long long' same =
      let some_size : leb size 0 ≡ false = ground arith in
      let (blocks, blocks', e, e', shared) =
        loop-shared sha256 hex size model tenant_id cache_scope (or_zero kv_bytes) positive known k
          (length xs) (length ys) 0 none_hash xs ys (omega arith) (omega arith) long long' same in
      (blocks, blocks', rw some_size e, rw some_size e', shared)
