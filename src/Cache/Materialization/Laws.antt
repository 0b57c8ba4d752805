-- ===== src/Cache/Materialization/Laws.antt =====
-- A computed block becomes visible once: what the progressive policy selects.
use infer_twin.Base.Dict.{contains, lookup}
use infer_twin.Base.{
  refl, ◌++◌, ◌⊎◌, ℕ, ◌≤◌, ◌<◌, String, true, false, ◌&&◌, List, [], ◌∷◌, Option, none, some,
  Result, ok, raise, value_error, arith, ◌≡◌, ◌>>=◌, leb, ◌==◌, Bool-cases, Option-cases, inl, inr,
}
use infer_twin.Request.Block.{PrefixBlock, block_keys}
use infer_twin.Cache.Materialization.{is_after, select_loop}

-- A full block that ends within the computed tokens, and that was not visible before.
pub record IsNew (block_size : ℕ) (before : Option ℕ) (after : ℕ) (ends : List (String × ℕ))
    (already : List String) (b : PrefixBlock) : Type 0 where
  pub not_visible : contains b.block_key already ≡ false
  pub is_full : b.token_count ≡ block_size
  pub end : ℕ
  pub end_token : lookup b.block_key ends ≡ some end
  pub starts : is_after before end ≡ true
  pub ends_by : end ≤ after

-- What is visible or selected already, or not a full block, or ends outside the range.
pub data IsOld (block_size : ℕ) (before : Option ℕ) (after : ℕ) (ends : List (String × ℕ))
    (already keys : List String) (b : PrefixBlock) : Type 0 where
  visible : contains b.block_key already ≡ true → IsOld block_size before after ends already keys b
  selected_before :
      contains b.block_key keys ≡ true → IsOld block_size before after ends already keys b
  partial : ¬ (b.token_count ≡ block_size) → IsOld block_size before after ends already keys b
  outside :
      (end : ℕ)
      → lookup b.block_key ends ≡ some end
      → (is_after before end ≡ false) ⊎ (after < end)
      → IsOld block_size before after ends already keys b

module _ (block_size : ℕ) (before : Option ℕ) (after : ℕ) (ends : List (String × ℕ))
    (already : List String) where
  -- The selection: every new block, each key once and in order, and nothing else.
  pub data Selected : List String → List PrefixBlock → List PrefixBlock → Type 0 where
    none_left : {keys : List String} → Selected keys [] []
    passed_over :
        {keys : List String} {b : PrefixBlock} {bs chosen : List PrefixBlock}
        → IsOld block_size before after ends already keys b
        → Selected keys bs chosen
        → Selected keys (b ∷ bs) chosen
    taken :
        {keys : List String} {b : PrefixBlock} {bs chosen : List PrefixBlock}
        → contains b.block_key keys ≡ false
        → IsNew block_size before after ends already b
        → Selected (b.block_key ∷ keys) bs chosen
        → Selected keys (b ∷ bs) (b ∷ chosen)

  -- The selection; or the first of the blocks that is full, neither visible nor selected before, and not
  -- one of the prompt.
  pub data Outcome : List String → List PrefixBlock → Result (List PrefixBlock) → Type 0 where
    selection :
        {keys : List String} {bs chosen : List PrefixBlock}
        → Selected keys bs chosen
        → Outcome keys bs (ok chosen)
    not_in_prompt :
        {keys : List String} {front chosen : List PrefixBlock} (b : PrefixBlock)
        (rest : List PrefixBlock)
        → Selected keys front chosen
        → contains b.block_key already ≡ false
        → contains b.block_key keys ≡ false
        → contains b.block_key (block_keys chosen) ≡ false
        → b.token_count ≡ block_size
        → lookup b.block_key ends ≡ none
        → Outcome keys (front ++ b ∷ rest) (raise value_error)

  Outcome-passed :
      {keys : List String} {b : PrefixBlock} {bs : List PrefixBlock} {m : Result (List PrefixBlock)}
      → IsOld block_size before after ends already keys b
      → Outcome keys bs m
      → Outcome keys (b ∷ bs) m
  Outcome-passed old (selection s) = selection (passed_over old s)
  Outcome-passed {b = b} old (not_in_prompt {front = front} c rest s h1 h2 h3 full missing) =
      not_in_prompt {front = b ∷ front} c rest (passed_over old s) h1 h2 h3 full missing

  Outcome-taken :
      {keys : List String} {b : PrefixBlock} {bs : List PrefixBlock} (m : Result (List PrefixBlock))
      → contains b.block_key keys ≡ false
      → IsNew block_size before after ends already b
      → Outcome (b.block_key ∷ keys) bs m
      → Outcome keys (b ∷ bs) (m >>= λ rest. ok (b ∷ rest))
  unfolding contains
  Outcome-taken (ok chosen) new p (selection s) = selection (taken new p s)
  Outcome-taken {b = b} (raise e) new p
        (not_in_prompt {front = front} {chosen = chosen} c rest s h1 h2 h3 full missing) =
      not_in_prompt {front = b ∷ front} {chosen = b ∷ chosen} c rest (taken new p s) h1
        (ground arith) (ground arith) full missing

  pub select_loop-Outcome :
      (keys : List String) (bs : List PrefixBlock)
      → Outcome keys bs (select_loop block_size before after ends already keys bs)
  unfolding select_loop
  select_loop-Outcome keys [] = selection none_left
  select_loop-Outcome keys (b ∷ bs) = elim (Bool-cases (contains b.block_key already)) [
    | inl seen ↦
        rw (seen, select_loop) (Outcome-passed (visible seen) (select_loop-Outcome keys bs))
    | inr unseen ↦ elim (Bool-cases (contains b.block_key keys)) [
      | inl twice ↦
          rw (unseen, twice, select_loop)
            (Outcome-passed (selected_before twice) (select_loop-Outcome keys bs))
      | inr once ↦ elim (Bool-cases (b.token_count == block_size)) [
        | inr short ↦
            rw (unseen, once, short, select_loop)
              (Outcome-passed (partial (λ e. ground arith)) (select_loop-Outcome keys bs))
        | inl full ↦ elim (Option-cases (lookup b.block_key ends)) [
          | inl missing ↦
              rw (unseen, once, full, missing, select_loop)
                (not_in_prompt {front = []} b bs none_left unseen once (unfold contains in refl)
                  (ground arith) missing)
          | inr (end, found) ↦ elim (Bool-cases (is_after before end && leb end after)) [
            | inr out ↦
                rw (unseen, once, full, found, out, select_loop)
                  (Outcome-passed (outside end found (out_of_range end out))
                    (select_loop-Outcome keys bs))
            | inl inside ↦
                rw (unseen, once, full, found, inside, select_loop)
                  (Outcome-taken _ once
                    (record {
                      not_visible = unseen;
                      is_full = ground arith;
                      end = end;
                      end_token = found;
                      starts = ground arith;
                      ends_by = ground arith;
                    })
                    (select_loop-Outcome (b.block_key ∷ keys) bs))
          ]
        ]
      ]
    ]
  ]
    where
      out_of_range :
          (end : ℕ)
          → (is_after before end && leb end after) ≡ false
          → (is_after before end ≡ false) ⊎ (after < end)
      out_of_range end out = elim (Bool-cases (is_after before end)) [
        | inl started ↦ inr (ground arith)
        | inr early ↦ inl early
      ]
