-- ===== src/Cache/Tiered/Found.antt =====
-- What was materialized in the tiers is found by a lookup.
use infer_twin.Base.Dict.{contains, keys}
use infer_twin.Base.{
  ◌+◌, ◌≤◌, zero, suc, ℕ, String, true, List, [], ◌∷◌, ◌++◌, ok, ◌≡◌, refl, ap, ◌∙◌, arith, length,
  drop, All, All-imp, inr, str_eq_self,
}
use infer_twin.Cache.Eviction.Laws.{LawfulPolicy}
use infer_twin.Cache.Eviction.{EvictionPolicy}
use infer_twin.Cache.Results.{PrefixLookupResult}
use infer_twin.Cache.Store.Lookup.{resident_prefix, resident_prefix-append-drop}
use infer_twin.Cache.Store.Write.{WroteAll}
use infer_twin.Cache.Store.{Store, Call}
use infer_twin.Cache.Tiered.Laws.{
  IsValidTiered, tiered_result, lookup_prefix-tiered, materialize-tiered,
}
use infer_twin.Cache.Tiered.{TieredCache, lookup_prefix, materialize}
use infer_twin.Request.Block.{PrefixBlock, block_keys}

-- All blocks have their keys among these.
abbrev Held : List String → List PrefixBlock → Type 0
Held ks = All (λ b. contains b.block_key ks ≡ true)

resident_prefix-Held :
    (ks : List String) (bs : List PrefixBlock) → Held ks bs → resident_prefix ks bs ≡ bs
unfolding resident_prefix
resident_prefix-Held ks [] h = refl
resident_prefix-Held ks (b ∷ bs) (here, h) = rw here (ap (◌∷◌ b) (resident_prefix-Held ks bs h))

drop_all : (bs : List PrefixBlock) → drop (length bs) bs ≡ []
drop_all [] = refl
drop_all (b ∷ bs) = drop_all bs

Held-drop : (n : ℕ) (ks : List String) (bs : List PrefixBlock) → Held ks bs → Held ks (drop n bs)
Held-drop zero ks bs h = h
Held-drop (suc n) ks [] h = tt
Held-drop (suc n) ks (b ∷ bs) (here, h) = Held-drop n ks bs h

Held-own : (bs : List PrefixBlock) → Held (block_keys bs) bs
unfolding contains
Held-own [] = tt
Held-own (b ∷ bs) = (
  ground (arith, str_eq_self b.block_key),
  All-imp _ _ bs (λ x h. ground (arith, h)) (Held-own bs),
)

-- A tier with room for what is written holds it.
WroteAll-Held :
    {P : EvictionPolicy} (bs : List PrefixBlock) (s s' : Store P)
    → WroteAll bs s s'
    → length s.blocks + length bs ≤ s.capacity_blocks
    → Held (keys s'.blocks) bs
WroteAll-Held bs s s' w room = All-imp _ _ bs (λ x h. w.kept room x.block_key (inr h)) (Held-own bs)

-- The lookup of blocks that were materialized in these tiers.
pub record Found {P Q : EvictionPolicy} (bs : List PrefixBlock) (s : TieredCache P Q)
    (r : PrefixLookupResult) : Type 0 where
  -- the parts of the result are the blocks, in order
  pub split : r.hbm_hit_blocks ++ (r.ddr_hit_blocks ++ r.miss_blocks) ≡ bs
  pub in_hbm : length s.hbm.blocks + length bs ≤ s.hbm.capacity_blocks → r.hbm_hit_blocks ≡ bs
  pub in_ddr :
      length s.ddr.blocks + length bs ≤ s.ddr.capacity_blocks
      → (r.miss_blocks ≡ []) × (r.hbm_hit_blocks ++ r.ddr_hit_blocks ≡ bs)

tiered_result-Found :
    {P Q : EvictionPolicy} (bs : List PrefixBlock) (s s' : TieredCache P Q)
    → WroteAll bs s.hbm s'.hbm
    → WroteAll bs s.ddr s'.ddr
    → Found bs s (tiered_result bs s')
unfolding tiered_result
tiered_result-Found bs s s' w v =
    let hits = resident_prefix (keys s'.hbm.blocks) bs in
    let rest = drop (length hits) bs in
    let first = resident_prefix-append-drop (keys s'.hbm.blocks) bs in
    let second = resident_prefix-append-drop (keys s'.ddr.blocks) rest in
    record {
      split = rw second first;
      in_hbm = λ room.
          resident_prefix-Held (keys s'.hbm.blocks) bs (WroteAll-Held bs s.hbm s'.hbm w room);
      in_ddr = λ room.
          let all = resident_prefix-Held (keys s'.ddr.blocks) rest (
            Held-drop (length hits) (keys s'.ddr.blocks) bs
              (WroteAll-Held bs s.ddr s'.ddr v room)) in
          (ap (λ xs. drop (length xs) rest) all ∙ drop_all rest, ap (λ xs. hits ++ xs) all ∙ first);
    }

-- Materializing blocks in a valid tiered cache and looking them up raises nothing. The result splits the
-- blocks, in order. If the HBM tier has room for all of them besides what it holds, they are all HBM
-- hits; if the DDR tier has, none is missed, whatever the HBM tier evicts.
pub materialize-lookup-Found :
    {P Q : EvictionPolicy} (L : LawfulPolicy P) (M : LawfulPolicy Q) (c c' : Call) (reason : String)
    (bs : List PrefixBlock) (s : TieredCache P Q)
    → IsValidTiered L M s
    → (s1 : TieredCache P Q) × (r : PrefixLookupResult) × (s2 : TieredCache P Q) × (materialize c
          reason bs s
        ≡ ok s1)
      × (lookup_prefix c' bs s1 ≡ ok (r, s2))
      × Found bs s r
materialize-lookup-Found L M c c' reason bs s v =
    let (s1, e1, v1, w1, w2) = materialize-tiered L M c reason bs s v in
    let (s2, e2, v2, same1, same2) = lookup_prefix-tiered L M c' bs s1 v1 in
    (s1, tiered_result bs s1, s2, e1, e2, tiered_result-Found bs s s1 w1 w2)
