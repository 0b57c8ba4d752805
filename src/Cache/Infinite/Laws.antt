-- ===== src/Cache/Infinite/Laws.antt =====
-- The cache without a bound: what it holds grows only, and a lookup finds the longest resident prefix.
use infer_twin.Base.Dict.Laws.{
  keys-insert_old, contains_of_lookup, absent_of_lookup, contains-insert,
}
use infer_twin.Base.Dict.{contains, keys, lookup, insert}
use infer_twin.Base.{
  ℕ, ◌+◌, String, true, List, [], ◌∷◌, if◌then◌else◌, arith, ◌≡◌, refl, ◌∙◌, ap, str_eq, eq_iff,
  Option-cases, inl, inr, length, drop, ◌||◌,
}
use infer_twin.Cache.Infinite.{
  CacheBlockMeta, InfiniteCache, lookup_hits, lookup_prefix, set_default, materialize, default_meta,
}
use infer_twin.Cache.Store.Lookup.{resident_prefix}
use infer_twin.Request.Block.{PrefixBlock, block_keys}

lookup_hits_lem :
    (now : ℕ) (bs : List PrefixBlock) (s : InfiniteCache)
    → ((lookup_hits now bs s).0 ≡ resident_prefix (keys s.blocks) bs)
      × (keys (lookup_hits now bs s).1.blocks ≡ keys s.blocks)
unfolding lookup_hits resident_prefix
lookup_hits_lem now [] s = (refl, refl)
lookup_hits_lem now (b ∷ bs) s = elim (Option-cases (lookup b.block_key s.blocks)) [
  | inl miss ↦
      (rw (miss, lookup_hits, absent_of_lookup b.block_key s.blocks miss), rw (miss, lookup_hits))
  | inr (m, found) ↦
      let here = contains_of_lookup b.block_key s.blocks found in
      let m' : CacheBlockMeta = record m {
        hit_count = m.hit_count + 1;
        last_access_time_ms = now;
      } in
      let same = keys-insert_old b.block_key m' s.blocks here in
      let s' : InfiniteCache = record s { blocks = insert b.block_key m' s.blocks } in
      let (ih0, ih1) = lookup_hits_lem now bs s' in
      (
        rw (found, lookup_hits, here) (ap (◌∷◌ b) (rw same at ih0)),
        rw (found, lookup_hits) (ih1 ∙ same),
      )
]

-- A lookup returns the longest resident prefix as hits and the rest as misses, and leaves the same
-- blocks resident.
pub lookup_prefix_lem :
    (now : ℕ) (bs : List PrefixBlock) (s : InfiniteCache)
    → ((lookup_prefix now bs s).0.hbm_hit_blocks ≡ resident_prefix (keys s.blocks) bs)
      × ((lookup_prefix now bs s).0.miss_blocks
          ≡ drop (length (resident_prefix (keys s.blocks) bs)) bs)
      × (keys (lookup_prefix now bs s).1.blocks ≡ keys s.blocks)
unfolding lookup_prefix
lookup_prefix_lem now bs s = let (e0, e1) = lookup_hits_lem now bs s in (e0, rw e0, e1)

pub contains-set_default :
    (j : String) (now : ℕ) (b : PrefixBlock) (s : InfiniteCache)
    → contains j (keys (set_default now b s).blocks)
      ≡ (if str_eq b.block_key j then true else contains j (keys s.blocks))
unfolding set_default
contains-set_default j now b s = elim (Option-cases (lookup b.block_key s.blocks)) [
  | inl miss ↦ rw (miss, set_default) (contains-insert j b.block_key (default_meta now b) s.blocks)
  | inr (m, found) ↦
      rw (found, set_default)
        (ground (arith, eq_iff b.block_key j, contains_of_lookup b.block_key s.blocks found))
]

-- After a materialization exactly the old blocks and the materialized ones are resident.
pub contains-materialize :
    (j : String) (now : ℕ) (bs : List PrefixBlock) (s : InfiniteCache)
    → contains j (keys (materialize now bs s).blocks)
      ≡ (contains j (keys s.blocks) || contains j (block_keys bs))
unfolding materialize contains
contains-materialize j now [] s = ground arith
contains-materialize j now (b ∷ bs) s =
    ground
      (arith, contains-materialize j now bs (set_default now b s), contains-set_default j now b s)
