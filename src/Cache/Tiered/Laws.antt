-- ===== src/Cache/Tiered/Laws.antt =====
-- The two tiers together: what a lookup returns, and that both tiers keep their invariants.
use infer_twin.Base.Dict.{keys}
use infer_twin.Base.{String, List, [], ok, ◌≡◌, refl, ◌∙◌, length, drop}
use infer_twin.Cache.Events.{hbm as hbm_tier, ddr as ddr_tier}
use infer_twin.Cache.Eviction.Laws.{LawfulPolicy}
use infer_twin.Cache.Eviction.{EvictionPolicy}
use infer_twin.Cache.Results.{PrefixLookupResult}
use infer_twin.Cache.Store.Lookup.{IsValid, resident_prefix, lookup_prefix_lem}
use infer_twin.Cache.Store.Write.{WroteAll, write_lem}
use infer_twin.Cache.Store.{Store, Call}
use infer_twin.Cache.Tiered.{
  TieredCache, lookup_prefix, materialize, drain_hbm, drain_ddr, ddr_call, ddr_store_reason,
}
use infer_twin.Request.Block.{PrefixBlock}

module _ {P Q : EvictionPolicy} (L : LawfulPolicy P) (M : LawfulPolicy Q) where
  -- Each tier is a valid cache of its class, and has handed its events over.
  pub record IsValidTiered (s : TieredCache P Q) : Type 0 where
    pub hbm_valid : IsValid L s.hbm
    pub ddr_valid : IsValid M s.ddr
    pub hbm_class : s.hbm.tier ≡ hbm_tier
    pub ddr_class : s.ddr.tier ≡ ddr_tier
    pub hbm_drained : s.hbm.events ≡ []
    pub ddr_drained : s.ddr.events ≡ []

  pub drained_valid :
      (s : TieredCache P Q)
      → IsValid L s.hbm
      → IsValid M s.ddr
      → s.hbm.tier ≡ hbm_tier
      → s.ddr.tier ≡ ddr_tier
      → IsValidTiered (drain_ddr (drain_hbm s))
  unfolding drain_hbm drain_ddr
  drained_valid s v w e f = record {
    hbm_valid = record {
      positive = v.positive;
      bounded = v.bounded;
      distinct = v.distinct;
      keyed = v.keyed;
      tracked = v.tracked;
    };
    ddr_valid = record {
      positive = w.positive;
      bounded = w.bounded;
      distinct = w.distinct;
      keyed = w.keyed;
      tracked = w.tracked;
    };
    hbm_class = e;
    ddr_class = f;
    hbm_drained = refl;
    ddr_drained = refl;
  }

-- Handing the events over leaves the rest of a tier alone.
WroteAll-drained :
    {P : EvictionPolicy} {bs : List PrefixBlock} {s s' : Store P}
    → WroteAll bs s s'
    → WroteAll bs s (record s' { events = [] })
WroteAll-drained w = record {
  shape = record { same_capacity = w.shape.same_capacity; same_tier = w.shape.same_tier };
  only = w.only;
  kept = w.kept;
}

-- What a lookup of both tiers finds: in the HBM tier the longest resident prefix, in the DDR tier the
-- longest resident prefix of the rest; what is left misses.
unfoldable pub tiered_result :
    {P Q : EvictionPolicy} → List PrefixBlock → TieredCache P Q → PrefixLookupResult
tiered_result bs s =
    let hits = resident_prefix (keys s.hbm.blocks) bs in
    let rest = drop (length hits) bs in
    let found = resident_prefix (keys s.ddr.blocks) rest in
    record { hbm_hit_blocks = hits; ddr_hit_blocks = found; miss_blocks = drop (length found) rest }

module _ {P Q : EvictionPolicy} (L : LawfulPolicy P) (M : LawfulPolicy Q) where
  -- A lookup of a valid tiered cache raises nothing, finds `tiered_result`, changes in neither tier
  -- what is resident, and leaves a valid cache.
  pub lookup_prefix-tiered :
      (c : Call) (bs : List PrefixBlock) (s : TieredCache P Q)
      → IsValidTiered L M s
      → (s' : TieredCache P Q) × (lookup_prefix c bs s ≡ ok (tiered_result bs s, s'))
        × IsValidTiered L M s'
        × (keys s'.hbm.blocks ≡ keys s.hbm.blocks)
        × (keys s'.ddr.blocks ≡ keys s.ddr.blocks)
  unfolding lookup_prefix tiered_result
  lookup_prefix-tiered c bs s v =
      let (h, e1, v1, same1) = lookup_prefix_lem L c bs s.hbm v.hbm_valid in
      let rest = drop (length (resident_prefix (keys s.hbm.blocks) bs)) bs in
      let (d, e2, v2, same2) = lookup_prefix_lem M (ddr_call c h) rest s.ddr v.ddr_valid in
      let s2 : TieredCache P Q = record s { hbm = h; ddr = d } in
      (
        drain_ddr (drain_hbm s2),
        rw (e1, v.hbm_class, e2, v.ddr_class),
        drained_valid L M s2 v1 v2 (same1.same_tier ∙ v.hbm_class) (same2.same_tier ∙ v.ddr_class),
        same1.same_keys,
        same2.same_keys,
      )

  -- Materializing blocks in a valid tiered cache raises nothing and leaves a valid cache. In each tier
  -- what is resident afterwards was so before or was materialized; a tier that has room for all of it
  -- holds all of it.
  pub materialize-tiered :
      (c : Call) (reason : String) (bs : List PrefixBlock) (s : TieredCache P Q)
      → IsValidTiered L M s
      → (s' : TieredCache P Q) × (materialize c reason bs s ≡ ok s')
        × IsValidTiered L M s'
        × WroteAll bs s.hbm s'.hbm
        × WroteAll bs s.ddr s'.ddr
  unfolding materialize
  materialize-tiered c reason bs s v =
      let (h, e1, v1, w1) = write_lem L c reason bs s.hbm v.hbm_valid in
      let (d, e2, v2, w2) =
        write_lem M (ddr_call c h) (ddr_store_reason reason) bs s.ddr v.ddr_valid in
      let s2 : TieredCache P Q = record s { hbm = h; ddr = d } in
      (
        drain_ddr (drain_hbm s2),
        rw (e1, e2),
        drained_valid L M s2 v1 v2 (w1.shape.same_tier ∙ v.hbm_class)
            (w2.shape.same_tier ∙ v.ddr_class),
        WroteAll-drained w1,
        WroteAll-drained w2,
      )
