-- ===== src/Tests/CacheRuns.antt =====
-- The theorems on caches, applied.
use infer_twin.Base.Dict.{contains, keys}
use infer_twin.Base.{ℕ, List, [], ◌∷◌, ◌||◌, ok, ◌≡◌, length, drop}
use infer_twin.Cache.Events.{hbm, ddr}
use infer_twin.Cache.Eviction.{lru}
use infer_twin.Cache.Eviction.Laws.{lru-LawfulPolicy}
use infer_twin.Cache.Infinite.{materialize}
use infer_twin.Cache.Infinite.Bound.{
  look, fill, run_finite, run_infinite, AllLe, finite-le-infinite,
}
use infer_twin.Cache.Infinite.Laws.{contains-materialize}
use infer_twin.Cache.Store.{Store, lookup_prefix, lookup_result, write}
use infer_twin.Cache.Store.Lookup.{IsValid, SameResidents, resident_prefix, lookup_prefix_lem}
use infer_twin.Cache.Store.Order.{
  IsLruValid, read_keys, write_keys, write-refines, lookup_prefix-refines,
}
use infer_twin.Cache.Store.Write.{WroteAll, write_lem}
use infer_twin.Cache.Results.{PrefixLookupResult}
use infer_twin.Cache.Tiered.Found.{Found, materialize-lookup-Found}
use infer_twin.Cache.Tiered
use infer_twin.Cache.Tiered.{TieredCache}
use infer_twin.Cache.Tiered.Laws.{
  IsValidTiered, tiered_result, lookup_prefix-tiered, materialize-tiered,
}
use infer_twin.Request.Block.{block_keys}
use infer_twin.Tests.Samples.{
  abd, call, with_a, with_a-IsValid, tiers, tiers-IsValidTiered, wide_tiers,
  wide_tiers-IsValidTiered, infinite,
}

write-refines_example :
    (s' : Store lru) × (write call "finish" abd (with_a hbm) ≡ ok s')
    × IsLruValid s'
    × (s'.evictor ≡ write_keys 2 abd ("a" ∷ []))
write-refines_example = write-refines call "finish" abd (with_a hbm) (with_a-IsValid hbm)

lookup_prefix-refines_example :
    (s' : Store lru) × (lookup_prefix call abd (with_a hbm)
      ≡ ok (
        lookup_result hbm
            (resident_prefix (keys (with_a hbm).blocks) abd)
            (drop (length (resident_prefix (keys (with_a hbm).blocks) abd)) abd),
        s',
      ))
    × IsLruValid s'
    × (keys s'.blocks ≡ "a" ∷ [])
    × (s'.evictor ≡ read_keys abd ("a" ∷ []))
lookup_prefix-refines_example = lookup_prefix-refines call abd (with_a hbm) (with_a-IsValid hbm)

lookup_prefix_lem_example :
    (s' : Store lru) × (lookup_prefix call abd (with_a ddr)
      ≡ ok (
        lookup_result ddr
            (resident_prefix (keys (with_a ddr).blocks) abd)
            (drop (length (resident_prefix (keys (with_a ddr).blocks) abd)) abd),
        s',
      ))
    × IsValid lru-LawfulPolicy s'
    × SameResidents (with_a ddr) s'
lookup_prefix_lem_example =
    lookup_prefix_lem lru-LawfulPolicy call abd (with_a ddr) (with_a-IsValid ddr)

write_lem_example :
    (s' : Store lru) × (write call "store" abd (with_a ddr) ≡ ok s')
    × IsValid lru-LawfulPolicy s'
    × WroteAll abd (with_a ddr) s'
write_lem_example = write_lem lru-LawfulPolicy call "store" abd (with_a ddr) (with_a-IsValid ddr)

finite-le-infinite_example :
    (counts : List ℕ) × (run_finite
        (look call abd ∷ fill call "finish" abd ∷ look call abd ∷ [])
        (with_a hbm)
      ≡ ok counts)
    × AllLe counts
        (run_infinite (look call abd ∷ fill call "finish" abd ∷ look call abd ∷ []) infinite)
finite-le-infinite_example =
    finite-le-infinite lru-LawfulPolicy
      (look call abd ∷ fill call "finish" abd ∷ look call abd ∷ []) (with_a hbm) infinite
      (with_a-IsValid hbm) (λ j h. h)

contains-materialize_example :
    contains "b" (keys (materialize 5 abd infinite).blocks)
    ≡ (contains "b" (keys infinite.blocks) || contains "b" (block_keys abd))
contains-materialize_example = contains-materialize "b" 5 abd infinite

lookup_prefix-tiered_example :
    (s' : TieredCache lru lru) × (Tiered.lookup_prefix call abd tiers
      ≡ ok (tiered_result abd tiers, s'))
    × IsValidTiered lru-LawfulPolicy lru-LawfulPolicy s'
    × (keys s'.hbm.blocks ≡ "a" ∷ [])
    × (keys s'.ddr.blocks ≡ "a" ∷ [])
lookup_prefix-tiered_example =
    lookup_prefix-tiered lru-LawfulPolicy lru-LawfulPolicy call abd tiers tiers-IsValidTiered

materialize-tiered_example :
    (s' : TieredCache lru lru) × (Tiered.materialize call "finish" abd tiers ≡ ok s')
    × IsValidTiered lru-LawfulPolicy lru-LawfulPolicy s'
    × WroteAll abd (with_a hbm) s'.hbm
    × WroteAll abd (with_a ddr) s'.ddr
materialize-tiered_example =
    materialize-tiered lru-LawfulPolicy lru-LawfulPolicy call "finish" abd tiers tiers-IsValidTiered

materialize-lookup-Found_example :
    (s1 : TieredCache lru lru) × (r : PrefixLookupResult) × (s2 : TieredCache lru lru)
    × (Tiered.materialize call "finish" abd wide_tiers ≡ ok s1)
    × (Tiered.lookup_prefix call abd s1 ≡ ok (r, s2))
    × Found abd wide_tiers r
materialize-lookup-Found_example =
    materialize-lookup-Found lru-LawfulPolicy lru-LawfulPolicy call call "finish" abd wide_tiers
      wide_tiers-IsValidTiered
