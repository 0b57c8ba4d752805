-- ===== src/Cache/Infinite/Bound.antt =====
-- The ideal hit simulation bounds every finite cache: under the same operations, whatever the
-- eviction policy and the capacity, a finite cache never finds a longer prefix.
use infer_twin.Base.Dict.{contains, keys}
use infer_twin.Base.{
  ℕ, ◌+◌, ◌≤◌, String, true, List, [], ◌∷◌, Result, ok, ◌>>=◌, arith, ◌≡◌, refl, length, drop, inl,
  inr,
}
use infer_twin.Cache.Events.{CacheTier, hbm, ddr}
use infer_twin.Cache.Eviction.Laws.{LawfulPolicy}
use infer_twin.Cache.Eviction.{EvictionPolicy}
use infer_twin.Cache.Infinite
use infer_twin.Cache.Infinite.Laws
use infer_twin.Cache.Infinite.Laws.{contains-materialize}
use infer_twin.Cache.Infinite.{InfiniteCache}
use infer_twin.Cache.Store
use infer_twin.Cache.Store.Lookup.{IsValid, resident_prefix, lookup_prefix_lem}
use infer_twin.Cache.Store.Write.{write_lem}
use infer_twin.Cache.Store.{Store, Call, lookup_result}
use infer_twin.Request.Block.{PrefixBlock}

-- What a replay asks of a prefix cache.
pub data Operation : Type 0 where
  look : Call → List PrefixBlock → Operation
  fill : Call → String → List PrefixBlock → Operation

-- the number of hits of each lookup
pub run_infinite : List Operation → InfiniteCache → List ℕ
run_infinite [] s = []
run_infinite (look c bs ∷ ops) s =
    let (r, s') = Infinite.lookup_prefix c.now_ms bs s in
    length r.hbm_hit_blocks ∷ run_infinite ops s'
run_infinite (fill c reason bs ∷ ops) s = run_infinite ops (Infinite.materialize c.now_ms bs s)

pub run_finite : {P : EvictionPolicy} → List Operation → Store P → Result (List ℕ)
run_finite [] s = ok []
run_finite (look c bs ∷ ops) s = do
  (r, s') ← Store.lookup_prefix c bs s
  counts ← run_finite ops s'
  ok ((length r.hbm_hit_blocks + length r.ddr_hit_blocks) ∷ counts)
run_finite (fill c reason bs ∷ ops) s = do s' ← Store.write c reason bs s; run_finite ops s'

-- Each number of the first list is at most the one at its place in the second.
abbrev pub AllLe : List ℕ → List ℕ → Type 0
AllLe [] [] = Unit
AllLe (m ∷ ms) (n ∷ ns) = (m ≤ n) × AllLe ms ns
AllLe _ _ = ⊥

-- Whatever is resident in the finite cache is resident in the infinite one.
abbrev pub Covers : {P : EvictionPolicy} → InfiniteCache → Store P → Type 0
Covers i s = (j : String) → contains j (keys s.blocks) ≡ true → contains j (keys i.blocks) ≡ true

resident_prefix-le :
    (ks js : List String) (bs : List PrefixBlock)
    → ((j : String) → contains j ks ≡ true → contains j js ≡ true)
    → length (resident_prefix ks bs) ≤ length (resident_prefix js bs)
unfolding resident_prefix
resident_prefix-le ks js [] h = omega arith
resident_prefix-le ks js (b ∷ bs) h = ground (arith, resident_prefix-le ks js bs h, h b.block_key)

abbrev hit_count : CacheTier → List PrefixBlock → List PrefixBlock → ℕ
hit_count tier hits misses =
    let r = lookup_result tier hits misses in length r.hbm_hit_blocks + length r.ddr_hit_blocks

hit_count-length :
    (tier : CacheTier) (hits misses : List PrefixBlock) → hit_count tier hits misses ≡ length hits
hit_count-length hbm hits misses = omega arith
hit_count-length ddr hits misses = omega arith

-- From a valid cache on, all of whose keys the infinite one has, no operation raises, and each
-- lookup of the finite cache has at most as many hits as the same lookup of the infinite one.
pub finite-le-infinite :
    {P : EvictionPolicy} (L : LawfulPolicy P) (ops : List Operation) (s : Store P)
    (i : InfiniteCache)
    → IsValid L s
    → Covers i s
    → (counts : List ℕ) × (run_finite ops s ≡ ok counts) × AllLe counts (run_infinite ops i)
unfolding run_finite run_infinite
finite-le-infinite L [] s i v cover = ([], refl, tt)
finite-le-infinite L (look c bs ∷ ops) s i v cover =
    let (s1, e1, v1, same) = lookup_prefix_lem L c bs s v in
    let (hits, misses, kept) = Laws.lookup_prefix_lem c.now_ms bs i in
    let (counts, e2, le) =
      finite-le-infinite L ops s1 (Infinite.lookup_prefix c.now_ms bs i).1 v1
        (λ j h. rw kept (cover j (rw same.same_keys at h))) in
    let fits : length (resident_prefix (keys s.blocks) bs)
        ≤ length (Infinite.lookup_prefix c.now_ms bs i).0.hbm_hit_blocks =
      rw hits (resident_prefix-le (keys s.blocks) (keys i.blocks) bs cover) in
    (
      hit_count s.tier (resident_prefix (keys s.blocks) bs)
            (drop (length (resident_prefix (keys s.blocks) bs)) bs)
          ∷ counts,
      rw (e1, e2),
      (
        rw
            (hit_count-length s.tier (resident_prefix (keys s.blocks) bs)
              (drop (length (resident_prefix (keys s.blocks) bs)) bs))
            fits,
        le,
      ),
    )
finite-le-infinite L (fill c reason bs ∷ ops) s i v cover =
    let (s1, e1, v1, w) = write_lem L c reason bs s v in
    let (counts, e2, le) =
      finite-le-infinite L ops s1 (Infinite.materialize c.now_ms bs i) v1 (λ j h.
        rw (contains-materialize j c.now_ms bs i)
          (elim (w.only j h) [ inl old ↦ ground (arith, cover j) | inr new ↦ ground arith ])) in
    (counts, rw (e1, e2), le)
