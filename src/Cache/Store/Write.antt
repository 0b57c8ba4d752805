-- ===== src/Cache/Store/Write.antt =====
-- What `materialize` and `store` do: no exception, never more blocks than the capacity, the blocks
-- that were written last are resident.
use infer_twin.Base.Dict.Laws.{
  keys-remove, keys-append, length-remove, length-keys, All-remove, All-lookup, contains_of_lookup,
  absent_of_lookup, contains-snoc, contains-without_keep, insert_new, Distinct-without,
  Distinct-snoc,
}
use infer_twin.Base.Dict.{contains, without, keys, lookup, remove, insert}
use infer_twin.Base.{
  ℕ, zero, suc, ◌+◌, ◌-◌, ◌≤◌, ◌<◌, min, String, true, false, List, [], ◌∷◌, ◌++◌, none, some, ok,
  if◌then◌else◌, arith, ◌≡◌, ◌≢◌, refl, str_eq, eq_iff, Option-cases, inl, inr, ◌⊎◌, length,
  All-snoc, sym, subst, ◌∙◌, ap, Bool-cases, leb, length-append, str_eq_self, leb→le,
}
use infer_twin.Cache.Eviction.Laws.{LawfulPolicy}
use infer_twin.Cache.Eviction.{BlockMeta, EvictionPolicy}
use infer_twin.Cache.Store.Lookup.{IsValid, IsKeyed, access_lem}
use infer_twin.Cache.Store.{
  Store, Call, emit, evict_one, evicted, pop_block, evict_until, insert_new_block, write_block,
  write, new_meta, write_type,
}
use infer_twin.Request.Block.{PrefixBlock, block_keys}

module _ {P : EvictionPolicy} where
  -- The capacity and the tier are fixed when a cache is made.
  pub record SameShape (s s' : Store P) : Type 0 where
    pub same_capacity : s'.capacity_blocks ≡ s.capacity_blocks
    pub same_tier : s'.tier ≡ s.tier

  pub SameShape-trans : {s t u : Store P} → SameShape s t → SameShape t u → SameShape s u
  SameShape-trans p q = record {
    same_capacity = q.same_capacity ∙ p.same_capacity;
    same_tier = q.same_tier ∙ p.same_tier;
  }

  -- Nothing becomes resident.
  pub record Evicted (s s' : Store P) : Type 0 where
    pub shape : SameShape s s'
    pub fewer :
        (j : String) → contains j (keys s'.blocks) ≡ true → contains j (keys s.blocks) ≡ true

module _ {P : EvictionPolicy} (L : LawfulPolicy P) where
  -- once the policy has chosen the resident block `m`
  evict_chosen :
      (c : Call) (s : Store P) (m : BlockMeta) (st : P.State)
      → IsValid L s
      → lookup m.block_key s.blocks ≡ some m
      → P.select_victim s.blocks s.evictor ≡ ok m
      → P.on_remove m s.evictor ≡ ok st
      → L.Tracks st (without m.block_key (keys s.blocks))
      → (s' : Store P) × (evict_one c s ≡ ok s')
        × IsValid L s'
        × Evicted s s'
        × (suc (length s'.blocks) ≡ length s.blocks)
  unfolding evict_one
  evict_chosen c s m st v found chosen e tr =
      let k = m.block_key in
      let here = contains_of_lookup k s.blocks found in
      let count = length-remove k s.blocks here in
      (
        evicted c m st (record s { blocks = remove k s.blocks }),
        rw (chosen, pop_block, found, e),
        record {
          positive = v.positive;
          bounded = omega (arith, count, v.bounded);
          distinct = rw (keys-remove k s.blocks) (Distinct-without k (keys s.blocks) v.distinct);
          keyed = All-remove IsKeyed k s.blocks v.keyed;
          tracked = rw (keys-remove k s.blocks) tr;
        },
        record {
          shape = record { same_capacity = refl; same_tier = refl };
          fewer =
              λ j h. contains-without_keep j k (keys s.blocks) (rw (keys-remove k s.blocks) at h);
        },
        count,
      )

  pub evict_one_lem :
      (c : Call) (s : Store P)
      → IsValid L s
      → s.blocks ≢ []
      → (s' : Store P) × (evict_one c s ≡ ok s')
        × IsValid L s'
        × Evicted s s'
        × (suc (length s'.blocks) ≡ length s.blocks)
  evict_one_lem c s v some_block =
      let (k, m, found, chosen) = L.victim_resident s.blocks s.evictor v.tracked some_block in
      let named : k ≡ m.block_key = sym (All-lookup IsKeyed k s.blocks v.keyed found) in
      let found' : lookup m.block_key s.blocks ≡ some m =
        subst (λ x. lookup x s.blocks ≡ some m) named found in
      let (st, e, tr) =
        L.remove_tracks m s.evictor (keys s.blocks) v.tracked v.distinct
          (contains_of_lookup m.block_key s.blocks found') in
      evict_chosen c s m st v found' chosen e tr

  -- The loop that makes room: with more fuel than blocks it ends, with room for one block.
  pub evict_until_lem :
      (fuel : ℕ) (c : Call) (s : Store P)
      → length s.blocks < fuel
      → IsValid L s
      → (s' : Store P) × (evict_until fuel c s ≡ ok s')
        × IsValid L s'
        × Evicted s s'
        × (length s'.blocks ≡ min (length s.blocks) (s.capacity_blocks - 1))
  unfolding evict_until
  evict_until_lem zero c s enough v = absurd (omega arith)
  evict_until_lem (suc fuel) c s enough v =
      elim (Bool-cases (leb s.capacity_blocks (length s.blocks))) [
        | inl full ↦
            let (s1, e1, v1, out1, count1) = evict_one_lem c s v (some_block s full v) in
            let (s2, e2, v2, out2, count2) = evict_until_lem fuel c s1 (omega (arith, count1)) v1 in
            (
              s2,
              rw (full, evict_until, e1, e2),
              v2,
              record {
                shape = SameShape-trans out1.shape out2.shape;
                fewer = λ j h. out1.fewer j (out2.fewer j h);
              },
              omega (arith, count1, count2, out1.shape.same_capacity, leb→le _ _ full),
            )
        | inr room ↦ (
          s,
          rw (room, evict_until),
          v,
          record { shape = record { same_capacity = refl; same_tier = refl }; fewer = λ j h. h },
          ground arith,
        )
      ]
    where
      some_block :
          (s : Store P)
          → leb s.capacity_blocks (length s.blocks) ≡ true
          → IsValid L s
          → s.blocks ≢ []
      some_block s full v = ground arith

  pub evict_until_room :
      (fuel : ℕ) (c : Call) (s : Store P)
      → length s.blocks < s.capacity_blocks
      → evict_until (suc fuel) c s ≡ ok s
  unfolding evict_until
  evict_until_room fuel c s room = ground arith

  -- The block under its key, behind the others.
  insert_new_block_lem :
      (c : Call) (reason : String) (b : PrefixBlock) (s : Store P)
      → IsValid L s
      → contains b.block_key (keys s.blocks) ≡ false
      → length s.blocks < s.capacity_blocks
      → (s' : Store P) × (insert_new_block c reason b s ≡ ok s')
        × IsValid L s'
        × SameShape s s'
        × (keys s'.blocks ≡ keys s.blocks ++ b.block_key ∷ [])
  unfolding insert_new_block emit
  insert_new_block_lem c reason b s v absent room =
      let m = new_meta c b (s.access_seq + 1) in
      let (st, e, tr) = L.insert_tracks m s.evictor (keys s.blocks) v.tracked absent in
      let new = insert_new b.block_key m s.blocks absent in
      let behind : keys (insert b.block_key m s.blocks) ≡ keys s.blocks ++ b.block_key ∷ [] =
        rw (new, keys-append s.blocks) in
      (
        emit c (write_type s.tier) b reason (record s {
          access_seq = s.access_seq + 1;
          blocks = insert b.block_key m s.blocks;
          evictor = st;
        }),
        rw e,
        record {
          positive = v.positive;
          bounded =
              omega (arith, ap length new, length-append s.blocks ((b.block_key, m) ∷ []), room);
          distinct = rw behind (Distinct-snoc b.block_key (keys s.blocks) absent v.distinct);
          keyed = rw new (All-snoc IsKeyed s.blocks v.keyed refl);
          tracked = rw behind tr;
        },
        record { same_capacity = refl; same_tier = refl },
        behind,
      )

-- What one block's write does: the block is resident, no other block becomes so, and nothing is
-- lost while there is room.
pub record Wrote {P : EvictionPolicy} (b : PrefixBlock) (s s' : Store P) : Type 0 where
  pub shape : SameShape s s'
  pub resident : contains b.block_key (keys s'.blocks) ≡ true
  pub only :
      (j : String)
      → str_eq b.block_key j ≡ false
      → contains j (keys s'.blocks) ≡ true
      → contains j (keys s.blocks) ≡ true
  pub kept :
      length s.blocks < s.capacity_blocks
      → (j : String) → contains j (keys s.blocks) ≡ true
      → contains j (keys s'.blocks) ≡ true
  pub count : length s'.blocks ≡ (
      if contains b.block_key (keys s.blocks)
      then length s.blocks
      else min (suc (length s.blocks)) s.capacity_blocks)

module _ {P : EvictionPolicy} (L : LawfulPolicy P) (c : Call) (reason : String) (b : PrefixBlock)
    (s : Store P) (v : IsValid L s) where
  write_old_block :
      (m : BlockMeta)
      → lookup b.block_key s.blocks ≡ some m
      → (s' : Store P) × (write_block c reason b s ≡ ok s') × IsValid L s' × Wrote b s s'
  unfolding write_block
  write_old_block m found =
      let (s', e, v', same) = access_lem L s b.block_key m c.now_ms 0 v found in
      let here = contains_of_lookup b.block_key s.blocks found in
      (
        s',
        rw (found, write_block, e),
        v',
        record {
          shape = record { same_capacity = same.same_capacity; same_tier = same.same_tier };
          resident = rw same.same_keys here;
          only = λ j _ h. rw same.same_keys at h;
          kept = λ _ j h. rw same.same_keys h;
          count =
              rw here
                (sym (length-keys s'.blocks) ∙ ap length same.same_keys ∙ length-keys s.blocks);
        },
      )

  -- behind the eviction loop
  write_behind :
      (s1 : Store P)
      → lookup b.block_key s.blocks ≡ none
      → evict_until (suc (length s.blocks)) c s ≡ ok s1
      → IsValid L s1
      → Evicted s s1
      → length s1.blocks ≡ min (length s.blocks) (s.capacity_blocks - 1)
      → (s' : Store P) × (write_block c reason b s ≡ ok s') × IsValid L s' × Wrote b s s'
  unfolding write_block
  write_behind s1 miss e1 v1 out count =
      let absent = absent_of_lookup b.block_key s.blocks miss in
      let room : length s1.blocks < s1.capacity_blocks =
        omega (arith, count, out.shape.same_capacity, v.positive) in
      let absent1 : contains b.block_key (keys s1.blocks) ≡ false =
        ground (arith, out.fewer b.block_key) in
      let (s2, e2, v2, shape, behind) = insert_new_block_lem L c reason b s1 v1 absent1 room in
      (
        s2,
        rw (miss, write_block, e1, e2),
        v2,
        record {
          shape = SameShape-trans out.shape shape;
          resident = rw (
            behind,
            contains-snoc b.block_key b.block_key (keys s1.blocks),
            str_eq_self b.block_key,
          );
          only = λ j other h. out.fewer j (
              ground (arith, ap (contains j) behind, contains-snoc j b.block_key (keys s1.blocks)));
          kept = λ fits j h.
              let unchanged : s1 ≡ s = cc (e1, evict_until_room L (length s.blocks) c s fits) in
              let h1 : contains j (keys s1.blocks) ≡ true =
                subst (λ (x : Store P). contains j (keys x.blocks) ≡ true) (sym unchanged) h in
              ground (arith, ap (contains j) behind, contains-snoc j b.block_key (keys s1.blocks));
          count = rw absent (
              omega (
                arith,
                length-keys s2.blocks,
                ap length behind,
                length-append (keys s1.blocks) (b.block_key ∷ []),
                length-keys s1.blocks,
                count,
                v.positive,
              ));
        },
      )

  -- Writing a block into a valid cache raises nothing and keeps the invariant.
  pub write_block_lem :
      (s' : Store P) × (write_block c reason b s ≡ ok s') × IsValid L s' × Wrote b s s'
  write_block_lem = elim (Option-cases (lookup b.block_key s.blocks)) [
    | inl miss ↦
        let (s1, e1, v1, out, count) =
          evict_until_lem L (suc (length s.blocks)) c s (omega arith) v in
        write_behind s1 miss e1 v1 out count
    | inr (m, found) ↦ write_old_block m found
  ]

-- Everything of a list of blocks that is written, together.
pub record WroteAll {P : EvictionPolicy} (bs : List PrefixBlock) (s s' : Store P) : Type 0 where
  pub shape : SameShape s s'
  pub only :
      (j : String)
      → contains j (keys s'.blocks) ≡ true
      → (contains j (keys s.blocks) ≡ true) ⊎ (contains j (block_keys bs) ≡ true)
  pub kept :
      length s.blocks + length bs ≤ s.capacity_blocks
      → (j : String) → (contains j (keys s.blocks) ≡ true) ⊎ (contains j (block_keys bs) ≡ true)
      → contains j (keys s'.blocks) ≡ true

WroteAll-cons :
    {P : EvictionPolicy} (b : PrefixBlock) (bs : List PrefixBlock) (s s1 s2 : Store P)
    → Wrote b s s1
    → WroteAll bs s1 s2
    → WroteAll (b ∷ bs) s s2
unfolding contains
WroteAll-cons b bs s s1 s2 w ws = record {
  shape = SameShape-trans w.shape ws.shape;
  only = λ j h. elim (ws.only j h) [
    | inl now ↦ ground (arith, w.only j)
    | inr later ↦ inr (ground arith)
  ];
  kept = λ fits j h. ws.kept (ground (arith, w.count, w.shape.same_capacity)) j (elim h [
    | inl old ↦ inl (w.kept (omega arith) j old)
    | inr listed ↦ elim (Bool-cases (str_eq b.block_key j)) [
      | inl same ↦ inl (ground (arith, eq_iff b.block_key j))
      | inr other ↦ inr (ground arith)
    ]
  ]);
}

-- Writing blocks into a valid cache raises nothing and keeps the invariant: there are never more
-- blocks than the capacity. What is resident afterwards was so before or was written; while all of
-- it fits, nothing is lost.
pub write_lem :
    {P : EvictionPolicy} (L : LawfulPolicy P) (c : Call) (reason : String) (bs : List PrefixBlock)
    (s : Store P)
    → IsValid L s
    → (s' : Store P) × (write c reason bs s ≡ ok s') × IsValid L s' × WroteAll bs s s'
unfolding write contains
write_lem L c reason [] s v = (
  s,
  refl,
  v,
  record {
    shape = record { same_capacity = refl; same_tier = refl };
    only = λ j h. inl h;
    kept = λ fits j h. ground arith;
  },
)
write_lem L c reason (b ∷ bs) s v =
    let (s1, e1, v1, w1) = write_block_lem L c reason b s v in
    let (s2, e2, v2, w2) = write_lem L c reason bs s1 v1 in
    (s2, rw (e1, e2), v2, WroteAll-cons b bs s s1 s2 w1 w2)
