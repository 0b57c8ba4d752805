-- ===== src/Cache/Store/Order.antt =====
-- The eviction order. A cache with the LRU policy refines an abstract LRU cache, which is nothing
-- but its keys, the least recently used one first.
use infer_twin.Base.Dict.Laws.{
  All-lookup, contains_of_lookup, absent_of_lookup, length-same, length-keys, without_absent,
}
use infer_twin.Base.Dict.{contains, without, keys, lookup}
use infer_twin.Base.{
  ℕ, zero, suc, ◌-◌, String, false, List, [], ◌∷◌, ◌++◌, some, ok, if◌then◌else◌, arith, ◌≡◌, refl,
  ap, ◌∙◌, str_eq_self, Option-cases, Bool-cases, inl, inr, length, drop, leb, leb→le, >>=-eq-ok,
}
use infer_twin.Cache.Events.{EventType}
use infer_twin.Cache.Eviction.Laws.{lru-LawfulPolicy}
use infer_twin.Cache.Eviction.{
  BlockMeta, lru, lru_on_insert, lru_on_access, lru_on_remove, lru_select_victim,
}
use infer_twin.Cache.Results.{PrefixLookupResult}
use infer_twin.Cache.Store.Lookup.{
  IsValid, IsKeyed, resident_prefix, access_lem, emit-IsValid, lookup_prefix_lem,
}
use infer_twin.Cache.Store.Write.{evict_one_lem, evict_until_lem, write_block_lem}
use infer_twin.Cache.Store.{
  Store, Call, access, emit, emit_misses, lookup_hits, lookup_prefix, lookup_result, evict_one,
  evict_until, insert_new_block, write_block, write,
}
use infer_twin.Request.Block.{PrefixBlock}

-- The abstract cache: a use of a key makes it the most recent.
pub use_key : String → List String → List String
use_key k recent = without k recent ++ k ∷ []

-- A lookup uses the keys up to the first that is not cached.
pub read_keys : List PrefixBlock → List String → List String
read_keys [] recent = recent
read_keys (b ∷ bs) recent =
    if contains b.block_key recent then read_keys bs (use_key b.block_key recent) else recent

-- A write uses a cached key. To cache another it drops the least recent keys that leave no room.
pub write_key : ℕ → String → List String → List String
write_key cap k recent =
    if contains k recent
    then use_key k recent
    else drop (suc (length recent) - cap) recent ++ k ∷ []

pub write_keys : ℕ → List PrefixBlock → List String → List String
write_keys cap [] recent = recent
write_keys cap (b ∷ bs) recent = write_keys cap bs (write_key cap b.block_key recent)

abbrev pub IsLruValid : Store lru → Type 0
IsLruValid = IsValid lru-LawfulPolicy

-- what the policy chooses
select_victim-first :
    (blocks : List (String × BlockMeta)) (recency : List String) {m : BlockMeta}
    → lru_select_victim blocks recency ≡ ok m
    → (k : String) × (rest : List String) × (recency ≡ k ∷ rest) × (lookup k blocks ≡ some m)
unfolding lru_select_victim
select_victim-first [] recency h = cc
select_victim-first (e ∷ blocks) [] h = cc
select_victim-first (e ∷ blocks) (k ∷ rest) {m} h = elim (Option-cases (lookup k (e ∷ blocks))) [
  | inl miss ↦ absurd (ground arith)
  | inr (m', found) ↦ (k, rest, refl, ground arith)
]

-- An eviction takes the least recently used key.
evict_first :
    (c : Call) (s s' : Store lru) (m : BlockMeta) (k : String) (rest : List String)
    → s.evictor ≡ k ∷ rest
    → lru_select_victim s.blocks s.evictor ≡ ok m
    → lookup k s.blocks ≡ some m
    → m.block_key ≡ k
    → evict_one c s ≡ ok s'
    → s'.evictor ≡ drop 1 s.evictor
unfolding evict_one lru_on_remove without contains
evict_first c s s' m k rest split chosen found named h = ground (arith, str_eq_self k)

evict_one-evictor :
    (c : Call) (s s' : Store lru)
    → IsLruValid s
    → evict_one c s ≡ ok s'
    → s'.evictor ≡ drop 1 s.evictor
unfolding evict_one
evict_one-evictor c s s' v h =
    let (m, chosen, h1) = >>=-eq-ok (lru_select_victim s.blocks s.evictor) _ h in
    let (k, rest, split, found) = select_victim-first s.blocks s.evictor chosen in
    evict_first c s s' m k rest split chosen found (All-lookup IsKeyed k s.blocks v.keyed found) h

-- The length of the abstract cache is the number of resident blocks.
length-evictor : (s : Store lru) → IsLruValid s → length s.evictor ≡ length s.blocks
length-evictor s v =
    length-same s.evictor (keys s.blocks) v.tracked.distinct v.distinct v.tracked.same
    ∙ length-keys s.blocks

drop-drop {ℓ} : {A : Type ℓ} (n : ℕ) (xs : List A) → drop n (drop 1 xs) ≡ drop (suc n) xs
drop-drop zero [] = refl
drop-drop (suc n) [] = refl
drop-drop n (x ∷ xs) = refl

-- The loop that makes room drops the least recent keys.
evict_until-evictor :
    (fuel : ℕ) (c : Call) (s s' : Store lru)
    → IsLruValid s
    → evict_until fuel c s ≡ ok s'
    → s'.evictor ≡ drop (suc (length s.blocks) - s.capacity_blocks) s.evictor
unfolding evict_until
evict_until-evictor zero c s s' v h = cc
evict_until-evictor (suc fuel) c s s' v h =
    elim (Bool-cases (leb s.capacity_blocks (length s.blocks))) [
      | inl full ↦
          let (s1, e1, v1, out, count) =
            evict_one_lem lru-LawfulPolicy c s v (ground (arith, v.positive)) in
          let ih = evict_until-evictor fuel c s1 s' v1 (ground arith) in
          let within = leb→le _ _ full in
          let last : suc (length s1.blocks) - s1.capacity_blocks ≡ 0 =
            omega (arith, count, out.shape.same_capacity, within, v.bounded) in
          let one : suc (length s.blocks) - s.capacity_blocks ≡ 1 =
            omega (arith, within, v.bounded) in
          rw one ((rw last at ih) ∙ evict_one-evictor c s s1 v e1)
      | inr room ↦
          let none_over : suc (length s.blocks) - s.capacity_blocks ≡ 0 = ground arith in
          rw none_over (ground arith)
    ]

-- What is resident is what the abstract cache holds.
resident_iff :
    (s : Store lru) (k : String) → IsLruValid s → contains k s.evictor ≡ contains k (keys s.blocks)
resident_iff s k v = v.tracked.same k

access-evictor :
    (s s' : Store lru) (key : String) (m : BlockMeta) (now hits : ℕ)
    → IsLruValid s
    → lookup key s.blocks ≡ some m
    → access key m now hits s ≡ ok s'
    → s'.evictor ≡ use_key key s.evictor
unfolding access lru_on_access use_key
access-evictor s s' key m now hits v found h =
    let named : m.block_key ≡ key = All-lookup IsKeyed key s.blocks v.keyed found in
    ground (arith, resident_iff s key v, contains_of_lookup key s.blocks found)

insert_new_block-evictor :
    (c : Call) (reason : String) (b : PrefixBlock) (s s' : Store lru)
    → contains b.block_key s.evictor ≡ false
    → insert_new_block c reason b s ≡ ok s'
    → s'.evictor ≡ s.evictor ++ b.block_key ∷ []
unfolding insert_new_block lru_on_insert emit
insert_new_block-evictor c reason b s s' absent h =
    ground (arith, without_absent b.block_key s.evictor absent)

write_block-evictor :
    (c : Call) (reason : String) (b : PrefixBlock) (s s' : Store lru)
    → IsLruValid s
    → write_block c reason b s ≡ ok s'
    → s'.evictor ≡ write_key s.capacity_blocks b.block_key s.evictor
unfolding write_block write_key
write_block-evictor c reason b s s' v h = elim (Option-cases (lookup b.block_key s.blocks)) [
  | inl miss ↦
      let (s1, e1, v1, out, count) =
        evict_until_lem lru-LawfulPolicy (suc (length s.blocks)) c s (omega arith) v in
      let absent = absent_of_lookup b.block_key s.blocks miss in
      let absent1 : contains b.block_key s1.evictor ≡ false =
        ground (arith, out.fewer b.block_key, resident_iff s1 b.block_key v1) in
      let inserted : insert_new_block c reason b s1 ≡ ok s' = ground arith in
      let dropped = evict_until-evictor (suc (length s.blocks)) c s s1 v e1 in
      rw (resident_iff s b.block_key v, absent, length-evictor s v, ← dropped)
        (insert_new_block-evictor c reason b s1 s' absent1 inserted)
  | inr (m, found) ↦
      rw (resident_iff s b.block_key v, contains_of_lookup b.block_key s.blocks found)
        (access-evictor s s' b.block_key m c.now_ms 0 v found (ground arith))
]

write_keys-nil : (cap : ℕ) (recent : List String) → recent ≡ write_keys cap [] recent
unfolding write_keys
write_keys-nil cap recent = refl

write_keys-cons :
    (cap : ℕ) (b : PrefixBlock) (bs : List PrefixBlock) (recent : List String)
    → write_keys cap (b ∷ bs) recent ≡ write_keys cap bs (write_key cap b.block_key recent)
unfolding write_keys
write_keys-cons cap b bs recent = refl

-- Writing blocks into a valid LRU cache raises nothing and gives a valid cache whose keys, in the
-- order of their last use, are those of the abstract cache after the same writes.
pub write-refines :
    (c : Call) (reason : String) (bs : List PrefixBlock) (s : Store lru)
    → IsLruValid s
    → (s' : Store lru) × (write c reason bs s ≡ ok s')
      × IsLruValid s'
      × (s'.evictor ≡ write_keys s.capacity_blocks bs s.evictor)
unfolding write
write-refines c reason [] s v = (s, refl, v, write_keys-nil s.capacity_blocks s.evictor)
write-refines c reason (b ∷ bs) s v =
    let (s1, e1, v1, w1) = write_block_lem lru-LawfulPolicy c reason b s v in
    let (s2, e2, v2, same) = write-refines c reason bs s1 v1 in
    let first = write_block-evictor c reason b s s1 v e1 in
    (
      s2,
      rw (e1, e2),
      v2,
      cc (same, first, w1.shape.same_capacity, write_keys-cons s.capacity_blocks b bs s.evictor),
    )

emit_misses-evictor :
    (c : Call) (bs : List PrefixBlock) (s : Store lru) → (emit_misses c bs s).evictor ≡ s.evictor
unfolding emit_misses emit
emit_misses-evictor c [] s = refl
emit_misses-evictor c (b ∷ bs) s = emit_misses-evictor c bs _

emit-SameKeys :
    (c : Call) (type : EventType) (b : PrefixBlock) (reason : String) (s : Store lru)
    → keys (emit c type b reason s).blocks ≡ keys s.blocks
unfolding emit
emit-SameKeys c type b reason s = refl

emit-evictor :
    (c : Call) (type : EventType) (b : PrefixBlock) (reason : String) (s : Store lru)
    → (emit c type b reason s).evictor ≡ s.evictor
unfolding emit
emit-evictor c type b reason s = refl

lookup_hits-refines :
    (c : Call) (bs : List PrefixBlock) (s : Store lru)
    → IsLruValid s
    → (s' : Store lru) × (lookup_hits c bs s ≡ ok (resident_prefix (keys s.blocks) bs, s'))
      × (s'.evictor ≡ read_keys bs s.evictor)
unfolding lookup_hits read_keys resident_prefix
lookup_hits-refines c [] s v = (s, refl, refl)
lookup_hits-refines c (b ∷ bs) s v = elim (Option-cases (lookup b.block_key s.blocks)) [
  | inl miss ↦
      let absent = absent_of_lookup b.block_key s.blocks miss in
      (s, rw (miss, lookup_hits, absent), rw (resident_iff s b.block_key v, absent))
  | inr (m, found) ↦
      let here = contains_of_lookup b.block_key s.blocks found in
      let (s1, e1, v1, same1) = access_lem lru-LawfulPolicy s b.block_key m c.now_ms 1 v found in
      let s2 = emit c EventType.lookup_hit b "prefix_hit" s1 in
      let v2 = emit-IsValid lru-LawfulPolicy c EventType.lookup_hit b "prefix_hit" s1 v1 in
      let used = access-evictor s s1 b.block_key m c.now_ms 1 v found e1 in
      let (s3, e3, later) = lookup_hits-refines c bs s2 v2 in
      let same2 = emit-SameKeys c EventType.lookup_hit b "prefix_hit" s1 in
      (
        s3,
        rw (found, lookup_hits, e1, e3, same2 ∙ same1.same_keys, here),
        rw (resident_iff s b.block_key v, here)
            (later
              ∙ ap (read_keys bs) (emit-evictor c EventType.lookup_hit b "prefix_hit" s1 ∙ used)),
      )
]

lookup_prefix-evictor :
    (c : Call) (bs : List PrefixBlock) (s : Store lru)
    → IsLruValid s
    → (r : PrefixLookupResult) × (s' : Store lru) × (lookup_prefix c bs s ≡ ok (r, s'))
      × (s'.evictor ≡ read_keys bs s.evictor)
unfolding lookup_prefix
lookup_prefix-evictor c bs s v =
    let (s1, e1, later) = lookup_hits-refines c bs s v in
    let hits = resident_prefix (keys s.blocks) bs in
    let misses = drop (length hits) bs in
    (
      lookup_result s.tier hits misses,
      emit_misses c misses s1,
      rw e1,
      emit_misses-evictor c misses s1 ∙ later,
    )

-- A lookup of a valid LRU cache returns the longest resident prefix as its hits and the rest as its
-- misses; it leaves a valid cache with the same blocks, in which the keys of the hits are, in order,
-- the most recently used ones, as in the abstract cache.
pub lookup_prefix-refines :
    (c : Call) (bs : List PrefixBlock) (s : Store lru)
    → IsLruValid s
    → (s' : Store lru) × (lookup_prefix c bs s
        ≡ ok (
          lookup_result s.tier
              (resident_prefix (keys s.blocks) bs)
              (drop (length (resident_prefix (keys s.blocks) bs)) bs),
          s',
        ))
      × IsLruValid s'
      × (keys s'.blocks ≡ keys s.blocks)
      × (s'.evictor ≡ read_keys bs s.evictor)
lookup_prefix-refines c bs s v =
    let (s1, e1, v1, same) = lookup_prefix_lem lru-LawfulPolicy c bs s v in
    let (r, s2, e2, later) = lookup_prefix-evictor c bs s v in
    (s1, e1, v1, same.same_keys, cc (e1, e2, later))
