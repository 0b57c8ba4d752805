-- ===== src/Cache/Store/Lookup.antt =====
-- The invariant of a cache, and what `lookup_prefix` finds: the longest resident prefix.
use infer_twin.Base.Dict.Laws.{
  keys-insert_old, length-insert_old, All-insert, All-lookup, contains_of_lookup, absent_of_lookup,
}
use infer_twin.Base.Dict.{contains, Distinct, keys, lookup, insert}
use infer_twin.Base.{
  ℕ, ◌+◌, ◌≤◌, ◌<◌, String, List, [], ◌∷◌, ◌++◌, some, ok, if◌then◌else◌, arith, ◌≡◌, refl, eq_iff,
  Option-cases, inl, inr, length, All, drop, ap, sym, ◌∙◌, Bool-cases,
}
use infer_twin.Cache.Events.{EventType}
use infer_twin.Cache.Eviction.Laws.{LawfulPolicy}
use infer_twin.Cache.Eviction.{BlockMeta, EvictionPolicy}
use infer_twin.Cache.Store.{
  Store, Call, access, lookup_hits, emit_misses, lookup_prefix, lookup_result, emit, touched,
}
use infer_twin.Request.Block.{PrefixBlock}

-- Each entry stands under the key that its metadata names.
abbrev pub IsKeyed : String × BlockMeta → Type 0
IsKeyed e = e.1.block_key ≡ e.0

module _ {P : EvictionPolicy} (L : LawfulPolicy P) where
  -- A cache is within its capacity, holds no key twice, and its policy knows what is resident.
  pub record IsValid (s : Store P) : Type 0 where
    pub positive : 0 < s.capacity_blocks
    pub bounded : length s.blocks ≤ s.capacity_blocks
    pub distinct : Distinct (keys s.blocks)
    pub keyed : All IsKeyed s.blocks
    pub tracked : L.Tracks s.evictor (keys s.blocks)

-- What an operation that evicts nothing and writes nothing leaves alone.
pub record SameResidents {P : EvictionPolicy} (s s' : Store P) : Type 0 where
  pub same_keys : keys s'.blocks ≡ keys s.blocks
  pub same_capacity : s'.capacity_blocks ≡ s.capacity_blocks
  pub same_tier : s'.tier ≡ s.tier

-- the longest prefix of the blocks whose keys are all resident
unfoldable pub resident_prefix : List String → List PrefixBlock → List PrefixBlock
resident_prefix ks [] = []
resident_prefix ks (b ∷ bs) = if contains b.block_key ks then b ∷ resident_prefix ks bs else []

module _ {P : EvictionPolicy} where
  pub SameResidents-trans :
      {s t u : Store P} → SameResidents s t → SameResidents t u → SameResidents s u
  SameResidents-trans p q = record {
    same_keys = q.same_keys ∙ p.same_keys;
    same_capacity = q.same_capacity ∙ p.same_capacity;
    same_tier = q.same_tier ∙ p.same_tier;
  }

module _ {P : EvictionPolicy} (L : LawfulPolicy P) where
  pub access_lem :
      (s : Store P) (key : String) (m : BlockMeta) (now hits : ℕ)
      → IsValid L s
      → lookup key s.blocks ≡ some m
      → (s' : Store P) × (access key m now hits s ≡ ok s') × IsValid L s' × SameResidents s s'
  unfolding access
  access_lem s key m now hits v h =
      let here = contains_of_lookup key s.blocks h in
      let m' = touched m now (s.access_seq + 1) hits in
      let named : m.block_key ≡ key = All-lookup IsKeyed key s.blocks v.keyed h in
      let (st, e, tr) = L.access_tracks m' s.evictor (keys s.blocks) v.tracked (rw named here) in
      let same = keys-insert_old key m' s.blocks here in
      (
        record s { access_seq = s.access_seq + 1; blocks = insert key m' s.blocks; evictor = st },
        rw e,
        record {
          positive = v.positive;
          bounded = omega (arith, length-insert_old key m' s.blocks here, v.bounded);
          distinct = rw same v.distinct;
          keyed =
              All-insert IsKeyed key m' s.blocks (λ j q. named ∙ sym ((eq_iff j key).0 q)) v.keyed;
          tracked = rw same tr;
        },
        record { same_keys = same; same_capacity = refl; same_tier = refl },
      )

  pub emit-IsValid :
      (c : Call) (type : EventType) (b : PrefixBlock) (reason : String) (s : Store P)
      → IsValid L s
      → IsValid L (emit c type b reason s)
  unfolding emit
  emit-IsValid c type b reason s v = record {
    positive = v.positive;
    bounded = v.bounded;
    distinct = v.distinct;
    keyed = v.keyed;
    tracked = v.tracked;
  }

  emit-SameResidents :
      (c : Call) (type : EventType) (b : PrefixBlock) (reason : String) (s : Store P)
      → SameResidents s (emit c type b reason s)
  unfolding emit
  emit-SameResidents c type b reason s = record {
    same_keys = refl;
    same_capacity = refl;
    same_tier = refl;
  }

  emit_misses_lem :
      (c : Call) (bs : List PrefixBlock) (s : Store P)
      → IsValid L s
      → IsValid L (emit_misses c bs s) × SameResidents s (emit_misses c bs s)
  unfolding emit_misses
  emit_misses_lem c [] s v =
      (v, record { same_keys = refl; same_capacity = refl; same_tier = refl })
  emit_misses_lem c (b ∷ bs) s v =
      let s' = emit c EventType.lookup_miss b "prefix_miss" s in
      let (v', same) = emit_misses_lem c bs s' (emit-IsValid c _ b _ s v) in
      (v', SameResidents-trans (emit-SameResidents c _ b _ s) same)

  lookup_hits_lem :
      (c : Call) (bs : List PrefixBlock) (s : Store P)
      → IsValid L s
      → (s' : Store P) × (lookup_hits c bs s ≡ ok (resident_prefix (keys s.blocks) bs, s'))
        × IsValid L s'
        × SameResidents s s'
  unfolding lookup_hits resident_prefix
  lookup_hits_lem c [] s v =
      (s, refl, v, record { same_keys = refl; same_capacity = refl; same_tier = refl })
  lookup_hits_lem c (b ∷ bs) s v = elim (Option-cases (lookup b.block_key s.blocks)) [
    | inl miss ↦ (
      s,
      rw (miss, lookup_hits, absent_of_lookup b.block_key s.blocks miss),
      v,
      record { same_keys = refl; same_capacity = refl; same_tier = refl },
    )
    | inr (m, found) ↦
        let (s1, e1, v1, same1) = access_lem s b.block_key m c.now_ms 1 v found in
        let s2 = emit c EventType.lookup_hit b "prefix_hit" s1 in
        let same2 = SameResidents-trans same1 (emit-SameResidents c _ b _ s1) in
        let (s3, e3, v3, same3) = lookup_hits_lem c bs s2 (emit-IsValid c _ b _ s1 v1) in
        (
          s3,
          rw (
            found,
            lookup_hits,
            e1,
            e3,
            same2.same_keys,
            contains_of_lookup b.block_key s.blocks found,
          ),
          v3,
          SameResidents-trans same2 same3,
        )
  ]

  -- A lookup of a valid cache raises nothing; it returns the longest resident prefix as hits and
  -- the rest as misses, and changes neither what is resident nor the invariant.
  pub lookup_prefix_lem :
      (c : Call) (bs : List PrefixBlock) (s : Store P)
      → IsValid L s
      → (s' : Store P) × (lookup_prefix c bs s
          ≡ ok (
            lookup_result s.tier
                (resident_prefix (keys s.blocks) bs)
                (drop (length (resident_prefix (keys s.blocks) bs)) bs),
            s',
          ))
        × IsValid L s'
        × SameResidents s s'
  unfolding lookup_prefix
  lookup_prefix_lem c bs s v =
      let (s1, e1, v1, same1) = lookup_hits_lem c bs s v in
      let misses = drop (length (resident_prefix (keys s.blocks) bs)) bs in
      let (v2, same2) = emit_misses_lem c misses s1 v1 in
      (emit_misses c misses s1, rw e1, v2, SameResidents-trans same1 same2)

-- The resident prefix is a prefix: what is dropped behind it completes the blocks.
pub resident_prefix-append-drop :
    (ks : List String) (bs : List PrefixBlock)
    → resident_prefix ks bs ++ drop (length (resident_prefix ks bs)) bs ≡ bs
unfolding resident_prefix
resident_prefix-append-drop ks [] = refl
resident_prefix-append-drop ks (b ∷ bs) = elim (Bool-cases (contains b.block_key ks)) [
  | inl here ↦ rw here (ap (◌∷◌ b) (resident_prefix-append-drop ks bs))
  | inr absent ↦ rw absent
]
