-- ===== src/Cache/Eviction/Laws.antt =====
-- What a cache relies on in its eviction policy, and that the LRU policy fulfils it.
use infer_twin.Base.Dict.Laws.{
  contains-append, contains-without, Distinct-without, Distinct-snoc, lookup_of_contains,
}
use infer_twin.Base.Dict.{contains, without, Distinct, keys, lookup}
use infer_twin.Base.{
  String, true, false, List, [], ◌∷◌, ◌++◌, some, ok, if◌then◌else◌, arith, ◌≡◌, ◌≢◌, refl, str_eq,
  eq_iff, str_eq_self,
}
use infer_twin.Cache.Eviction.{
  BlockMeta, EvictionPolicy, lru, lru_on_insert, lru_on_access, lru_on_remove, lru_select_victim,
}

-- `Tracks s ks`: the policy, in state `s`, has been told that exactly the keys `ks` are resident.
pub record LawfulPolicy (P : EvictionPolicy) : Type 1 where
  pub Tracks : P.State → List String → Type 0
  pub tracks_none : Tracks P.start []
  pub insert_tracks :
      (m : BlockMeta) (s : P.State) (ks : List String)
      → Tracks s ks
      → contains m.block_key ks ≡ false
      → (s' : P.State) × (P.on_insert m s ≡ ok s') × Tracks s' (ks ++ m.block_key ∷ [])
  pub access_tracks :
      (m : BlockMeta) (s : P.State) (ks : List String)
      → Tracks s ks
      → contains m.block_key ks ≡ true
      → (s' : P.State) × (P.on_access m s ≡ ok s') × Tracks s' ks
  pub remove_tracks :
      (m : BlockMeta) (s : P.State) (ks : List String)
      → Tracks s ks
      → Distinct ks
      → contains m.block_key ks ≡ true
      → (s' : P.State) × (P.on_remove m s ≡ ok s') × Tracks s' (without m.block_key ks)
  pub victim_resident :
      (blocks : List (String × BlockMeta)) (s : P.State)
      → Tracks s (keys blocks)
      → blocks ≢ []
      → (k : String) × (m : BlockMeta) × (lookup k blocks ≡ some m)
        × (P.select_victim blocks s ≡ ok m)

-- The recency list holds each resident key once, and no other.
pub record Recency (recency ks : List String) : Type 0 where
  pub distinct : Distinct recency
  pub same : (k : String) → contains k recency ≡ contains k ks

abbrev moved_to_end : String → List String → List String
moved_to_end k l = without k l ++ k ∷ []

contains-moved_to_end :
    (j k : String) (l : List String)
    → Distinct l
    → contains j (moved_to_end k l) ≡ (if str_eq k j then true else contains j l)
unfolding contains
contains-moved_to_end j k l d =
    ground (arith, contains-append j (without k l) (k ∷ []), contains-without j k l d)

contains-without_self :
    (k : String) (l : List String) → Distinct l → contains k (without k l) ≡ false
contains-without_self k l d = ground (arith, contains-without k k l d, str_eq_self k)

Distinct-moved_to_end : (k : String) (l : List String) → Distinct l → Distinct (moved_to_end k l)
Distinct-moved_to_end k l d =
    Distinct-snoc k (without k l) (contains-without_self k l d) (Distinct-without k l d)

-- Every key that `on_insert` or `on_access` names becomes the most recent.
moved_to_end-Recency :
    (k : String) (recency ks js : List String)
    → Recency recency ks
    → ((j : String) → contains j js ≡ (if str_eq k j then true else contains j ks))
    → Recency (moved_to_end k recency) js
moved_to_end-Recency k recency ks js r h = record {
  distinct = Distinct-moved_to_end k recency r.distinct;
  same = λ j. ground (arith, h j, contains-moved_to_end j k recency r.distinct, r.same j);
}

module _ (m : BlockMeta) (recency ks : List String) (r : Recency recency ks) where
  pub lru_insert_tracks :
      contains m.block_key ks ≡ false
      → (s : List String) × (lru_on_insert m recency ≡ ok s) × Recency s (ks ++ m.block_key ∷ [])
  unfolding lru_on_insert contains
  lru_insert_tracks h = (
    moved_to_end m.block_key recency,
    refl,
    moved_to_end-Recency m.block_key recency ks (ks ++ m.block_key ∷ []) r
        (λ j. ground (arith, contains-append j ks (m.block_key ∷ []))),
  )

  pub lru_access_tracks :
      contains m.block_key ks ≡ true
      → (s : List String) × (lru_on_access m recency ≡ ok s) × Recency s ks
  unfolding lru_on_access
  lru_access_tracks h = (
    moved_to_end m.block_key recency,
    ground (arith, r.same m.block_key),
    moved_to_end-Recency m.block_key recency ks ks r (λ j. ground (arith, eq_iff m.block_key j)),
  )

  pub lru_remove_tracks :
      Distinct ks
      → contains m.block_key ks ≡ true
      → (s : List String) × (lru_on_remove m recency ≡ ok s) × Recency s (without m.block_key ks)
  unfolding lru_on_remove
  lru_remove_tracks d h = (
    without m.block_key recency,
    ground (arith, r.same m.block_key),
    record {
      distinct = Distinct-without m.block_key recency r.distinct;
      same = λ j. ground (
        arith,
        contains-without j m.block_key recency r.distinct,
        contains-without j m.block_key ks d,
        r.same j,
      );
    },
  )

pub lru_victim_resident :
    (blocks : List (String × BlockMeta)) (recency : List String)
    → Recency recency (keys blocks)
    → blocks ≢ []
    → (k : String) × (m : BlockMeta) × (lookup k blocks ≡ some m)
      × (lru_select_victim blocks recency ≡ ok m)
unfolding lru_select_victim contains
lru_victim_resident [] recency r h = absurd (h refl)
lru_victim_resident ((i, m) ∷ blocks) [] r h = absurd (ground (arith, r.same i, str_eq_self i))
lru_victim_resident ((i, m) ∷ blocks) (k ∷ recency) r h =
    let (m', found) =
      lookup_of_contains k ((i, m) ∷ blocks) (ground (arith, r.same k, str_eq_self k)) in
    (k, m', found, rw found)

-- The LRU policy fulfils what a cache relies on.
abbrev pub lru-LawfulPolicy : LawfulPolicy lru
lru-LawfulPolicy = record {
  Tracks = Recency;
  tracks_none = record { distinct = tt; same = λ k. refl };
  insert_tracks = lru_insert_tracks;
  access_tracks = lru_access_tracks;
  remove_tracks = lru_remove_tracks;
  victim_resident = lru_victim_resident;
}
