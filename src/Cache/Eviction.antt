-- ===== src/Cache/Eviction.antt =====
-- src/infertwin/cache/eviction.py: the protocol of an eviction policy, and the LRU policy.
pub mod Laws
use infer_twin.Base.Dict.{contains, without, lookup}
use infer_twin.Base.{
  ℕ, String, Bool, List, [], ◌∷◌, ◌++◌, Option, none, some, Result, ok, raise, value_error,
  if◌then◌else◌, not,
}

-- The metadata of a resident block: `HBMBlockMeta` and `DDRBlockMeta`, which differ in the name of
-- the field for the writing request (`materialized_by_request_id`, `stored_by_request_id`). Both
-- are what the protocol `EvictableBlock` asks for.
pub record BlockMeta : Type 0 where
  pub block_key : String
  pub block_index : ℕ
  pub token_count : ℕ
  pub size_bytes : ℕ
  pub created_time_ms : ℕ
  pub last_access_time_ms : ℕ
  pub last_access_seq : ℕ
  pub hit_count : ℕ
  pub written_by_request_id : String
  pub instance_uuid : String

-- The protocol `HBMEvictionPolicy`. The `reason` of `on_access` is read by no policy.
pub record EvictionPolicy : Type 1 where
  pub State : Type 0
  pub start : State
  pub name : String
  pub on_insert : BlockMeta → State → Result State
  pub on_access : BlockMeta → State → Result State
  pub on_remove : BlockMeta → State → Result State
  pub select_victim : List (String × BlockMeta) → State → Result BlockMeta

-- `LRUEvictionPolicy`. The state is `_recency`, an `OrderedDict` without values: keys, the least
-- recently used one first.
unfoldable pub lru_on_insert : BlockMeta → List String → Result (List String)
lru_on_insert m recency = ok (without m.block_key recency ++ m.block_key ∷ [])

unfoldable pub lru_on_access : BlockMeta → List String → Result (List String)
lru_on_access m recency =
    if not (contains m.block_key recency)
    then raise value_error
    else ok (without m.block_key recency ++ m.block_key ∷ [])

unfoldable pub lru_on_remove : BlockMeta → List String → Result (List String)
lru_on_remove m recency =
    if not (contains m.block_key recency)
    then raise value_error
    else ok (without m.block_key recency)

-- The block under the first key of the recency, if it is resident.
resident_block : Option BlockMeta → Result BlockMeta
resident_block none = raise value_error
resident_block (some m) = ok m

unfoldable pub lru_select_victim : List (String × BlockMeta) → List String → Result BlockMeta
unfolding resident_block
lru_select_victim [] recency = raise value_error
lru_select_victim (e ∷ blocks) [] = raise value_error
lru_select_victim (e ∷ blocks) (key ∷ recency) = resident_block (lookup key (e ∷ blocks))

abbrev pub lru : EvictionPolicy
lru = record {
  State = List String;
  start = [];
  name = "lru";
  on_insert = lru_on_insert;
  on_access = lru_on_access;
  on_remove = lru_on_remove;
  select_victim = lru_select_victim;
}
