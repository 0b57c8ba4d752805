-- ===== src/Scheduler/Queue.antt =====
-- src/infertwin/scheduler/queue.py: `WaitingQueue`, a list with an offset to its logical head.
pub mod Laws
use infer_twin.Base.Int.{ℤ, pos, negsuc}
use infer_twin.Base.{
  ℕ, zero, suc, ◌+◌, ◌-◌, ◌*◌, Bool, List, [], ◌∷◌, ◌++◌, Option, none, some, Result, ok, raise,
  index_error, ◌>>=◌, if◌then◌else◌, ltb, leb, length, drop, get_elem?,
}

pub record WaitingQueue {ℓ} (A : Type ℓ) : Type ℓ where
  pub items : List A
  pub head : ℕ

-- `_COMPACT_HEAD_THRESHOLD`
abbrev pub compact_head_threshold : ℕ
compact_head_threshold = 64

module _ {ℓ} {A : Type ℓ} where
  unfoldable pub init : List A → WaitingQueue A
  init states = record { items = states; head = 0 }

  -- `__len__`; the head is never behind the items
  unfoldable pub len : WaitingQueue A → ℕ
  len q = length q.items - q.head

  -- `__iter__`
  unfoldable pub iter : WaitingQueue A → List A
  iter q = drop q.head q.items

  unfoldable pub append : A → WaitingQueue A → WaitingQueue A
  append x q = record q { items = q.items ++ x ∷ [] }

  unfoldable pub compact_if_needed : WaitingQueue A → WaitingQueue A
  compact_if_needed q =
      if ltb q.head compact_head_threshold
      then q
      else if ltb (q.head * 2) (length q.items)
      then q
      else record { items = drop q.head q.items; head = 0 }

  -- `self._items[i]`
  unfoldable pub item_at : ℕ → List A → Result A
  item_at i [] = raise index_error
  item_at zero (x ∷ xs) = ok x
  item_at (suc i) (x ∷ xs) = item_at i xs

  -- `self._items.pop(i)`
  unfoldable pub pop_at : ℕ → List A → Result (A × List A)
  pop_at i [] = raise index_error
  pop_at zero (x ∷ xs) = ok (x, xs)
  pop_at (suc i) (x ∷ xs) = do (y, rest) ← pop_at i xs; ok (y, x ∷ rest)

  unfoldable pub popleft : WaitingQueue A → Result (A × WaitingQueue A)
  unfolding len item_at compact_if_needed
  popleft q =
      if leb (len q) 0
      then raise index_error
      else do x ← item_at q.head q.items; ok (x, compact_if_needed (record q { head = q.head + 1 }))

  unfoldable pub normalize_index : ℤ → WaitingQueue A → Result ℕ
  unfolding len
  normalize_index (pos i) q = if leb (len q) i then raise index_error else ok i
  normalize_index (negsuc n) q = if leb (len q) n then raise index_error else ok (len q - suc n)

  unfoldable pub get_item : ℤ → WaitingQueue A → Result A
  unfolding normalize_index item_at
  get_item index q = do i ← normalize_index index q; item_at (q.head + i) q.items

  -- `pop`, behind the index
  unfoldable pub pop_logical : ℕ → WaitingQueue A → Result (A × WaitingQueue A)
  unfolding popleft pop_at
  pop_logical zero q = popleft q
  pop_logical (suc i) q = do
    (x, rest) ← pop_at (q.head + suc i) q.items
    ok (x, compact_if_needed (record q { items = rest }))

  unfoldable pub pop : ℤ → WaitingQueue A → Result (A × WaitingQueue A)
  unfolding normalize_index pop_logical
  pop index q = do i ← normalize_index index q; pop_logical i q
