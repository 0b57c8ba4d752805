-- ===== src/Scheduler/Queue/Laws.antt =====
-- The queue refines a list: the offset and the compaction cannot be seen, and bound the space.
use infer_twin.Base.Int.{ℤ, pos, negsuc}
use infer_twin.Base.{
  ℕ, zero, suc, ◌+◌, ◌-◌, ◌*◌, ◌≤◌, ◌<◌, max, false, List, [], ◌∷◌, ◌++◌, Result, ok, raise,
  index_error, arith, ◌≡◌, refl, sym, ◌∙◌, ltb, leb, length, drop, length-append, length-drop,
  Bool-cases, inl, inr, ◌⊎◌, >>=-eq-ok, IfOk, IfOk-of, ap, subst, if◌then◌else◌,
}
use native.Mathlib.Numerals.{add-one}
use infer_twin.Scheduler.Queue.{
  WaitingQueue, len, iter, append, compact_if_needed, item_at, pop_at, popleft, normalize_index,
  get_item, pop_logical, pop, compact_head_threshold,
}

-- The head is within the items, and the dead items are few or fewer than half.
pub record IsCompact {ℓ} {A : Type ℓ} (q : WaitingQueue A) : Type ℓ where
  pub within : q.head ≤ length q.items
  pub dead : (q.head < compact_head_threshold) ⊎ (q.head * 2 < length q.items)

module _ {ℓ} {A : Type ℓ} where
  -- Python's `list.pop(index)`
  unfoldable pub pop_list : ℤ → List A → Result (A × List A)
  unfolding pop_at
  pop_list (pos i) xs = pop_at i xs
  pop_list (negsuc n) xs =
      if leb (length xs) n then raise index_error else pop_at (length xs - suc n) xs

  -- The same exception, or the same request and the same requests left.
  pub data Popped : Result (A × List A) → Result (A × WaitingQueue A) → Type ℓ where
    nothing : Popped (raise index_error) (raise index_error)
    popped_item :
        {x : A} {xs : List A} {q : WaitingQueue A}
        → iter q ≡ xs
        → IsCompact q
        → Popped (ok (x, xs)) (ok (x, q))

  pub len-iter : (q : WaitingQueue A) → len q ≡ length (iter q)
  unfolding len iter
  len-iter q = omega (arith, length-drop q.head q.items)

  -- The space: at most 63 dead items, or no more than there are live ones.
  pub items-bounded :
      (q : WaitingQueue A)
      → IsCompact q
      → length q.items ≤ max (63 + length (iter q)) (2 * length (iter q))
  unfolding iter
  items-bounded q c = omega (arith, length-drop q.head q.items)

  drop-append_le : (n : ℕ) (xs ys : List A) → n ≤ length xs → drop n (xs ++ ys) ≡ drop n xs ++ ys
  drop-append_le zero xs ys h = refl
  drop-append_le (suc n) [] ys h = absurd (omega arith)
  drop-append_le (suc n) (x ∷ xs) ys h = drop-append_le n xs ys (omega arith)

  -- Appending puts a request behind all others.
  pub iter-append :
      (x : A) (q : WaitingQueue A)
      → IsCompact q
      → (iter (append x q) ≡ iter q ++ x ∷ []) × IsCompact (append x q)
  unfolding iter append
  iter-append x q c = (
    drop-append_le q.head q.items (x ∷ []) c.within,
    record {
      within = omega (arith, length-append q.items (x ∷ []));
      dead = elim c.dead [
        | inl few ↦ inl few
        | inr half ↦ inr (omega (arith, length-append q.items (x ∷ [])))
      ];
    },
  )

  iter-IsCompact :
      (q : WaitingQueue A)
      → q.head ≤ length q.items
      → (iter (compact_if_needed q) ≡ iter q) × IsCompact (compact_if_needed q)
  unfolding iter compact_if_needed
  iter-IsCompact q h = elim (Bool-cases (ltb q.head compact_head_threshold)) [
    | inl few ↦ rw few (refl, record { within = h; dead = inl (ground arith) })
    | inr many ↦ elim (Bool-cases (ltb (q.head * 2) (length q.items))) [
      | inl half ↦ rw (many, half) (refl, record { within = h; dead = inr (ground arith) })
      | inr over ↦ rw (many, over) (refl, record { within = omega arith; dead = inl (omega arith) })
    ]
  ]

  pub item_at-drop :
      (n : ℕ) (xs ys : List A) {y : A}
      → drop n xs ≡ y ∷ ys
      → (item_at n xs ≡ ok y) × (drop (suc n) xs ≡ ys) × (suc n ≤ length xs)
  unfolding item_at
  item_at-drop zero [] ys h = cc
  item_at-drop zero (x ∷ xs) ys h = (ground arith, ground arith, omega arith)
  item_at-drop (suc n) [] ys h = cc
  item_at-drop (suc n) (x ∷ xs) ys h =
      let (e, d, l) = item_at-drop n xs ys h in (e, d, omega (arith, l))

  -- `queue[0]` is the request in front.
  pub get_item-front :
      (q : WaitingQueue A) (x : A) (xs : List A)
      → IsCompact q
      → iter q ≡ x ∷ xs
      → get_item (pos 0) q ≡ ok x
  unfolding get_item normalize_index iter len
  get_item-front q x xs c h =
      let (found, rest, within) = item_at-drop q.head q.items xs h in
      let some_left : leb (length q.items - q.head) 0 ≡ false = ground arith in
      let first : q.head + 0 ≡ q.head = omega arith in rw (some_left, first, found) refl

  pop_at-length :
      (i : ℕ) (xs rest : List A) {y : A}
      → pop_at i xs ≡ ok (y, rest)
      → suc (length rest) ≡ length xs
  unfolding pop_at
  pop_at-length i [] rest h = cc
  pop_at-length zero (x ∷ xs) rest h = ground arith
  pop_at-length (suc i) (x ∷ xs) rest h =
      let ((y, ys), popped, e) = >>=-eq-ok (pop_at i xs) _ h in
      let ih = pop_at-length i xs ys popped in ground arith

  pop_at-drop :
      (n i j : ℕ) (xs rest : List A) {y : A}
      → j ≡ n + i
      → pop_at i (drop n xs) ≡ ok (y, rest)
      → (ys : List A) × (pop_at j xs ≡ ok (y, ys))
        × (drop n ys ≡ rest)
        × (suc (length ys) ≡ length xs)
        × (n ≤ length ys)
  unfolding pop_at
  pop_at-drop zero i j xs rest e h =
      let same : j ≡ i = omega arith in
      (rest, rw same h, refl, pop_at-length i xs rest h, omega arith)
  pop_at-drop (suc n) i j [] rest e h = cc
  pop_at-drop (suc n) i zero (x ∷ xs) rest e h = absurd (omega arith)
  pop_at-drop (suc n) i (suc j) (x ∷ xs) rest e h =
      let (ys, popped, dropped, count, within) = pop_at-drop n i j xs rest (omega arith) h in
      (x ∷ ys, rw popped, dropped, omega (arith, count), omega (arith, within))

  -- A request is taken from the front.
  pub popleft-refines :
      (q : WaitingQueue A) (x : A) (xs : List A)
      → IsCompact q
      → iter q ≡ x ∷ xs
      → (q' : WaitingQueue A) × (popleft q ≡ ok (x, q')) × (iter q' ≡ xs) × IsCompact q'
  unfolding popleft len iter
  popleft-refines q x xs c h =
      let (found, rest, within) = item_at-drop q.head q.items xs h in
      let q1 : WaitingQueue A = record q { head = q.head + 1 } in
      let (same, good) = iter-IsCompact q1 (omega arith) in
      let some_left : leb (length q.items - q.head) 0 ≡ false = ground arith in
      (compact_if_needed q1, rw (some_left, found), same ∙ rw add-one rest, good)

  pop_at-bound : (i : ℕ) (xs rest : List A) {y : A} → pop_at i xs ≡ ok (y, rest) → i < length xs
  unfolding pop_at
  pop_at-bound i [] rest h = cc
  pop_at-bound zero (x ∷ xs) rest h = omega arith
  pop_at-bound (suc i) (x ∷ xs) rest h =
      let ((y, ys), popped, e) = >>=-eq-ok (pop_at i xs) _ h in
      omega (arith, pop_at-bound i xs ys popped)

  pop_at-zero : (xs rest : List A) {y : A} → pop_at 0 xs ≡ ok (y, rest) → xs ≡ y ∷ rest
  unfolding pop_at
  pop_at-zero [] rest h = cc
  pop_at-zero (x ∷ xs) rest h = cc

  pop_logical-refines :
      (q : WaitingQueue A) (i : ℕ) (x : A) (xs : List A)
      → IsCompact q
      → pop_at i (iter q) ≡ ok (x, xs)
      → (q' : WaitingQueue A) × (pop_logical i q ≡ ok (x, q')) × (iter q' ≡ xs) × IsCompact q'
  unfolding pop_logical iter
  pop_logical-refines q zero x xs c h = popleft-refines q x xs c (pop_at-zero (iter q) xs h)
  pop_logical-refines q (suc i) x xs c h =
      let (ys, popped, dropped, count, within) =
        pop_at-drop q.head (suc i) (q.head + suc i) q.items xs refl h in
      let (same, good) = iter-IsCompact (record q { items = ys }) within in
      (compact_if_needed (record q { items = ys }), rw popped refl, same ∙ dropped, good)

  pop_at-past : (i : ℕ) (xs : List A) → length xs ≤ i → pop_at i xs ≡ raise index_error
  unfolding pop_at
  pop_at-past i [] h = refl
  pop_at-past zero (x ∷ xs) h = absurd (omega arith)
  pop_at-past (suc i) (x ∷ xs) h = rw (pop_at-past i xs (omega arith)) refl

  pop_at-within :
      (i : ℕ) (xs : List A)
      → i < length xs
      → (x : A) × (rest : List A) × (pop_at i xs ≡ ok (x, rest))
  unfolding pop_at
  pop_at-within i [] h = absurd (omega arith)
  pop_at-within zero (x ∷ xs) h = (x, xs, refl)
  pop_at-within (suc i) (x ∷ xs) h =
      let (y, rest, e) = pop_at-within i xs (omega arith) in (y, x ∷ rest, rw e refl)

  -- a place within the queue
  pop_logical-within :
      (q : WaitingQueue A) (i : ℕ)
      → IsCompact q
      → i < length (iter q)
      → Popped (pop_at i (iter q)) (pop_logical i q)
  pop_logical-within q i c h =
      let (x, xs, e) = pop_at-within i (iter q) h in
      let (q', popped, same, good) = pop_logical-refines q i x xs c e in
      rw (e, popped) (popped_item same good)

  -- `pop(index)` of a compact queue does what Python's `pop(index)` does to the list of its requests,
  -- for every index, negative or out of range too: it raises the same exception, or removes the same
  -- request and leaves a compact queue of the same requests in the same order.
  pub pop-refines :
      (q : WaitingQueue A) (index : ℤ)
      → IsCompact q
      → Popped (pop_list index (iter q)) (pop index q)
  unfolding pop normalize_index pop_list
  pop-refines q (pos i) c =
      let e = len-iter q in
      elim (Bool-cases (leb (len q) i)) [
        | inl past ↦
            let none_there = pop_at-past i (iter q) (ground arith) in rw (past, none_there) nothing
        | inr inside ↦ rw inside (pop_logical-within q i c (ground arith))
      ]
  pop-refines q (negsuc n) c =
      let e = len-iter q in
      elim (Bool-cases (leb (len q) n)) [
        | inl past ↦ rw (sym e, past) nothing
        | inr inside ↦ rw (sym e, inside) (pop_logical-within q (len q - suc n) c (ground arith))
      ]

  shorter :
      (n : ℕ) {items : Result (A × List A)} {queue : Result (A × WaitingQueue A)}
      → Popped items queue
      → IfOk (λ p. suc (length p.1) ≡ n) items
      → IfOk (λ p. (suc (len p.1) ≡ n) × IsCompact p.1) queue
  shorter n nothing h = tt
  shorter n (popped_item {q = q'} same good) h =
      (omega (arith, len-iter q', ap length same, h), good)

  -- What `pop` leaves is a compact queue with one request less.
  pub pop-shorter :
      (i : ℕ) (q : WaitingQueue A)
      → IsCompact q
      → (popped : A × WaitingQueue A) → pop (pos i) q ≡ ok popped
      → (suc (len popped.1) ≡ len q) × IsCompact popped.1
  unfolding pop_list
  pop-shorter i q c popped h = subst (IfOk (λ p. (suc (len p.1) ≡ len q) × IsCompact p.1)) h (
      shorter (len q) (pop-refines q (pos i) c) (
        IfOk-of _ (pop_at i (iter q))
          (λ p e. omega (arith, pop_at-length i (iter q) p.1 e, len-iter q))))
