-- ===== src/Instance/Replay/Laws.antt =====
-- What a flush of the events writes, and that the heap stays in order.
use infer_twin.Base.Dict.Laws.{lookup-insert}
use infer_twin.Base.Dict.{contains, keys}
use infer_twin.Base.Order.{insert_sorted}
use infer_twin.Base.{
  ℕ, ◌+◌, ◌≤◌, String, str_eq, Bool, true, false, ◌&&◌, ◌||◌, List, [], ◌∷◌, Option, none, some,
  if◌then◌else◌, leb, ◌≡◌, refl, ap, ◌∙◌, arith, All, All-imp, Bool-cases, inl, inr, eq_iff,
}
use infer_twin.Cache.Infinite.Laws.{contains-materialize}
use infer_twin.Cache.Infinite.{materialize}
use infer_twin.Instance.Replay.{
  MaterializeEvent, Engine, cache_for, event_before, schedule_materialize, due, apply_event,
  flush_loop, flush_events_until,
}
use infer_twin.Request.Block.{PrefixBlock, block_keys}
use mathlib.Core.List.Perm
use mathlib.Core.List.{Perm}

-- a block is in the cache of an instance
abbrev pub resident : (uuid key : String) → Engine → Bool
resident uuid key e = contains key (keys (cache_for uuid e).blocks)

-- an event that is due writes a block for an instance
abbrev pub writes : Option ℕ → (uuid key : String) → MaterializeEvent → Bool
writes now uuid key event =
    due now event && (str_eq event.instance_uuid uuid && contains key (block_keys event.blocks))

abbrev pub written : Option ℕ → (uuid key : String) → List MaterializeEvent → Bool
written now uuid key [] = false
written now uuid key (event ∷ events) = writes now uuid key event || written now uuid key events

-- the events that are not due
abbrev pub later : Option ℕ → List MaterializeEvent → List MaterializeEvent
later now [] = []
later now (event ∷ events) = if due now event then later now events else event ∷ later now events

abbrev pub InOrder : List MaterializeEvent → Type 0
InOrder [] = Unit
InOrder (event ∷ events) =
    All (λ x. event.finish_time_ms ≤ x.finish_time_ms) events × InOrder events

-- The events that are due are written and no longer in the heap, which is in order.
pub record Flushed (now : Option ℕ) (events : List MaterializeEvent) (e f : Engine) : Type 0 where
  pub left : f.events ≡ later now events
  pub in_order : InOrder f.events
  pub residents :
      (uuid key : String)
      → resident uuid key f ≡ (resident uuid key e || written now uuid key events)

apply_event-resident :
    (uuid key : String) (event : MaterializeEvent) (e : Engine)
    → resident uuid key (apply_event event e) ≡ (
        resident uuid key e
        || (str_eq event.instance_uuid uuid && contains key (block_keys event.blocks)))
unfolding cache_for
apply_event-resident uuid key event e =
    let cache = materialize event.finish_time_ms event.blocks (cache_for event.instance_uuid e) in
    let found = lookup-insert event.instance_uuid uuid cache e.instances in
    elim (Bool-cases (str_eq event.instance_uuid uuid)) [
      | inl same ↦
          let p = (eq_iff event.instance_uuid uuid).0 same in
          let filled =
            contains-materialize key event.finish_time_ms event.blocks
              (cache_for event.instance_uuid e) in
          rw (found, same, filled, p) refl
      | inr other ↦ rw (found, other) (ground arith)
    ]

due-later :
    (now : Option ℕ) (a b : MaterializeEvent)
    → due now a ≡ false
    → a.finish_time_ms ≤ b.finish_time_ms
    → due now b ≡ false
due-later none a b h le = cc
due-later (some t) a b h le = ground arith

-- Where no event is due, all are left and nothing is written.
later-all :
    (now : Option ℕ) (events : List MaterializeEvent)
    → All (λ x. due now x ≡ false) events
    → later now events ≡ events
later-all now [] h = refl
later-all now (event ∷ events) (h, hs) = rw (h, later-all now events hs) refl

written-none :
    (now : Option ℕ) (uuid key : String) (events : List MaterializeEvent)
    → All (λ x. due now x ≡ false) events
    → written now uuid key events ≡ false
written-none now uuid key [] h = refl
written-none now uuid key (event ∷ events) (h, hs) =
    rw (h, written-none now uuid key events hs) refl

flush_loop-Flushed :
    (now : Option ℕ) (events : List MaterializeEvent) (e : Engine)
    → InOrder events
    → Flushed now events e (flush_loop now events e)
unfolding flush_loop cache_for
flush_loop-Flushed now [] e h = record {
  left = refl;
  in_order = tt;
  residents = λ uuid key. ground arith;
}
flush_loop-Flushed now (event ∷ events) e (first, rest) = elim (Bool-cases (due now event)) [
  | inl now_due ↦
      let f = flush_loop-Flushed now events (apply_event event e) rest in
      record {
        left = rw now_due f.left;
        in_order = rw now_due f.in_order;
        residents = λ uuid key.
            let e1 = apply_event-resident uuid key event e in
            let e2 = f.residents uuid key in rw now_due (ground (arith, e1, e2));
      }
  | inr not_due ↦
      let none_due = All-imp _ _ events (λ x le. due-later now event x not_due le) first in
      record {
        left = rw (not_due, later-all now events none_due) refl;
        in_order = rw not_due (first, rest);
        residents =
            λ uuid key. rw (not_due, written-none now uuid key events none_due) (ground arith);
      }
]

-- The new event stands where its time puts it.
written-insert :
    (now : Option ℕ) (uuid key : String) (x : MaterializeEvent) (events : List MaterializeEvent)
    → written now uuid key (insert_sorted event_before x events)
      ≡ (writes now uuid key x || written now uuid key events)
unfolding insert_sorted
written-insert now uuid key x [] = refl
written-insert now uuid key x (event ∷ events) = elim (Bool-cases (event_before x event)) [
  | inl before ↦ rw before refl
  | inr after ↦ rw after (ground (arith, written-insert now uuid key x events))
]

All-insert_sorted :
    (P : MaterializeEvent → Type 0) (x : MaterializeEvent) (events : List MaterializeEvent)
    → P x
    → All P events
    → All P (insert_sorted event_before x events)
unfolding insert_sorted
All-insert_sorted P x [] p known = (p, tt)
All-insert_sorted P x (event ∷ events) p (now, known) = elim (Bool-cases (event_before x event)) [
  | inl before ↦ rw before (p, (now, known))
  | inr after ↦ rw after (now, All-insert_sorted P x events p known)
]

before-le : (a b : MaterializeEvent) → event_before a b ≡ true → a.finish_time_ms ≤ b.finish_time_ms
before-le a b h = ground arith

after-le : (a b : MaterializeEvent) → event_before a b ≡ false → b.finish_time_ms ≤ a.finish_time_ms
after-le a b h = ground arith

InOrder-insert :
    (x : MaterializeEvent) (events : List MaterializeEvent)
    → InOrder events
    → InOrder (insert_sorted event_before x events)
unfolding insert_sorted
InOrder-insert x [] h = (tt, tt)
InOrder-insert x (event ∷ events) (first, rest) = elim (Bool-cases (event_before x event)) [
  | inl before ↦
      let le = before-le x event before in
      rw before ((le, All-imp _ _ events (λ y next. omega (arith, le, next)) first), (first, rest))
  | inr after ↦ rw after (
    All-insert_sorted (λ y. event.finish_time_ms ≤ y.finish_time_ms) x events
        (after-le x event after) first,
    InOrder-insert x events rest,
  )
]

-- A block is scheduled for an instance, and the time is due.
abbrev pub scheduled_now :
    Option ℕ → (uuid key instance_uuid : String) → List PrefixBlock → (finish_time : ℕ) → Bool
scheduled_now none uuid key instance_uuid blocks finish_time =
    str_eq instance_uuid uuid && contains key (block_keys blocks)
scheduled_now (some now) uuid key instance_uuid blocks finish_time =
    leb finish_time now && (str_eq instance_uuid uuid && contains key (block_keys blocks))

-- the events, with one for the scheduled blocks if there are any
abbrev pub with_scheduled :
    (instance_uuid : String) → List PrefixBlock → (finish_time : ℕ) → Engine → List MaterializeEvent
with_scheduled instance_uuid [] finish_time e = e.events
with_scheduled instance_uuid (b ∷ blocks) finish_time e =
    (record {
      finish_time_ms = finish_time;
      sequence = e.sequence + 1;
      instance_uuid = instance_uuid;
      blocks = b ∷ blocks;
    })
    ∷ e.events

-- The heap stays in order and keeps exactly the events that are not due, those of the scheduled blocks
-- among them. The caches hold what they held, what
-- older events wrote, and the scheduled blocks once their time is due.
pub record Written (now : Option ℕ) (instance_uuid : String) (blocks : List PrefixBlock)
    (finish_time : ℕ) (e f : Engine) : Type 0 where
  pub in_order : InOrder f.events
  pub kept : Perm f.events (later now (with_scheduled instance_uuid blocks finish_time e))
  pub none_due : All (λ x. due now x ≡ false) f.events
  pub residents :
      (uuid key : String)
      → resident uuid key f ≡ (
          resident uuid key e
          || (scheduled_now now uuid key instance_uuid blocks finish_time
              || written now uuid key e.events))

scheduled_now-nil :
    (now : Option ℕ) (uuid key instance_uuid : String) (finish_time : ℕ)
    → scheduled_now now uuid key instance_uuid [] finish_time ≡ false
unfolding contains
scheduled_now-nil none uuid key instance_uuid finish_time = ground arith
scheduled_now-nil (some t) uuid key instance_uuid finish_time = ground arith

writes-scheduled_now :
    (now : Option ℕ) (uuid key : String) (event : MaterializeEvent)
    → writes now uuid key event
      ≡ scheduled_now now uuid key event.instance_uuid event.blocks event.finish_time_ms
writes-scheduled_now none uuid key event = refl
writes-scheduled_now (some t) uuid key event = refl

later-insert-Perm :
    (now : Option ℕ) (x : MaterializeEvent) (events : List MaterializeEvent)
    → Perm (later now (insert_sorted event_before x events)) (later now (x ∷ events))
unfolding insert_sorted
later-insert-Perm now x [] = Perm.rfl
later-insert-Perm now x (event ∷ events) = elim (Bool-cases (event_before x event)) [
  | inl before ↦ rw before Perm.rfl
  | inr after ↦ rw after (
      behind (due now x) (due now event) (later now (insert_sorted event_before x events))
        (later now events) (later-insert-Perm now x events))
]
  where
    -- the new event and the first one change places
    behind :
        (p q : Bool) (front rest : List MaterializeEvent)
        → Perm front (if p then rest else x ∷ rest)
        → Perm (if q then front else event ∷ front) (
            if p
            then (if q then rest else event ∷ rest)
            else x ∷ (if q then rest else event ∷ rest))
    behind true true front rest h = h
    behind true false front rest h = Perm.cons event h
    behind false true front rest h = h
    behind false false front rest h = Perm.trans (Perm.cons event h) (Perm.swap x event rest)

later-none_due :
    (now : Option ℕ) (events : List MaterializeEvent)
    → All (λ x. due now x ≡ false) (later now events)
later-none_due now [] = tt
later-none_due now (event ∷ events) = elim (Bool-cases (due now event)) [
  | inl now_due ↦ rw now_due (later-none_due now events)
  | inr not_due ↦ rw not_due (not_due, later-none_due now events)
]

-- What is scheduled on an engine with its heap in order is written by a flush exactly when its time is
-- due, into the cache of its instance and into no other one, together with all that is due; the heap
-- stays in order and keeps exactly the events that are not due.
pub schedule-flush-Written :
    (now : Option ℕ) (instance_uuid : String) (blocks : List PrefixBlock) (finish_time : ℕ)
    (e : Engine)
    → InOrder e.events
    → Written now instance_uuid blocks finish_time e
        (flush_events_until now (schedule_materialize instance_uuid blocks finish_time e))
unfolding flush_events_until schedule_materialize cache_for
schedule-flush-Written now instance_uuid [] finish_time e h =
    let f = flush_loop-Flushed now e.events e h in
    record {
      in_order = f.in_order;
      kept = rw f.left Perm.rfl;
      none_due = rw f.left (later-none_due now e.events);
      residents = λ uuid key.
          rw (scheduled_now-nil now uuid key instance_uuid finish_time) (f.residents uuid key);
    }
schedule-flush-Written now instance_uuid (b ∷ blocks) finish_time e h =
    let event : MaterializeEvent = record {
      finish_time_ms = finish_time;
      sequence = e.sequence + 1;
      instance_uuid = instance_uuid;
      blocks = b ∷ blocks;
    } in
    let events = insert_sorted event_before event e.events in
    let e1 : Engine = record e { sequence = e.sequence + 1; events = events } in
    let f = flush_loop-Flushed now events e1 (InOrder-insert event e.events h) in
    record {
      in_order = f.in_order;
      kept = rw f.left (later-insert-Perm now event e.events);
      none_due = rw f.left (later-none_due now events);
      residents = λ uuid key.
          f.residents uuid key
          ∙ ap (λ w. resident uuid key e || w)
              (written-insert now uuid key event e.events
                ∙ ap (λ w. w || written now uuid key e.events)
                    (writes-scheduled_now now uuid key event));
    }
