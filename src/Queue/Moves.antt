-- ===== src/Queue/Moves.antt =====
-- server/videoqueue.ts: `move`, `insert` and `evict` put each item where it is meant to be, and undo
-- one another.
use opentogethertube_cn.Common.{
  ℕ, zero, suc, ◌≤◌, ◌<◌, ◌≡◌, refl, true, false, some, List, [], ◌∷◌, arith, length, ◌⊎◌,
  get_elem?, Bool-cases, Option-cases, inl, inr, eqb,
}
use opentogethertube_cn.Common.Int.{pos}
use opentogethertube_cn.Exceptions.{ok, err, video_not_found}
use opentogethertube_cn.Queue.{
  QueueItem, VideoId, VideoQueue, is_video, remove_at, insert_at, move, insert, evict, contains,
  index_from, max_queue_items,
}
use opentogethertube_cn.Queue.Items.{
  insert_at-remove_at, remove_at-insert_at, get_elem?-insert_at, length-remove_at, length-insert_at,
  insert_at-perm, index_from-IsFirst,
}
use mathlib.Core.List.{Perm}
use mathlib.Core.List.Perm

-- What a successful move of different positions did.
record IsMove (from to : ℕ) (q q' : VideoQueue) : Type 0 where
  item : QueueItem
  taken : get_elem? q.items from ≡ some item
  fits : to < length q.items
  result : q'.items ≡ insert_at to item (remove_at from q.items)
  changed : q'.dirty ≡ true

move-IsMove :
    (from to : ℕ) (q q' : VideoQueue)
    → eqb from to ≡ false
    → move from to q ≡ ok q'
    → IsMove from to q q'
unfolding move
move-IsMove from to q q' ne h = elim (Option-cases (get_elem? q.items from)) [
  | inl e ↦ absurd (ground (arith, e, h, ne))
  | inr (item, e) ↦ record {
    item = item;
    taken = e;
    fits = ground (arith, e, h, ne);
    result = ground (arith, e, h, ne);
    changed = ground (arith, e, h, ne);
  }
]

-- A move between two positions of the queue succeeds, puts the item that was at the first at the
-- second, keeps the items up to order, and is undone by the opposite move.
pub record Moved (from to : ℕ) (q : VideoQueue) : Type 0 where
  pub after : VideoQueue
  pub succeeds : move from to q ≡ ok after
  pub arrives : get_elem? after.items to ≡ get_elem? q.items from
  pub same_items : Perm after.items q.items
  pub again : VideoQueue
  pub undoes : move to from after ≡ ok again
  pub restores : again.items ≡ q.items

get_elem?-some :
    (xs : List QueueItem) (i : ℕ) → i < length xs → (x : QueueItem) × (get_elem? xs i ≡ some x)
get_elem?-some [] i h = absurd (omega arith)
get_elem?-some (x ∷ xs) zero h = (x, refl)
get_elem?-some (x ∷ xs) (suc i) h = get_elem?-some xs i (omega arith)

move_to :
    (from to : ℕ) (q : VideoQueue) (item : QueueItem)
    → eqb from to ≡ false
    → from < length q.items
    → to < length q.items
    → get_elem? q.items from ≡ some item
    → move from to q
      ≡ ok (record { items = insert_at to item (remove_at from q.items); dirty = true })
unfolding move
move_to from to q item ne f t e = ground (arith, e)

pub move-Moved :
    (from to : ℕ) (q : VideoQueue)
    → eqb from to ≡ false
    → from < length q.items
    → to < length q.items
    → Moved from to q
move-Moved from to q ne f t =
    let (item, e) = get_elem?-some q.items from f in
    let rest = remove_at from q.items in
    let shorter = length-remove_at from item q.items e in
    let room : to ≤ length rest = omega (arith, shorter) in
    let room' : from ≤ length rest = omega (arith, shorter) in
    let after : VideoQueue = record { items = insert_at to item rest; dirty = true } in
    let there = get_elem?-insert_at to item rest room in
    let longer = length-insert_at to item rest room in
    record {
      after = after;
      succeeds = move_to from to q item ne f t e;
      arrives = rw e there;
      same_items = moved_perm from to item q.items e;
      again = record { items = insert_at from item (remove_at to after.items); dirty = true };
      undoes =
          move_to to from after item (ground arith) (omega (arith, longer, shorter))
            (omega (arith, longer, shorter)) there;
      restores =
          rw (remove_at-insert_at to item rest room) (insert_at-remove_at from item q.items e);
    }
  where
    moved_perm :
        (from to : ℕ) (item : QueueItem) (xs : List QueueItem)
        → get_elem? xs from ≡ some item
        → Perm (insert_at to item (remove_at from xs)) xs
    moved_perm from to item xs e = Perm.trans (insert_at-perm to item (remove_at from xs)) (
        Perm.trans (Perm.symm (insert_at-perm from item (remove_at from xs)))
          (rw (insert_at-remove_at from item xs e) (Perm.refl xs)))

-- What `evict` does on a video that the search finds.
record Found (v : VideoId) (q : VideoQueue) : Type 0 where
  at : ℕ
  item : QueueItem
  there : get_elem? q.items at ≡ some item
  matching : is_video v item ≡ true
  first : (j : ℕ) (y : QueueItem) → j < at → get_elem? q.items j ≡ some y → is_video v y ≡ false
  done : evict v q ≡ ok (at, item, record { items = remove_at at q.items; dirty = true })

contains-Found : (v : VideoId) (q : VideoQueue) → contains v q ≡ true → Found v q
unfolding contains
contains-Found v q h = elim (Option-cases (index_from 0 v q.items)) [
  | inl e ↦ absurd (ground (arith, h, e))
  | inr (k, e) ↦
      let r = index_from-IsFirst 0 k v q.items e in
      let at : k ≡ r.offset = omega (arith, r.placed) in
      record {
        at = k;
        item = r.item;
        there = rw at r.there;
        matching = r.matching;
        first = rw at r.before;
        done = unfold evict in rw (e, evict) (rw at (ground (arith, r.there)));
      }
]

evict_missing :
    (v : VideoId) (q : VideoQueue) → contains v q ≡ false → evict v q ≡ err video_not_found
unfolding contains evict
evict_missing v q h = elim (Option-cases (index_from 0 v q.items)) [
  | inl e ↦ rw (e, evict)
  | inr (k, e) ↦ absurd (ground (arith, h, e))
]

-- The outcome of `evict`: an item and its position, the first that is the video, with the rest; or
-- the error, exactly when the queue does not contain the video.
abbrev pub Evicts : VideoId → VideoQueue → Type 0
Evicts v q =
    ((contains v q ≡ false) × (evict v q ≡ err video_not_found))
    ⊎ ((contains v q ≡ true)
        × ((i : ℕ) × (item : QueueItem) × (get_elem? q.items i ≡ some item)
            × (is_video v item ≡ true)
            × ((j : ℕ) (y : QueueItem)
                → j < i
                → get_elem? q.items j ≡ some y
                → is_video v y ≡ false)
            × (evict v q ≡ ok (i, item, record { items = remove_at i q.items; dirty = true }))))

pub evict-Evicts : (v : VideoId) (q : VideoQueue) → Evicts v q
evict-Evicts v q = elim (Bool-cases (contains v q)) [
  | inr missing ↦ inl (missing, evict_missing v q missing)
  | inl there ↦
      let f = contains-Found v q there in
      inr (there, (f.at, f.item, f.there, f.matching, f.first, f.done))
]

pub lt_of_get_elem? :
    (xs : List QueueItem) (i : ℕ) (x : QueueItem) → get_elem? xs i ≡ some x → i < length xs
lt_of_get_elem? [] i x h = cc
lt_of_get_elem? (y ∷ xs) zero x h = omega arith
lt_of_get_elem? (y ∷ xs) (suc i) x h = omega (arith, lt_of_get_elem? xs i x h)

insert_back :
    (i : ℕ) (item : QueueItem) (xs : List QueueItem)
    → get_elem? xs i ≡ some item
    → length xs ≤ max_queue_items
    → insert (some item) (pos i) (record { items = remove_at i xs; dirty = true })
      ≡ ok (record { items = xs; dirty = true })
unfolding insert insert_at
insert_back i item xs e cap = ground (
  arith,
  length-remove_at i item xs e,
  lt_of_get_elem? xs i item e,
  insert_at-remove_at i item xs e,
)

-- Inserting an evicted item at the position that it had gives back the items.
pub evict-insert :
    (v : VideoId) (q q' : VideoQueue) (i : ℕ) (item : QueueItem)
    → evict v q ≡ ok (i, item, q')
    → length q.items ≤ max_queue_items
    → insert (some item) (pos i) q' ≡ ok (record { items = q.items; dirty = true })
evict-insert v q q' i item h cap = elim (Bool-cases (contains v q)) [
  | inr missing ↦ absurd (ground (arith, h, evict_missing v q missing))
  | inl there ↦
      let f = contains-Found v q there in
      let same_at : i ≡ f.at = ground (arith, h, f.done) in
      let same_item : item ≡ f.item = ground (arith, h, f.done) in
      let left : q' ≡ record { items = remove_at f.at q.items; dirty = true } =
        ground (arith, h, f.done) in
      rw (same_at, same_item, left) (insert_back f.at f.item q.items f.there cap)
]
