-- ===== src/Queue.antt =====
-- server/videoqueue.ts and server/util/dirtyable.ts: the room's queue of videos, and the items of
-- common/models/video.ts. Each call runs with the queue's lock free, so the tests before the lock
-- and the body under it see the same items. Positions and lengths are in ticks of 10 µs.
pub mod Items
pub mod Moves
pub mod Capacity
use opentogethertube_cn.Common.{
  ℕ, zero, suc, ◌+◌, Bool, true, false, not, ◌&&◌, ◌||◌, Option, none, some, List, [], ◌∷◌, ◌++◌,
  map, String, ◌==◌, if◌then◌else◌, ltb, leb, eqb, length, get_elem?, take, drop, any, is_some,
}
use opentogethertube_cn.Common.Int.{ℤ, pos, negsuc, eqb_ℤ}
use opentogethertube_cn.Exceptions.{
  Exception, Result, ok, err, plain, bad_api_argument, video_not_found,
}

-- A length or an end as JavaScript has it: a finite number, or NaN or an infinity.
pub data Number : Type 0 where
  finite : ℤ → Number
  not_finite : Number

pub record VideoId : Type 0 where
  pub service : String
  pub id : String

-- A video with the extras of a queue item. The metadata that no operation reads is one field.
pub record QueueItem : Type 0 where
  pub service : String
  pub id : String
  pub length : Option Number
  pub is_live : Bool
  pub mime : Option String
  pub start_at : Option ℤ
  pub end_at : Option Number
  pub subtitle_url : Option String
  pub metadata : String

abbrev pub id_of : QueueItem → VideoId
id_of i = record { service = i.service; id = i.id }

-- `item.service === video.service && item.id === video.id`
abbrev pub is_video : VideoId → QueueItem → Bool
is_video v i = i.service == v.service && i.id == v.id

abbrev pub max_queue_items : ℕ
max_queue_items = 200

pub record VideoQueue : Type 0 where
  pub items : List QueueItem
  pub dirty : Bool

unfoldable pub new_queue : List (Option QueueItem) → VideoQueue
new_queue items = record { items = present items; dirty = false }
  where
    present : List (Option QueueItem) → List QueueItem
    present [] = []
    present (none ∷ xs) = present xs
    present (some x ∷ xs) = x ∷ present xs

-- `isAllVideos`, with the items that it vouches for.
unfoldable pub all_videos : List (Option QueueItem) → Option (List QueueItem)
all_videos [] = some []
all_videos (none ∷ xs) = none
all_videos (some x ∷ xs) = elim (all_videos xs) [ none ↦ none | some ys ↦ some (x ∷ ys) ]

abbrev pub mark_dirty : List QueueItem → VideoQueue
mark_dirty items = record { items = items; dirty = true }

unfoldable pub clean : VideoQueue → VideoQueue
clean q = record q { dirty = false }

unfoldable pub set_items : List QueueItem → VideoQueue → VideoQueue
set_items items q = mark_dirty items

abbrev pub too_long : Exception
too_long = bad_api_argument "queue"

abbrev pub not_videos : Exception
not_videos = plain "Cannot enqueue null or undefined items"

-- Goes on with the items of a call, if none is missing.
abbrev pub given :
    Option (List QueueItem) → (List QueueItem → Result VideoQueue) → Result VideoQueue
given none body = err not_videos
given (some items) body = body items

-- The part of `enqueue`, `pushTop` and `enqueueOverflow` that they share: nothing to do for no
-- videos, and no item may be missing.
abbrev pub with_videos :
    List (Option QueueItem) → VideoQueue → (List QueueItem → Result VideoQueue) → Result VideoQueue
with_videos [] q body = ok q
with_videos (v ∷ vs) q body = given (all_videos (v ∷ vs)) body

unfoldable pub enqueue : List (Option QueueItem) → VideoQueue → Result VideoQueue
unfolding all_videos
enqueue videos q = with_videos videos q λ vs.
    if ltb max_queue_items (length q.items + length vs)
    then err too_long
    else ok (mark_dirty (q.items ++ vs))

unfoldable pub dequeue : VideoQueue → Option QueueItem × VideoQueue
dequeue q = elim q.items [ [] ↦ (none, mark_dirty []) | item ∷ rest ↦ (some item, mark_dirty rest) ]

unfoldable pub enqueue_overflow : List (Option QueueItem) → VideoQueue → Result VideoQueue
unfolding all_videos
enqueue_overflow videos q = with_videos videos q (λ vs. ok (mark_dirty (q.items ++ vs)))

unfoldable pub push_top : List (Option QueueItem) → VideoQueue → Result VideoQueue
unfolding all_videos
push_top videos q = with_videos videos q λ vs.
    if ltb max_queue_items (length q.items + length vs)
    then err too_long
    else ok (mark_dirty (vs ++ q.items))

-- `index` is an integer.
unfoldable pub insert : Option QueueItem → ℤ → VideoQueue → Result VideoQueue
insert video (negsuc n) q = err (plain "Index out of bounds")
insert video (pos i) q =
    if ltb (length q.items) i then err (plain "Index out of bounds") else elim video [
      | none ↦ err not_videos
      | some v ↦
          if ltb max_queue_items (length q.items + 1)
          then err too_long
          else ok (mark_dirty (take i q.items ++ v ∷ drop i q.items))
    ]

-- `splice(i, 1)`: the items without the one at `i`.
unfoldable pub remove_at : ℕ → List QueueItem → List QueueItem
remove_at i xs = take i xs ++ drop (suc i) xs

-- `splice(i, 0, item)`
unfoldable pub insert_at : ℕ → QueueItem → List QueueItem → List QueueItem
insert_at i item xs = take i xs ++ item ∷ drop i xs

-- The positions are natural numbers here: `reorderQueue` lets no other through.
unfoldable pub move : ℕ → ℕ → VideoQueue → Result VideoQueue
unfolding remove_at insert_at
move from to q =
    if eqb from to
    then ok q
    else if leb (length q.items) from
    then err (plain "'fromIdx' out of bounds")
    else if leb (length q.items) to
    then err (plain "'toIdx' out of bounds")
    else elim (get_elem? q.items from) [
      | none ↦ err (plain "'fromIdx' out of bounds")
      | some item ↦ ok (mark_dirty (insert_at to item (remove_at from q.items)))
    ]

-- The loop of `_.findIndex`; `none` stands for -1.
unfoldable pub index_from : ℕ → VideoId → List QueueItem → Option ℕ
index_from n v [] = none
index_from n v (i ∷ is) = if is_video v i then some n else index_from (suc n) v is

unfoldable pub find_index : VideoId → VideoQueue → Option ℕ
unfolding index_from
find_index v q = index_from 0 v q.items

unfoldable pub contains : VideoId → VideoQueue → Bool
unfolding find_index
contains v q = is_some (find_index v q)

-- The position and the item that was there, with the queue that is left.
unfoldable pub evict : VideoId → VideoQueue → Result (ℕ × QueueItem × VideoQueue)
unfolding find_index remove_at
evict v q = elim (find_index v q) [
  | none ↦ err video_not_found
  | some i ↦ elim (get_elem? q.items i) [
    | none ↦ err video_not_found
    | some item ↦ ok (i, item, mark_dirty (remove_at i q.items))
  ]
]

-- The extras that a patch sets; an outer `none` leaves the field as it is.
pub record Patch : Type 0 where
  pub start_at : Option (Option ℤ)
  pub end_at : Option (Option Number)
  pub subtitle_url : Option (Option String)

abbrev pub assign {ℓ} : {A : Type ℓ} → Option A → A → A
assign none old = old
assign (some new) old = new

-- `Object.assign(item, patch)`
unfoldable pub patched : Patch → QueueItem → QueueItem
patched p i = record i {
  start_at = assign p.start_at i.start_at;
  end_at = assign p.end_at i.end_at;
  subtitle_url = assign p.subtitle_url i.subtitle_url;
}

unfoldable pub patch_at : ℕ → Patch → List QueueItem → List QueueItem
unfolding patched
patch_at i p [] = []
patch_at zero p (x ∷ xs) = patched p x ∷ xs
patch_at (suc i) p (x ∷ xs) = x ∷ patch_at i p xs

unfoldable pub update : VideoId → Patch → VideoQueue → Result VideoQueue
unfolding find_index patch_at
update v p q = elim (find_index v q) [
  | none ↦ err video_not_found
  | some i ↦ ok (mark_dirty (patch_at i p q.items))
]

-- `_.orderBy` with one key and "desc".
abbrev pub OrderBy : Type 0
OrderBy = (QueueItem → ℕ) → List QueueItem → List QueueItem

abbrev pub same_option {ℓ} : {A : Type ℓ} → (A → A → Bool) → Option A → Option A → Bool
same_option eq none none = true
same_option eq (some a) (some b) = eq a b
same_option eq _ _ = false

abbrev pub same_bool : Bool → Bool → Bool
same_bool true b = b
same_bool false b = not b

abbrev pub same_number : Number → Number → Bool
same_number (finite a) (finite b) = eqb_ℤ a b
same_number not_finite not_finite = true
same_number _ _ = false

-- `_.isEqual` of two items.
unfoldable pub same_item : QueueItem → QueueItem → Bool
same_item a b =
    a.service == b.service
    && a.id == b.id
    && same_option same_number a.length b.length
    && same_bool a.is_live b.is_live
    && same_option ◌==◌ a.mime b.mime
    && same_option eqb_ℤ a.start_at b.start_at
    && same_option same_number a.end_at b.end_at
    && same_option ◌==◌ a.subtitle_url b.subtitle_url
    && a.metadata == b.metadata

-- `newItems.every((value, index) => _.isEqual(value, oldOrder[index]))`
unfoldable pub same_order : List QueueItem → List QueueItem → Bool
unfolding same_item
same_order [] old = true
same_order (x ∷ xs) [] = false
same_order (x ∷ xs) (y ∷ ys) = same_item x y && same_order xs ys

-- `orderBy`, descending by one key, where the first argument stands for `_.orderBy`. The order of an empty
-- list never changes.
unfoldable pub order_by : OrderBy → (QueueItem → ℕ) → VideoQueue → VideoQueue
unfolding same_order
order_by order key q =
    let sorted = order key q.items in
    if same_order sorted q.items then record q { items = sorted } else mark_dirty sorted

-- `shuffle`, where the first argument stands for `_.shuffle`.
unfoldable pub shuffle : (List QueueItem → List QueueItem) → VideoQueue → VideoQueue
shuffle shuffled q = mark_dirty (shuffled q.items)
