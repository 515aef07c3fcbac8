-- ===== src/Room/Requests/Items.antt =====
-- server/room.ts: the handlers that change, remove, reorder, restore and vote for items of the queue.
use opentogethertube_cn.Common.{
  ℕ, ◌+◌, Bool, true, false, not, ◌||◌, Option, none, some, List, [], ◌∷◌, map, if◌then◌else◌, ltb,
  length, String, ◌==◌, is_some,
}
use opentogethertube_cn.Common.Int.{ℤ, pos}
use opentogethertube_cn.Common.Dict.{get, put, remove, string_eq}
use opentogethertube_cn.Common.StringSet.{add, delete}
use opentogethertube_cn.Exceptions.{
  Result, ok, err, bad_api_argument, plain, video_not_found, unsupported_subtitle_type,
  unsupported_subtitle_url,
}
use opentogethertube_cn.Queue.{
  QueueItem, VideoId, VideoQueue, Patch, max_queue_items, enqueue, contains, evict, move, update,
  shuffle,
}
use opentogethertube_cn.Room.State.{
  Room, SyncProp, ClientId, EventRequest, no_context, mark_dirty, put_queue,
}
use opentogethertube_cn.Room.Dequeue.{vote_key}
use opentogethertube_cn.Room.Requests.{
  Context, Reply, done, thrown, truthy, require, with_value, publish_room_event,
}

-- What the tests of a subtitle's URL answer: its extension names a format, its host is public as it is
-- spelt, and as it resolves.
pub record SubtitleTests : Type 0 where
  pub has_format : String → Bool
  pub is_public : String → Bool
  pub resolves_public : String → Bool

-- `assertUsableSubtitleUrl`
unfoldable pub assert_usable_subtitle_url : SubtitleTests → String → Result (Unit {0})
assert_usable_subtitle_url tests url =
    if not (tests.has_format url)
    then err unsupported_subtitle_type
    else if not (tests.is_public url)
    then err unsupported_subtitle_url
    else if not (tests.resolves_public url)
    then err unsupported_subtitle_url
    else ok tt

-- `Object.hasOwn(request.update, "subtitleUrl")`, and the value, of which `none` is null.
abbrev pub PatchRequest : Type 0
PatchRequest = Option (Option String)

abbrev pub no_patch : Patch
no_patch = record { start_at = none; end_at = none; subtitle_url = none }

abbrev pub clear_subtitle : Patch
clear_subtitle = record no_patch { subtitle_url = some none }

unfoldable pub allowed_patch : SubtitleTests → PatchRequest → Result Patch
unfolding assert_usable_subtitle_url
allowed_patch tests none = ok no_patch
allowed_patch tests (some none) = ok clear_subtitle
allowed_patch tests (some (some url)) =
    if url == "" then ok clear_subtitle else elim (assert_usable_subtitle_url tests url) [
      | ok _ ↦ ok (record no_patch { subtitle_url = some (some url) })
      | err e ↦ err e
    ]

unfoldable pub update_queue_item : SubtitleTests → VideoId → PatchRequest → Context → Room → Reply
update_queue_item tests video patch context r = with_value (allowed_patch tests patch) r λ p.
    with_value (update video p r.queue) r λ q.
      done (
        publish_room_event (EventRequest.update_queue_item video) no_context context
          (put_queue q r))

-- The room once the item is out of the queue.
unfoldable pub without_item : VideoId → VideoQueue → Room → Room
unfolding remove
without_item video q r =
    let r₁ = put_queue q r in
    mark_dirty SyncProp.vote_counts
      (record r₁ { votes = remove (vote_key video.service video.id) r₁.votes })

abbrev pub report_removal : VideoId → Context → Room → ℕ × QueueItem × VideoQueue → Reply
report_removal video context r (index, item, q) = done (
    publish_room_event (EventRequest.remove video)
      (record no_context { video = some item; queue_idx = some index }) context
      (without_item video q r))

unfoldable pub remove_from_queue : VideoId → Context → Room → Reply
remove_from_queue video context r =
    if not (contains video r.queue)
    then thrown video_not_found r
    else with_value (evict video r.queue) r (report_removal video context r)

-- `none` is what is no integer.
abbrev pub position_of : Option ℤ → Option ℕ
position_of (some (pos n)) = some n
position_of _ = none

abbrev pub reorder_if : Option ℕ → Option ℕ → Room → Reply
reorder_if (some from) (some to) r = with_value (move from to r.queue) r (λ q. done (put_queue q r))
reorder_if _ _ r = thrown (bad_api_argument "indices") r

unfoldable pub reorder_queue : Option ℤ → Option ℤ → Room → Reply
reorder_queue from to r = reorder_if (position_of from) (position_of to) r

abbrev pub change_votes : String → Bool → ClientId → Option (List ClientId) → Room → Room
change_votes key true client (some voters) r = record r {
  votes = put key (add client voters) r.votes;
}
change_votes key false client (some voters) r = record r {
  votes = put key (delete client voters) r.votes;
}
change_votes key true client none r = record r { votes = put key (client ∷ []) r.votes }
change_votes key false client none r = r

unfoldable pub vote : VideoId → Bool → Context → Room → Reply
unfolding get put add delete
vote video adding context r = elim (truthy context.client_id) [
  | none ↦ thrown (plain "Can't vote if not connected to room.") r
  | some client ↦
      if not (contains video r.queue)
      then thrown video_not_found r
      else let key = vote_key video.service video.id in
        done (mark_dirty SyncProp.vote_counts (change_votes key adding client (get key r.votes) r))
]

unfoldable pub shuffle_queue : (List QueueItem → List QueueItem) → Context → Room → Reply
unfolding shuffle
shuffle_queue shuffled context r =
    require "manage-queue.order" context r λ r. done (put_queue (shuffle shuffled r.queue) r)

abbrev pub set_prev_queue : Option (List QueueItem) → Room → Room
set_prev_queue value r =
    if is_some value || is_some r.prev_queue
    then mark_dirty SyncProp.prev_queue (record r { prev_queue = value })
    else r

abbrev pub restore_items : List QueueItem → Room → Reply
restore_items items r =
    if ltb max_queue_items (length r.queue.items + length items)
    then thrown (bad_api_argument "queue") r
    else with_value (enqueue (map some items) r.queue) r
        (λ q. done (set_prev_queue none (put_queue q r)))

abbrev pub restore_or_discard : Bool → Option (List QueueItem) → Room → Reply
restore_or_discard discard none r = thrown (plain "No previous queue to restore") r
restore_or_discard true (some items) r = done (set_prev_queue none r)
restore_or_discard false (some items) r = restore_items items r

unfoldable pub restore_queue : Bool → Context → Room → Reply
restore_queue discard context r =
    require (if discard then "manage-queue.remove" else "manage-queue.add") context r
      λ r. restore_or_discard discard r.prev_queue r
