-- ===== src/Room/Consistency/Items.antt =====
-- server/room.ts: the handlers of the queue's requests keep the playback state consistent.
use opentogethertube_cn.Common.{
  Bool, true, false, Option, none, some, arith, List, map, String, if_both, option_both,
  if◌then◌else◌, ℕ, not, length, ltb, ◌+◌,
}
use opentogethertube_cn.Common.Int.{ℤ}
use opentogethertube_cn.Common.Dict.{get, string_eq}
use opentogethertube_cn.Exceptions.{Result, plain, bad_api_argument, video_not_found}
use opentogethertube_cn.Queue.{
  QueueItem, VideoId, VideoQueue, Patch, shuffle, enqueue, evict, move, update, contains,
  max_queue_items,
}
use opentogethertube_cn.Room.State.{
  Room, ClientId, EventRequest, no_context, SyncProp, mark_dirty, put_queue,
}
use opentogethertube_cn.Room.Dequeue.{vote_key}
use opentogethertube_cn.Room.Requests.{
  Context, Reply, done, thrown, truthy, publish_room_event, with_value,
}
use opentogethertube_cn.Room.Requests.Items.{
  SubtitleTests, PatchRequest, allowed_patch, update_queue_item, without_item, report_removal,
  remove_from_queue, position_of, reorder_if, reorder_queue, change_votes, vote, shuffle_queue,
  set_prev_queue, restore_or_discard, restore_queue,
}
use opentogethertube_cn.Room.Consistency.{IsConsistent}
use opentogethertube_cn.Room.Consistency.Replies.{
  LeavesConsistent, with_value-Leaves, require-Leaves, put_queue-IsConsistent,
  publish_room_event-IsConsistent, mark_dirty-IsConsistent,
}

-- A new queue, after a call that may throw.
pub put_result-Leaves :
    (x : Result VideoQueue) (r : Room)
    → IsConsistent r
    → LeavesConsistent (with_value x r (λ q. done (put_queue q r)))
put_result-Leaves x r v =
    with_value-Leaves x r (λ q. done (put_queue q r)) v (λ q. put_queue-IsConsistent q r v)

pub update_queue_item-Leaves :
    (t : SubtitleTests) (w : VideoId) (p : PatchRequest) (c : Context) (r : Room)
    → IsConsistent r
    → LeavesConsistent (update_queue_item t w p c r)
unfolding update_queue_item
update_queue_item-Leaves t w p c r v = with_value-Leaves (allowed_patch t p) r changed v λ patch.
    with_value-Leaves (update w patch r.queue) r reported v λ q.
      publish_room_event-IsConsistent (EventRequest.update_queue_item w) no_context c
        (put_queue q r) (put_queue-IsConsistent q r v)
  where
    reported : VideoQueue → Reply
    reported q =
        done (publish_room_event (EventRequest.update_queue_item w) no_context c (put_queue q r))

    changed : Patch → Reply
    changed patch = with_value (update w patch r.queue) r reported

without_item-IsConsistent :
    (w : VideoId) (q : VideoQueue) (r : Room) → IsConsistent r → IsConsistent (without_item w q r)
unfolding without_item
without_item-IsConsistent w q r v = record { gesture = v.gesture; round = v.round; hold = v.hold }

pub remove_from_queue-Leaves :
    (w : VideoId) (c : Context) (r : Room)
    → IsConsistent r
    → LeavesConsistent (remove_from_queue w c r)
unfolding remove_from_queue
remove_from_queue-Leaves w c r v =
    if_both LeavesConsistent (not (contains w r.queue)) (thrown video_not_found r)
      (with_value (evict w r.queue) r (report_removal w c r)) v
      (with_value-Leaves (evict w r.queue) r (report_removal w c r) v λ (i, item, q).
        publish_room_event-IsConsistent (EventRequest.remove w)
          (record no_context { video = some item; queue_idx = some i }) c (without_item w q r)
          (without_item-IsConsistent w q r v))

reorder_if-Leaves :
    (from to : Option ℕ) (r : Room) → IsConsistent r → LeavesConsistent (reorder_if from to r)
reorder_if-Leaves (some from) (some to) r v = put_result-Leaves (move from to r.queue) r v
reorder_if-Leaves (some from) none r v = v
reorder_if-Leaves none to r v = v

pub reorder_queue-Leaves :
    (from to : Option ℤ) (r : Room) → IsConsistent r → LeavesConsistent (reorder_queue from to r)
unfolding reorder_queue
reorder_queue-Leaves from to r v = reorder_if-Leaves (position_of from) (position_of to) r v

change_votes-IsConsistent :
    (k : String) (b : Bool) (client : ClientId) (vs : Option (List ClientId)) (r : Room)
    → IsConsistent r
    → IsConsistent (change_votes k b client vs r)
change_votes-IsConsistent k b client vs r v = ground arith

pub vote-Leaves :
    (w : VideoId) (b : Bool) (c : Context) (r : Room)
    → IsConsistent r
    → LeavesConsistent (vote w b c r)
unfolding vote
vote-Leaves w b c r v =
    option_both LeavesConsistent (truthy c.client_id)
      (thrown (plain "Can't vote if not connected to room.") r) voted v
      λ client.
        if_both LeavesConsistent (not (contains w r.queue)) (thrown video_not_found r)
          (counted client) v
          (mark_dirty-IsConsistent SyncProp.vote_counts
            (change_votes key b client (get key r.votes) r)
            (change_votes-IsConsistent key b client (get key r.votes) r v))
  where
    key : String
    key = vote_key w.service w.id

    counted : ClientId → Reply
    counted client =
        done (mark_dirty SyncProp.vote_counts (change_votes key b client (get key r.votes) r))

    voted : ClientId → Reply
    voted client = if not (contains w r.queue) then thrown video_not_found r else counted client

pub set_prev_queue-IsConsistent :
    (q : Option (List QueueItem)) (r : Room) → IsConsistent r → IsConsistent (set_prev_queue q r)
set_prev_queue-IsConsistent q r v = ground arith

restore_or_discard-Leaves :
    (b : Bool) (q : Option (List QueueItem)) (r : Room)
    → IsConsistent r
    → LeavesConsistent (restore_or_discard b q r)
restore_or_discard-Leaves b none r v = v
restore_or_discard-Leaves true (some items) r v = set_prev_queue-IsConsistent none r v
restore_or_discard-Leaves false (some items) r v =
    if_both LeavesConsistent (ltb max_queue_items (length r.queue.items + length items))
      (thrown (bad_api_argument "queue") r)
      (with_value (enqueue (map some items) r.queue) r restored) v
      (with_value-Leaves (enqueue (map some items) r.queue) r restored v
        λ q. set_prev_queue-IsConsistent none (put_queue q r) (put_queue-IsConsistent q r v))
  where
    restored : VideoQueue → Reply
    restored q = done (set_prev_queue none (put_queue q r))

pub restore_queue-Leaves :
    (b : Bool) (c : Context) (r : Room) → IsConsistent r → LeavesConsistent (restore_queue b c r)
unfolding restore_queue
restore_queue-Leaves b c r v =
    require-Leaves (if b then "manage-queue.remove" else "manage-queue.add") c r
      (λ r. restore_or_discard b r.prev_queue r) v (restore_or_discard-Leaves b r.prev_queue r v)

pub shuffle_queue-Leaves :
    (f : List QueueItem → List QueueItem) (c : Context) (r : Room)
    → IsConsistent r
    → LeavesConsistent (shuffle_queue f c r)
unfolding shuffle_queue
shuffle_queue-Leaves f c r v =
    require-Leaves "manage-queue.order" c r (λ r. done (put_queue (shuffle f r.queue) r)) v
      (put_queue-IsConsistent (shuffle f r.queue) r v)
