-- ===== src/Room/Consistency/Additions.antt =====
-- server/room.ts: addToQueue and playNow keep the playback state consistent.
use opentogethertube_cn.Common.{
  ◌≡◌, refl, true, Option, none, some, arith, List, [], ◌∷◌, map, if_both, if◌then◌else◌, not, leb,
  length, or_else,
}
use opentogethertube_cn.Common.Dict.{string_eq}
use opentogethertube_cn.Exceptions.{bad_api_argument, video_already_queued}
use opentogethertube_cn.Queue.{QueueItem, VideoQueue, enqueue, push_top, evict, max_queue_items}
use opentogethertube_cn.Room.State.{
  Room, Time, Ticks, EventRequest, no_context, put_queue, VideoReference, referred,
}
use opentogethertube_cn.Room.Clock.{play, real_playback_position}
use opentogethertube_cn.Room.Holding.{
  hold_playback_for_preparation, can_hold_playback_for_preparation, plays_video,
}
use opentogethertube_cn.Room.Gate.{nonempty}
use opentogethertube_cn.Room.Dequeue.{Env}
use opentogethertube_cn.Room.Requests.{
  Context, Reply, done, thrown, publish_room_event, require, with_value,
}
use opentogethertube_cn.Room.Requests.Items.{SubtitleTests, set_prev_queue}
use opentogethertube_cn.Room.Requests.Additions.{
  Extractor, AddRequest, add_one, add_items, add_many, add_requested, add_to_queue,
  put_current_back, take_over, start_source, play_item, play_found, play_queued, play_now,
  play_from_queue, play_new, assert_usable_video_id, is_video_in_queue, present, with_subtitles,
  usable_items, usable_url, usable_video, usable_videos, fits_request, resolved_video,
  check_subtitles, with_new_subtitles,
}
use opentogethertube_cn.Room.Consistency.{IsConsistent, play-IsConsistent}
use opentogethertube_cn.Room.Consistency.Dequeue.{hold_playback_for_preparation-IsConsistent}
use opentogethertube_cn.Room.Consistency.Replies.{
  LeavesConsistent, with_value-Leaves, then_do-Leaves, require-Leaves, put_queue-IsConsistent,
  publish_room_event-IsConsistent,
}
use opentogethertube_cn.Room.Consistency.Items.{put_result-Leaves, set_prev_queue-IsConsistent}

add_one-Leaves :
    (x : Extractor) (t : SubtitleTests) (w : VideoReference) (c : Context) (r : Room)
    → IsConsistent r
    → LeavesConsistent (add_one x t w c r)
unfolding add_one
add_one-Leaves x t w c r v =
    if_both LeavesConsistent (is_video_in_queue (referred w) r) (thrown video_already_queued r)
      (with_value (x.video_info (referred w)) r found) v
      (with_value-Leaves (x.video_info (referred w)) r found v λ o.
        with_value-Leaves (present o) r here v λ item.
          with_value-Leaves (with_subtitles t w.subtitle_url item) r subtitled v λ s.
            with_value-Leaves (enqueue (some s ∷ []) r.queue) r (queued s) v λ q.
              publish_room_event-IsConsistent (EventRequest.add (some w))
                (record no_context { video = some s }) c (set_prev_queue none (put_queue q r))
                (set_prev_queue-IsConsistent none (put_queue q r) (put_queue-IsConsistent q r v)))
  where
    queued : QueueItem → VideoQueue → Reply
    queued s q = done (
        publish_room_event (EventRequest.add (some w)) (record no_context { video = some s }) c
          (set_prev_queue none (put_queue q r)))

    subtitled : QueueItem → Reply
    subtitled s = with_value (enqueue (some s ∷ []) r.queue) r (queued s)

    here : QueueItem → Reply
    here item = with_value (with_subtitles t w.subtitle_url item) r subtitled

    found : Option QueueItem → Reply
    found o = with_value (present o) r here

add_items-Leaves :
    (items : List QueueItem) (c : Context) (r : Room)
    → IsConsistent r
    → LeavesConsistent (add_items items c r)
add_items-Leaves [] c r v = v
add_items-Leaves (i ∷ is) c r v =
    with_value-Leaves (enqueue (map some (i ∷ is)) r.queue) r
      (λ q. done (
        publish_room_event (EventRequest.add none) (record no_context { videos = i ∷ is }) c
          (put_queue q r)))
      v
      (λ q.
        publish_room_event-IsConsistent (EventRequest.add none)
          (record no_context { videos = i ∷ is }) c (put_queue q r) (put_queue-IsConsistent q r v))

add_many-Leaves :
    (x : Extractor) (t : SubtitleTests) (ws : List VideoReference) (c : Context) (r : Room)
    → IsConsistent r
    → LeavesConsistent (add_many x t ws c r)
unfolding add_many
add_many-Leaves x t ws c r v = with_value-Leaves (x.many_video_info ws) r found v λ os.
    with_value-Leaves (usable_items t r os) r (λ items. add_items items c r) v
      (λ items. add_items-Leaves items c r v)
  where
    found : List (Option QueueItem) → Reply
    found os = with_value (usable_items t r os) r (λ items. add_items items c r)

add_requested-Leaves :
    (x : Extractor) (t : SubtitleTests) (w : Option VideoReference)
    (ws : Option (List VideoReference)) (c : Context) (r : Room)
    → IsConsistent r
    → LeavesConsistent (add_requested x t w ws c r)
add_requested-Leaves x t (some w) ws c r v = add_one-Leaves x t w c r v
add_requested-Leaves x t none (some ws) c r v = add_many-Leaves x t ws c r v
add_requested-Leaves x t none none c r v = v

pub add_to_queue-Leaves :
    (x : Extractor) (t : SubtitleTests) (a : AddRequest) (c : Context) (r : Room)
    → IsConsistent r
    → LeavesConsistent (add_to_queue x t a c r)
unfolding add_to_queue
add_to_queue-Leaves x t a c r v =
    with_value-Leaves (usable_url a.url) r (λ _. first) v
      λ _.
        with_value-Leaves (usable_video a.video) r (λ _. second) v
          λ _.
            with_value-Leaves (usable_videos (or_else a.videos [])) r (λ _. third) v
              λ _.
                if_both LeavesConsistent (not (fits_request a r))
                  (thrown (bad_api_argument "queue") r) fourth v
                  (with_value-Leaves (resolved_video x a) r (λ w. add_requested x t w a.videos c r)
                    v (λ w. add_requested-Leaves x t w a.videos c r v))
  where
    fourth : Reply
    fourth = with_value (resolved_video x a) r (λ w. add_requested x t w a.videos c r)

    third : Reply
    third = if not (fits_request a r) then thrown (bad_api_argument "queue") r else fourth

    second : Reply
    second = with_value (usable_videos (or_else a.videos [])) r (λ _. third)

    first : Reply
    first = with_value (usable_video a.video) r (λ _. second)

-- The current item keeps its place as the source while it also goes to the queue.
stopped-IsConsistent :
    (s : QueueItem) (t : Ticks) (r : Room)
    → r.current_source ≡ some s
    → IsConsistent r
    → IsConsistent (record r { current_source = some (record s { start_at = some t }) })
stopped-IsConsistent s t r e v = ground (arith, e)

put_current_back-Leaves :
    (now : Time) (r : Room) → IsConsistent r → LeavesConsistent (put_current_back now r)
unfolding put_current_back
put_current_back-Leaves now r v = back r.current_source refl
  where
    moved : QueueItem → Reply
    moved s =
        let stopped = record s { start_at = some (real_playback_position now r) } in
        let r₁ = record r { current_source = some stopped } in
        with_value (push_top (some stopped ∷ []) r₁.queue) r₁ (λ q. done (put_queue q r₁))

    back :
        (o : Option QueueItem)
        → r.current_source ≡ o
        → LeavesConsistent (elim o [ none ↦ done r | some s ↦ moved s ])
    back none e = v
    back (some s) e =
        let stopped = record s { start_at = some (real_playback_position now r) } in
        put_result-Leaves (push_top (some stopped ∷ []) r.queue)
          (record r { current_source = some stopped })
          (stopped-IsConsistent s (real_playback_position now r) r e v)

take_over-IsConsistent :
    (e : Env) (s : Option QueueItem) (r : Room) → IsConsistent r → IsConsistent (take_over e s r)
unfolding take_over
take_over-IsConsistent e s r v = ground arith

take_over-gate : (e : Env) (s : Option QueueItem) (r : Room) → (take_over e s r).buffer_gate ≡ none
unfolding take_over
take_over-gate e s r = ground arith

sponsor-IsConsistent :
    (r : Room)
    → IsConsistent r
    → IsConsistent (
        if nonempty r.auto_skip_segment_categories
        then record r { want_sponsor_block = true }
        else r)
sponsor-IsConsistent r v = ground arith

start_source-IsConsistent :
    (e : Env) (r : Room) → r.buffer_gate ≡ none → IsConsistent r → IsConsistent (start_source e r)
unfolding start_source
start_source-IsConsistent e r n v = sponsor-IsConsistent started (
    if_both IsConsistent (can_hold_playback_for_preparation r)
      (hold_playback_for_preparation e.now e.uuid r) played
      (hold_playback_for_preparation-IsConsistent e.now e.uuid r n v)
      (if_both IsConsistent (not r.is_playing) (play e.now r) r (play-IsConsistent e.now r v) v))
  where
    played : Room
    played = if not r.is_playing then play e.now r else r

    started : Room
    started =
        if can_hold_playback_for_preparation r
        then hold_playback_for_preparation e.now e.uuid r
        else played

play_item-Leaves :
    (e : Env) (s : Option QueueItem) (r : Room)
    → IsConsistent r
    → LeavesConsistent (play_item e s r)
play_item-Leaves e s r v =
    then_do-Leaves (put_current_back e.now r) (λ r. done (start_source e (take_over e s r)))
      (put_current_back-Leaves e.now r v)
      (λ r v.
        start_source-IsConsistent e (take_over e s r) (take_over-gate e s r)
          (take_over-IsConsistent e s r v))

play_found-Leaves :
    (e : Env) (w : VideoReference) (o : Option QueueItem) (r : Room)
    → IsConsistent r
    → LeavesConsistent (play_found e w o r)
play_found-Leaves e w o r v =
    with_value-Leaves (with_new_subtitles w.subtitle_url o) r (λ item. play_item e item r) v
      (λ item. play_item-Leaves e item r v)

play_from_queue-Leaves :
    (e : Env) (t : SubtitleTests) (w : VideoReference) (r : Room)
    → IsConsistent r
    → LeavesConsistent (play_from_queue e t w r)
play_from_queue-Leaves e t w r v =
    with_value-Leaves (check_subtitles t w.subtitle_url) r
      (λ _. with_value (evict (referred w) r.queue) r (play_queued e w r)) v
      λ _. with_value-Leaves (evict (referred w) r.queue) r (play_queued e w r) v λ (i, item, q).
        play_found-Leaves e w (some item) (put_queue q r) (put_queue-IsConsistent q r v)

play_new-Leaves :
    (e : Env) (x : Extractor) (t : SubtitleTests) (w : VideoReference) (r : Room)
    → IsConsistent r
    → LeavesConsistent (play_new e x t w r)
play_new-Leaves e x t w r v =
    if_both LeavesConsistent (leb max_queue_items (length r.queue.items))
      (thrown (bad_api_argument "queue") r)
      (with_value (check_subtitles t w.subtitle_url) r (λ _. looked_up)) v
      (with_value-Leaves (check_subtitles t w.subtitle_url) r (λ _. looked_up) v
        λ _.
          with_value-Leaves (x.video_info (referred w)) r found v λ o. play_found-Leaves e w o r v)
  where
    found : Option QueueItem → Reply
    found o = play_found e w o r

    looked_up : Reply
    looked_up = with_value (x.video_info (referred w)) r found

pub play_now-Leaves :
    (e : Env) (x : Extractor) (t : SubtitleTests) (w : VideoReference) (c : Context) (r : Room)
    → IsConsistent r
    → LeavesConsistent (play_now e x t w c r)
unfolding play_now
play_now-Leaves e x t w c r v =
    with_value-Leaves (assert_usable_video_id (referred w)) r (λ _. chosen) v
      λ _. if_both LeavesConsistent (plays_video (referred w) r.current_source) (done r) other v (
        if_both LeavesConsistent (is_video_in_queue (referred w) r)
          (require "manage-queue.order" c r (play_from_queue e t w))
          (require "manage-queue.add" c r (play_new e x t w))
          (require-Leaves "manage-queue.order" c r (play_from_queue e t w) v
            (play_from_queue-Leaves e t w r v))
          (require-Leaves "manage-queue.add" c r (play_new e x t w) v
            (play_new-Leaves e x t w r v)))
  where
    other : Reply
    other =
        if is_video_in_queue (referred w) r
        then require "manage-queue.order" c r (play_from_queue e t w)
        else require "manage-queue.add" c r (play_new e x t w)

    chosen : Reply
    chosen = if plays_video (referred w) r.current_source then done r else other
