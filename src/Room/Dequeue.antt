-- ===== src/Room/Dequeue.antt =====
-- server/room.ts: `dequeueNext`, the step to the next item of the queue.
pub mod Takes
pub mod Frozen
use opentogethertube_cn.Common.{
  ℕ, Bool, true, false, not, ◌&&◌, ◌||◌, Option, none, some, [], ◌∷◌, if◌then◌else◌, is_some,
  String, or_else,
}
use Prim.Native.String.{◌++◌ as joined}
use opentogethertube_cn.Common.Int.{pos}
use opentogethertube_cn.Common.Dict.{remove, string_eq}
use opentogethertube_cn.Exceptions.{Result, ok, err}
use opentogethertube_cn.Queue.{OrderBy, QueueItem, VideoQueue, dequeue, enqueue_overflow}
use opentogethertube_cn.Room.State.{
  Room, Time, SyncProp, QueueMode, loop, dj, mark_dirty, put_queue,
}
use opentogethertube_cn.Room.Clock.{
  play, set_current_source, set_playback_position, set_playback_speed_raw, set_is_playing,
}
use opentogethertube_cn.Room.Holding.{
  can_hold_playback_for_preparation, hold_playback_for_preparation,
}
use opentogethertube_cn.Room.Gate.{release_buffer_gate, nonempty}

-- What a call reads of the world: the time, the next random id, and the configuration.
pub record Env : Type 0 where
  pub now : Time
  pub uuid : String
  pub sponsorblock_enabled : Bool
  pub unload_after : ℕ
  pub order_by : OrderBy

-- `clearQueueItemTrim`
abbrev pub clear_queue_item_trim : QueueItem → QueueItem
clear_queue_item_trim i = record i { start_at = none; end_at = none }

-- The key of a video's votes.
abbrev pub vote_key : String → String → String
vote_key service id = joined service id

-- `set videoSegments`, where there are some.
abbrev pub clear_segments : Room → Room
clear_segments r =
    if nonempty r.video_segments
    then mark_dirty SyncProp.video_segments (record r { video_segments = [] })
    else r

abbrev pub is_dj : QueueMode → Bool
is_dj dj = true
is_dj _ = false

abbrev pub is_loop : QueueMode → Bool
is_loop loop = true
is_loop _ = false

-- DJ mode starts the current item again.
unfoldable pub restart_current : Env → QueueItem → Room → Room
unfolding set_current_source play
restart_current e s r =
    let r₁ = set_current_source e.now (some (clear_queue_item_trim s)) r in
    let r₂ = record (set_playback_position (pos 0) r₁) { playback_start = some e.now } in
    if not r₂.is_playing then play e.now r₂ else r₂

abbrev pub requeued : Result VideoQueue → Room → Room
requeued (ok q) r = put_queue q r
requeued (err e) r = r

-- Loop mode puts the current item at the end of the queue.
unfoldable pub requeue_current : Option QueueItem → Room → Room
unfolding enqueue_overflow
requeue_current none r = r
requeue_current (some s) r =
    if is_loop r.queue_mode
    then requeued (enqueue_overflow (some (clear_queue_item_trim s) ∷ []) r.queue) r
    else r

-- How playback goes on with the item that was taken.
unfoldable pub start_dequeued : Env → Room → Room
start_dequeued e r =
    if r.restored_from_storage
    then record r { playback_start = none }
    else if can_hold_playback_for_preparation r
    then hold_playback_for_preparation e.now e.uuid r
    else if not r.is_playing
    then play e.now r
    else r

-- The item is taken from the queue and becomes the source.
unfoldable pub take_item : Env → QueueItem → VideoQueue → Room → Room
unfolding set_current_source remove
take_item e item rest r =
    let r₁ = set_current_source e.now (some item) (put_queue rest r) in
    let r₂ = record (set_playback_position (or_else item.start_at (pos 0)) r₁) {
      playback_start = some e.now;
    } in
    let r₃ = clear_segments r₂ in
    mark_dirty SyncProp.vote_counts
      (record r₃ { votes = remove (vote_key item.service item.id) r₃.votes })

-- The queue is empty: the room stops.
unfoldable pub clear_source : Env → Room → Room
unfolding set_is_playing set_current_source
clear_source e r =
    let r₁ = if r.is_playing then set_is_playing e.now false r else r in
    let r₂ = record (set_playback_position (pos 0) r₁) { playback_start = some e.now } in
    set_current_source e.now none r₂

abbrev pub advance_from : Env → Option QueueItem × VideoQueue → Room → Room
advance_from e (some item, rest) r = start_dequeued e (take_item e item rest r)
advance_from e (none, rest) r = if is_some r.current_source then clear_source e r else r

unfoldable pub advance : Env → Room → Room
advance e r = advance_from e (dequeue r.queue) r

-- The end of `dequeueNext`.
unfoldable pub finish_dequeue : Env → Room → Room
finish_dequeue e r =
    let wanted =
      e.sponsorblock_enabled
      && nonempty r.auto_skip_segment_categories
      && is_some r.current_source in
    let r₁ = record r { want_sponsor_block = wanted || r.want_sponsor_block } in
    let r₂ = if is_some r₁.current_source then r₁ else clear_segments r₁ in
    set_playback_speed_raw 100 r₂

-- A new item starts with no votes to skip it.
abbrev pub clear_skip_votes : Room → Room
clear_skip_votes r =
    if r.enable_vote_skip
    then mark_dirty SyncProp.votes_to_skip (record r { votes_to_skip = [] })
    else r

abbrev pub next_item : Env → Room → Room
next_item e r = finish_dequeue e (advance e (requeue_current r.current_source r))

abbrev pub dequeue_by_mode : Env → Option QueueItem → Room → Room
dequeue_by_mode e none r = next_item e r
dequeue_by_mode e (some s) r = if is_dj r.queue_mode then restart_current e s r else next_item e r

unfoldable pub dequeue_next : Env → Room → Room
dequeue_next e r =
    let r₁ = clear_skip_votes (release_buffer_gate e.now false r) in
    dequeue_by_mode e r₁.current_source r₁
