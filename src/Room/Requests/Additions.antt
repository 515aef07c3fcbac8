-- ===== src/Room/Requests/Additions.antt =====
-- server/room.ts: the handlers that bring videos into the room, addToQueue and playNow.
use opentogethertube_cn.Common.{
  ℕ, ◌+◌, Bool, true, false, not, ◌&&◌, ◌||◌, Option, none, some, List, [], ◌∷◌, map, if◌then◌else◌,
  ltb, leb, length, String, ◌==◌, or_else,
}
use opentogethertube_cn.Common.Int.{pos}
use opentogethertube_cn.Exceptions.{Result, ok, err, bad_api_argument, plain, video_already_queued}
use opentogethertube_cn.Queue.{
  QueueItem, VideoId, VideoQueue, max_queue_items, enqueue, contains, evict, push_top, id_of,
}
use opentogethertube_cn.Room.State.{
  Room, Time, SyncProp, VideoReference, referred, EventRequest, no_context, mark_dirty, put_queue,
}
use opentogethertube_cn.Room.Clock.{
  play, set_current_source, set_playback_position, real_playback_position,
}
use opentogethertube_cn.Room.Holding.{
  can_hold_playback_for_preparation, hold_playback_for_preparation, plays_video,
}
use opentogethertube_cn.Room.Gate.{nonempty}
use opentogethertube_cn.Room.Dequeue.{Env}
use opentogethertube_cn.Room.Requests.{
  Context, Reply, done, thrown, then_do, require, with_value, publish_room_event,
}
use opentogethertube_cn.Room.Requests.Items.{
  SubtitleTests, assert_usable_subtitle_url, set_prev_queue,
}
use opentogethertube_cn.Room.Requests.Texts.{text_length}

-- What `InfoExtract` answers: the service and the id that a URL stands for, the video of a reference,
-- and the videos of several, of which one may be missing.
pub record Extractor : Type 0 where
  pub video_of_url : String → Result VideoId
  pub video_info : VideoId → Result (Option QueueItem)
  pub many_video_info : List VideoReference → Result (List (Option QueueItem))

abbrev pub max_video_id_length : ℕ
max_video_id_length = 2048

unfoldable pub assert_usable_video_id : VideoId → Result (Unit {0})
unfolding text_length
assert_usable_video_id v =
    if v.id == "" || ltb max_video_id_length (text_length v.id)
    then err (bad_api_argument "video")
    else ok tt

-- `isVideoInQueue`
unfoldable pub is_video_in_queue : VideoId → Room → Bool
unfolding contains
is_video_in_queue v r = plays_video v r.current_source || contains v r.queue

-- `AddRequest`; `none` stands for a field that is absent.
pub record AddRequest : Type 0 where
  pub url : Option String
  pub video : Option VideoReference
  pub videos : Option (List VideoReference)

abbrev pub usable_url : Option String → Result (Unit {0})
usable_url none = ok tt
usable_url (some url) =
    if ltb max_video_id_length (text_length url) then err (bad_api_argument "url") else ok tt

abbrev pub usable_video : Option VideoReference → Result (Unit {0})
usable_video none = ok tt
usable_video (some v) = assert_usable_video_id (referred v)

unfoldable pub usable_videos : List VideoReference → Result (Unit {0})
unfolding assert_usable_video_id
usable_videos [] = ok tt
usable_videos (v ∷ vs) =
    let rest = usable_videos vs in
    elim (assert_usable_video_id (referred v)) [ ok _ ↦ rest | err e ↦ err e ]

abbrev pub some_text : Option String → Bool
some_text none = false
some_text (some s) = not (s == "")

-- `requestedItems`
unfoldable pub requested_items : AddRequest → ℕ
requested_items request = elim request.videos [
  | some vs ↦ length vs
  | none ↦ elim request.video [ some v ↦ 1 | none ↦ if some_text request.url then 1 else 0 ]
]

unfoldable pub fits_request : AddRequest → Room → Bool
unfolding requested_items
fits_request request r = not (
    ltb 0 (requested_items request)
    && ltb max_queue_items (length r.queue.items + requested_items request))

-- The video that the URL, if there is one, stands for; else the one that the request names.
unfoldable pub resolved_video : Extractor → AddRequest → Result (Option VideoReference)
unfolding assert_usable_video_id
resolved_video x request =
    if not (some_text request.url)
    then ok request.video
    else elim (x.video_of_url (or_else request.url "")) [
      | err e ↦ err e
      | ok v ↦ elim (assert_usable_video_id v) [
        | err e ↦ err e
        | ok _ ↦ ok (some (record { service = v.service; id = v.id; subtitle_url = none }))
      ]
    ]

-- The item with the subtitles that the request brings, if it brings some that are usable.
unfoldable pub with_subtitles : SubtitleTests → Option String → QueueItem → Result QueueItem
unfolding assert_usable_subtitle_url
with_subtitles tests none item = ok item
with_subtitles tests (some url) item =
    if url == "" then ok item else elim (assert_usable_subtitle_url tests url) [
      | err e ↦ err e
      | ok _ ↦ ok (record item { subtitle_url = some url })
    ]

abbrev pub present : Option QueueItem → Result QueueItem
present none = err (plain "video was undefined")
present (some item) = ok item

unfoldable pub add_one : Extractor → SubtitleTests → VideoReference → Context → Room → Reply
add_one x tests v context r =
    if is_video_in_queue (referred v) r
    then thrown video_already_queued r
    else with_value (x.video_info (referred v)) r λ found. with_value (present found) r λ item.
      with_value (with_subtitles tests v.subtitle_url item) r λ subtitled.
        with_value (enqueue (some subtitled ∷ []) r.queue) r λ q. done (
          publish_room_event (EventRequest.add (some v))
            (record no_context { video = some subtitled }) context
            (set_prev_queue none (put_queue q r)))

abbrev pub check_subtitles : SubtitleTests → Option String → Result (Unit {0})
check_subtitles tests none = ok tt
check_subtitles tests (some url) = if url == "" then ok tt else assert_usable_subtitle_url tests url

-- The loop of a batch: none may be missing, the subtitles must be usable, and what is in the queue
-- is left out.
unfoldable pub usable_items :
    SubtitleTests → Room → List (Option QueueItem) → Result (List QueueItem)
unfolding is_video_in_queue assert_usable_subtitle_url
usable_items tests r [] = ok []
usable_items tests r (none ∷ found) = err (plain "video was undefined")
usable_items tests r (some item ∷ found) =
    let rest = usable_items tests r found in
    elim (check_subtitles tests item.subtitle_url) [
      | err e ↦ err e
      | ok _ ↦
          if is_video_in_queue (id_of item) r
          then rest
          else elim rest [ err e ↦ err e | ok items ↦ ok (item ∷ items) ]
    ]

abbrev pub add_items : List QueueItem → Context → Room → Reply
add_items [] context r = thrown video_already_queued r
add_items (item ∷ items) context r = with_value (enqueue (map some (item ∷ items)) r.queue) r λ q.
    done (
      publish_room_event (EventRequest.add none) (record no_context { videos = item ∷ items })
        context (put_queue q r))

unfoldable pub add_many : Extractor → SubtitleTests → List VideoReference → Context → Room → Reply
add_many x tests vs context r =
    with_value (x.many_video_info vs) r
      λ found. with_value (usable_items tests r found) r λ items. add_items items context r

abbrev pub add_requested :
    Extractor
    → SubtitleTests
    → Option VideoReference
    → Option (List VideoReference)
    → Context
    → Room
    → Reply
add_requested x tests (some v) videos context r = add_one x tests v context r
add_requested x tests none (some vs) context r = add_many x tests vs context r
add_requested x tests none none context r = done r

unfoldable pub add_to_queue : Extractor → SubtitleTests → AddRequest → Context → Room → Reply
add_to_queue x tests request context r = with_value (usable_url request.url) r λ _.
    with_value (usable_video request.video) r λ _.
      with_value (usable_videos (or_else request.videos [])) r λ _.
        if not (fits_request request r)
        then thrown (bad_api_argument "queue") r
        else with_value (resolved_video x request) r
            λ video. add_requested x tests video request.videos context r

-- The current item goes to the top of the queue, to start where it was.
unfoldable pub put_current_back : Time → Room → Reply
put_current_back now r = elim r.current_source [
  | none ↦ done r
  | some s ↦
      let stopped = record s { start_at = some (real_playback_position now r) } in
      let r₁ = record r { current_source = some stopped } in
      with_value (push_top (some stopped ∷ []) r₁.queue) r₁ (λ q. done (put_queue q r₁))
]

-- The new source, in the place of the old one.
unfoldable pub take_over : Env → Option QueueItem → Room → Room
unfolding set_current_source
take_over e item r =
    let r₁ = mark_dirty SyncProp.queue (set_current_source e.now item r) in
    let r₂ = record (set_playback_position (pos 0) r₁) { playback_start = some e.now } in
    mark_dirty SyncProp.video_segments (record r₂ { video_segments = [] })

unfoldable pub start_source : Env → Room → Room
start_source e r =
    let r₁ =
      if can_hold_playback_for_preparation r
      then hold_playback_for_preparation e.now e.uuid r
      else if not r.is_playing
      then play e.now r
      else r in
    if nonempty r₁.auto_skip_segment_categories then record r₁ { want_sponsor_block = true } else r₁

abbrev pub play_item : Env → Option QueueItem → Room → Reply
play_item e item r =
    then_do (put_current_back e.now r) (λ r. done (start_source e (take_over e item r)))

-- The subtitles are set on the item, which `undefined` does not bear.
abbrev pub subtitled_item : String → Option QueueItem → Result (Option QueueItem)
subtitled_item url none = err (plain "Cannot set properties of undefined")
subtitled_item url (some item) = ok (some (record item { subtitle_url = some url }))

abbrev pub with_new_subtitles : Option String → Option QueueItem → Result (Option QueueItem)
with_new_subtitles none item = ok item
with_new_subtitles (some url) item = if url == "" then ok item else subtitled_item url item

abbrev pub play_found : Env → VideoReference → Option QueueItem → Room → Reply
play_found e v found r =
    with_value (with_new_subtitles v.subtitle_url found) r (λ item. play_item e item r)

abbrev pub play_queued : Env → VideoReference → Room → ℕ × QueueItem × VideoQueue → Reply
play_queued e v r (index, item, q) = play_found e v (some item) (put_queue q r)

-- The requested item is in the queue: it is evicted and played.
abbrev pub play_from_queue : Env → SubtitleTests → VideoReference → Room → Reply
play_from_queue e tests v r =
    with_value (check_subtitles tests v.subtitle_url) r
      λ _. with_value (evict (referred v) r.queue) r (play_queued e v r)

-- The requested item is new to the room.
abbrev pub play_new : Env → Extractor → SubtitleTests → VideoReference → Room → Reply
play_new e x tests v r =
    if leb max_queue_items (length r.queue.items)
    then thrown (bad_api_argument "queue") r
    else with_value (check_subtitles tests v.subtitle_url) r
        λ _. with_value (x.video_info (referred v)) r λ found. play_found e v found r

unfoldable pub play_now : Env → Extractor → SubtitleTests → VideoReference → Context → Room → Reply
play_now e x tests v context r = with_value (assert_usable_video_id (referred v)) r λ _.
    if plays_video (referred v) r.current_source
    then done r
    else if is_video_in_queue (referred v) r
    then require "manage-queue.order" context r (play_from_queue e tests v)
    else require "manage-queue.add" context r (play_new e x tests v)
