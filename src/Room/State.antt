-- ===== src/Room/State.antt =====
-- server/room.ts: the fields of `Room`, of its users and of what it publishes.
--
-- Time is in milliseconds. A position is in ticks of 10 µs and a speed in hundredths, so that a
-- millisecond at speed s moves the head by s ticks, with no rounding. A `Set` of properties that are
-- to be synchronised is its membership test. `none` stands for `null`, and for the -Infinity of an
-- instant that never was.
use opentogethertube_cn.Common.{
  ℕ, Bool, ◌||◌, Option, none, List, [], ◌∷◌, ◌++◌, String, if◌then◌else◌, eqb,
}
use opentogethertube_cn.Common.Int.{ℤ}
use opentogethertube_cn.Permissions.{Role}
use opentogethertube_cn.Permissions.Grants.{Grants}
use opentogethertube_cn.Queue.{QueueItem, VideoId, VideoQueue}

abbrev pub Time : Type 0
Time = ℕ

abbrev pub Ticks : Type 0
Ticks = ℤ

-- Ticks of a second.
abbrev pub second : ℕ
second = 100_000

abbrev pub ClientId : Type 0
ClientId = String

abbrev pub AuthToken : Type 0
AuthToken = String

pub data Visibility : Type 0 where
  public unlisted private : Visibility

pub data QueueMode : Type 0 where
  manual vote loop dj : QueueMode

pub data BehaviorOption : Type 0 where
  always prompt never : BehaviorOption

pub data BufferGateMode : Type 0 where
  off pause : BufferGateMode

pub data PlayerStatus : Type 0 where
  no_status ready buffering error : PlayerStatus

-- The part of a `User` row that the room reads.
pub record Account : Type 0 where
  pub id : ℕ
  pub username : String

pub record RoomUser : Type 0 where
  pub id : ClientId
  pub token : AuthToken
  pub user_id : Option ℕ
  pub unregistered_username : String
  pub user : Option Account
  pub player_status : PlayerStatus

pub record RoomUserInfo : Type 0 where
  pub id : ClientId
  pub name : String
  pub is_logged_in : Bool
  pub status : PlayerStatus
  pub role : Role

pub record TemporarySpeed : Type 0 where
  pub client_id : ClientId
  pub gesture_id : String
  pub speed : ℕ
  pub previous_speed : ℕ

pub data Fallback : Type 0 where
  partial forced waiting : Fallback

pub record ReadyInfo : Type 0 where
  pub client_id : ClientId
  pub buffer_ahead : Option Ticks
  pub at : Time

-- A round of the handshake; the room's own rounds have every optional field.
pub record Preparation : Type 0 where
  pub id : String
  pub client_id : ClientId
  pub video : VideoId
  pub position : Ticks
  pub eligible : List ClientId
  pub ready : List ReadyInfo
  pub deadline_at : Time
  pub hard_deadline_at : Time
  pub start_at : Option Time
  pub fallback : Option Fallback

pub record BufferGate : Type 0 where
  pub started_at : Time
  pub waiting_on : List ClientId
  pub paused_by_gate : Bool

pub record Segment : Type 0 where
  pub category : String
  pub start_time : Ticks
  pub end_time : Ticks

pub data SyncProp : Type 0 where
  name title description is_temporary visibility queue_mode current_source queue is_playing
        playback_position playback_speed temporary_playback_speed playback_preparation grants
        has_owner has_password vote_counts video_segments auto_skip_segment_categories prev_queue
        restore_queue_behavior enable_vote_skip buffer_gate_mode danmaku_source votes_to_skip :
      SyncProp

abbrev pub prop_rank : SyncProp → ℕ
prop_rank name = 0
prop_rank title = 1
prop_rank description = 2
prop_rank is_temporary = 3
prop_rank visibility = 4
prop_rank queue_mode = 5
prop_rank current_source = 6
prop_rank queue = 7
prop_rank is_playing = 8
prop_rank playback_position = 9
prop_rank playback_speed = 10
prop_rank temporary_playback_speed = 11
prop_rank playback_preparation = 12
prop_rank grants = 13
prop_rank has_owner = 14
prop_rank has_password = 15
prop_rank vote_counts = 16
prop_rank video_segments = 17
prop_rank auto_skip_segment_categories = 18
prop_rank prev_queue = 19
prop_rank restore_queue_behavior = 20
prop_rank enable_vote_skip = 21
prop_rank buffer_gate_mode = 22
prop_rank danmaku_source = 23
prop_rank votes_to_skip = 24

-- A video that a request names, with the subtitles that it brings.
pub record VideoReference : Type 0 where
  pub service : String
  pub id : String
  pub subtitle_url : Option String

abbrev pub referred : VideoReference → VideoId
referred v = record { service = v.service; id = v.id }

-- What a request's event carries: the requests of whose success the room tells its viewers.
pub data EventRequest : Type 0 where
  join : ClientId → EventRequest
  leave : EventRequest
  playback : Bool → EventRequest
  skip : EventRequest
  seek : Ticks → EventRequest
  add : Option VideoReference → EventRequest
  update_queue_item : VideoId → EventRequest
  remove : VideoId → EventRequest

pub record EventContext : Type 0 where
  pub video : Option QueueItem
  pub videos : List QueueItem
  pub prev_position : Option Ticks
  pub queue_idx : Option ℕ
  pub user : Option RoomUserInfo

abbrev pub no_context : EventContext
no_context = record {
  video = none;
  videos = [];
  prev_position = none;
  queue_idx = none;
  user = none;
}

-- `serial` is the identity of the recorded object, which `indexOf` compares.
pub record RoomEvent : Type 0 where
  pub serial : ℕ
  pub request : EventRequest
  pub user : RoomUserInfo
  pub additional : EventContext

-- What the room sends: to the clients, or to the client manager.
pub data Message : Type 0 where
  event : RoomEvent → Message
  user_update : RoomUserInfo → Message
  chat : RoomUserInfo → String → Message
  event_custom : String → Message
  kick : ClientId → Message

-- A leave event that waits: when it is due, and whom it will report.
pub record PendingLeave : Type 0 where
  pub due : Time
  pub client_id : ClientId
  pub user : RoomUserInfo

pub record Room : Type 0 where
  pub name : String
  pub title : String
  pub description : String
  pub visibility : Visibility
  pub queue_mode : QueueMode
  pub is_temporary : Bool
  pub owner : Option Account
  pub grants : Grants
  pub user_roles : List (Role × List ℕ)
  pub auto_skip_segment_categories : List String
  pub restore_queue_behavior : BehaviorOption
  pub enable_vote_skip : Bool
  pub buffer_gate_mode : BufferGateMode
  pub danmaku_source : Option String
  pub password_hash : Option String
  pub permissions_revision : ℕ
  pub buffer_gate_exhausted : List ClientId
  pub buffer_gate : Option BufferGate
  pub last_play_at : Option Time
  pub buffer_gate_cooldown_until : Option Time
  pub pending_leave_events : List (AuthToken × PendingLeave)
  pub restored_from_storage : Bool
  pub current_source : Option QueueItem
  pub queue : VideoQueue
  pub prev_queue : Option (List QueueItem)
  pub is_playing : Bool
  pub playback_position : Ticks
  pub playback_speed : ℕ
  pub temporary_speed : Option TemporarySpeed
  pub temporary_speed_timer : Option Time
  pub playback_start_timer : Option Time
  pub playback_preparation : Option Preparation
  pub resume_on_next_join : Bool
  pub realusers : List RoomUser
  pub votes : List (String × List ClientId)
  pub video_segments : List Segment
  pub votes_to_skip : List ClientId
  pub dirty : SyncProp → Bool
  pub recent_events : List RoomEvent
  pub next_serial : ℕ
  pub playback_start : Option Time
  pub keep_alive_ping : Time
  pub want_sponsor_block : Bool
  pub dont_skip_segments_until : Option Ticks
  pub outbox : List Message

-- `markDirty`; the synchronisation that it schedules runs later.
abbrev pub marked : SyncProp → (SyncProp → Bool) → SyncProp → Bool
marked p dirty q = eqb (prop_rank p) (prop_rank q) || dirty q

abbrev pub mark_dirty : SyncProp → Room → Room
mark_dirty p r = record r { dirty = marked p r.dirty }

-- The room's queue after one of its operations: the queue's callback marks the room.
abbrev pub put_queue : VideoQueue → Room → Room
put_queue q r = record r { queue = q; dirty = if q.dirty then marked queue r.dirty else r.dirty }

-- `publish` and `command`.
abbrev pub publish : Message → Room → Room
publish m r = record r { outbox = r.outbox ++ m ∷ [] }
