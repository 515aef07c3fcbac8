-- ===== src/Tests/Rooms.antt =====
-- server/room.ts: rooms, viewers and items that the tests share.
use opentogethertube_cn.Common.{ℕ, true, false, Option, none, some, List, [], ◌∷◌, String}
use opentogethertube_cn.Common.Int.{pos}
use opentogethertube_cn.Exceptions.{ok, err, plain}
use opentogethertube_cn.Permissions.{unregistered_user}
use opentogethertube_cn.Permissions.Grants.{Grants}
use opentogethertube_cn.Queue.{QueueItem, VideoId, finite}
use opentogethertube_cn.Room.State.{
  Room, RoomUser, Preparation, BufferGate, Visibility, manual, BehaviorOption, BufferGateMode,
  buffering, SyncProp,
}
use opentogethertube_cn.Room.Dequeue.{Env}
use opentogethertube_cn.Room.Requests.{Context}
use opentogethertube_cn.Room.Requests.Items.{SubtitleTests}
use opentogethertube_cn.Room.Requests.Additions.{Extractor}
use opentogethertube_cn.Room.Requests.Dispatch.{World}

abbrev pub film : QueueItem
film = record {
  service = "direct";
  id = "https://example.com/film.mp4";
  length = some (finite (pos 500_000));
  is_live = false;
  mime = some "video/mp4";
  start_at = none;
  end_at = none;
  subtitle_url = none;
  metadata = "";
}

abbrev pub clip : QueueItem
clip = record film { id = "https://example.com/clip.mp4"; start_at = some (pos 300) }

-- Every permission for the unregistered viewers.
abbrev pub open_grants : Grants
open_grants = record { masks = (unregistered_user, 536870911) ∷ [] }

abbrev pub ann : RoomUser
ann = record {
  id = "ann";
  token = "token of ann";
  user_id = none;
  unregistered_username = "Ann";
  user = none;
  player_status = buffering;
}

-- A room that plays a film for one viewer since the instant 1000, with a clip in its queue.
abbrev pub playing_room : Room
playing_room = record {
  name = "room";
  title = "";
  description = "";
  visibility = Visibility.public;
  queue_mode = manual;
  is_temporary = true;
  owner = none;
  grants = open_grants;
  user_roles = [];
  auto_skip_segment_categories = [];
  restore_queue_behavior = BehaviorOption.prompt;
  enable_vote_skip = false;
  buffer_gate_mode = BufferGateMode.off;
  danmaku_source = none;
  password_hash = none;
  permissions_revision = 0;
  buffer_gate_exhausted = [];
  buffer_gate = none;
  last_play_at = some 1000;
  buffer_gate_cooldown_until = none;
  pending_leave_events = [];
  restored_from_storage = false;
  current_source = some film;
  queue = record { items = clip ∷ []; dirty = false };
  prev_queue = none;
  is_playing = true;
  playback_position = pos 0;
  playback_speed = 100;
  temporary_speed = none;
  temporary_speed_timer = none;
  playback_start_timer = none;
  playback_preparation = none;
  resume_on_next_join = false;
  realusers = ann ∷ [];
  votes = [];
  video_segments = [];
  votes_to_skip = [];
  dirty = (λ (p : SyncProp). false);
  recent_events = [];
  next_serial = 0;
  playback_start = some 1000;
  keep_alive_ping = 1000;
  want_sponsor_block = false;
  dont_skip_segments_until = none;
  outbox = [];
}

-- Ann presses for double speed.
abbrev pub pressed_room : Room
pressed_room = record playing_room {
  playback_speed = 200;
  temporary_speed =
      some (record { client_id = "ann"; gesture_id = "g"; speed = 200; previous_speed = 100 });
}

-- The gate holds the room for Ann since the instant 5000.
abbrev pub gate : BufferGate
gate = record { started_at = 5000; waiting_on = "ann" ∷ []; paused_by_gate = true }

abbrev pub gated_room : Room
gated_room = record playing_room {
  buffer_gate = some gate;
  is_playing = false;
  playback_position = pos 4000;
  playback_start = none;
}

-- The film is held for Ann, who has not reported; the deadlines are at 9000 and 21000.
abbrev pub round : Preparation
round = record {
  id = "round";
  client_id = "ann";
  video = record { service = "direct"; id = "https://example.com/film.mp4" };
  position = pos 0;
  eligible = "ann" ∷ [];
  ready = [];
  deadline_at = 9000;
  hard_deadline_at = 21000;
  start_at = none;
  fallback = none;
}

abbrev pub waiting_room : Room
waiting_room = record playing_room {
  is_playing = false;
  playback_preparation = some round;
  resume_on_next_join = true;
  playback_start = none;
}

abbrev pub env : Env
env = record {
  now = 22000;
  uuid = "uuid";
  sponsorblock_enabled = false;
  unload_after = 240;
  order_by = λ key items. items;
}

abbrev pub extractor : Extractor
extractor = record {
  video_of_url = (λ (u : String). ok (record { service = "direct"; id = u }));
  video_info = (λ (v : VideoId). ok (some (record film { service = v.service; id = v.id })));
  many_video_info = (λ vs. err (plain "none"));
}

abbrev pub subtitles : SubtitleTests
subtitles = record {
  has_format = (λ (u : String). true);
  is_public = (λ (u : String). true);
  resolves_public = (λ (u : String). true);
}

abbrev pub world : World
world = record {
  env = env;
  extractor = extractor;
  subtitles = subtitles;
  account = (λ (o : Option ℕ). none);
  shuffled = (λ (items : List QueueItem). items);
}

abbrev pub viewer : Context
viewer = record {
  username = "Ann";
  role = unregistered_user;
  client_id = some "ann";
  token = some "token of ann";
}
