-- ===== src/Room/Requests/Dispatch.antt =====
-- server/room.ts: `processRequest`, for the requests whose handlers are modelled: all but the
-- notes.
use opentogethertube_cn.Common.{ℕ, Bool, Option, List, String}
use opentogethertube_cn.Common.Int.{ℤ}
use opentogethertube_cn.Queue.{QueueItem, VideoId, Number}
use opentogethertube_cn.Room.State.{Room, Account, ClientId, VideoReference}
use opentogethertube_cn.Room.Dequeue.{Env}
use opentogethertube_cn.Room.Requests.{Context, Reply, RequestType, guarded}
use opentogethertube_cn.Room.Requests.Playback
use opentogethertube_cn.Room.Requests.Speed
use opentogethertube_cn.Room.Requests.Speed.{GestureRequest}
use opentogethertube_cn.Room.Requests.Items
use opentogethertube_cn.Room.Requests.Items.{SubtitleTests, PatchRequest}
use opentogethertube_cn.Room.Requests.Additions
use opentogethertube_cn.Room.Requests.Additions.{Extractor, AddRequest}
use opentogethertube_cn.Room.Requests.Members
use opentogethertube_cn.Room.Requests.Members.{JoinRequest, UpdateRequest}
use opentogethertube_cn.Room.Requests.Leaving
use opentogethertube_cn.Room.Requests.Roles
use opentogethertube_cn.Room.Requests.Settings
use opentogethertube_cn.Room.Requests.Undo
use opentogethertube_cn.Room.Requests.Undo.{Echo}

-- What the handlers call: the clock and the configuration, the extractor, the tests of a subtitle's
-- URL, the user manager, and `_.shuffle`.
pub record World : Type 0 where
  pub env : Env
  pub extractor : Extractor
  pub subtitles : SubtitleTests
  pub account : Option ℕ → Option Account
  pub shuffled : List QueueItem → List QueueItem

pub data RoomRequest : Type 0 where
  join : JoinRequest → RoomRequest
  leave : RoomRequest
  playback : Bool → RoomRequest
  skip : RoomRequest
  seek : Option Number → RoomRequest
  add : AddRequest → RoomRequest
  update_queue_item : VideoId → PatchRequest → RoomRequest
  remove : VideoId → RoomRequest
  order : Option ℤ → Option ℤ → RoomRequest
  vote : VideoId → Bool → RoomRequest
  promote : ClientId → Option ℤ → RoomRequest
  update_user : UpdateRequest → RoomRequest
  chat : Option String → RoomRequest
  undo : Echo → RoomRequest
  apply_settings : Settings.Settings → RoomRequest
  play_now : VideoReference → RoomRequest
  shuffle : RoomRequest
  playback_speed : Number → RoomRequest
  restore_queue : Bool → RoomRequest
  kick : ClientId → RoomRequest
  temporary_playback_speed : GestureRequest → RoomRequest

unfoldable pub kind_of : RoomRequest → RequestType
kind_of (RoomRequest.join _) = RequestType.join
kind_of RoomRequest.leave = RequestType.leave
kind_of (RoomRequest.playback _) = RequestType.playback
kind_of RoomRequest.skip = RequestType.skip
kind_of (RoomRequest.seek _) = RequestType.seek
kind_of (RoomRequest.add _) = RequestType.add
kind_of (RoomRequest.update_queue_item _ _) = RequestType.update_queue_item
kind_of (RoomRequest.remove _) = RequestType.remove
kind_of (RoomRequest.order _ _) = RequestType.order
kind_of (RoomRequest.vote _ _) = RequestType.vote
kind_of (RoomRequest.promote _ _) = RequestType.promote
kind_of (RoomRequest.update_user _) = RequestType.update_user
kind_of (RoomRequest.chat _) = RequestType.chat
kind_of (RoomRequest.undo _) = RequestType.undo
kind_of (RoomRequest.apply_settings _) = RequestType.apply_settings
kind_of (RoomRequest.play_now _) = RequestType.play_now
kind_of RoomRequest.shuffle = RequestType.shuffle
kind_of (RoomRequest.playback_speed _) = RequestType.playback_speed
kind_of (RoomRequest.restore_queue _) = RequestType.restore_queue
kind_of (RoomRequest.kick _) = RequestType.kick
kind_of (RoomRequest.temporary_playback_speed _) = RequestType.temporary_playback_speed

-- The table of the handlers.
unfoldable pub handle : World → RoomRequest → Context → Room → Reply
handle w (RoomRequest.join request) c r =
    Members.join_room w.env (w.account request.info.user_id) request c r
handle w RoomRequest.leave c r = Leaving.leave_room w.env c r
handle w (RoomRequest.playback state) c r = Playback.playback w.env.now state c r
handle w RoomRequest.skip c r = Playback.skip w.env c r
handle w (RoomRequest.seek value) c r = Playback.seek w.env.now value c r
handle w (RoomRequest.add request) c r = Additions.add_to_queue w.extractor w.subtitles request c r
handle w (RoomRequest.update_queue_item video patch) c r =
    Items.update_queue_item w.subtitles video patch c r
handle w (RoomRequest.remove video) c r = Items.remove_from_queue video c r
handle w (RoomRequest.order from to) c r = Items.reorder_queue from to r
handle w (RoomRequest.vote video adding) c r = Items.vote video adding c r
handle w (RoomRequest.promote client role) c r = Roles.promote_user client role c r
handle w (RoomRequest.update_user request) c r =
    Members.update_user w.env (w.account request.info.user_id) request r
handle w (RoomRequest.chat text) c r = Members.chat text c r
handle w (RoomRequest.undo echo) c r = Undo.undo w.env.now echo c r
handle w (RoomRequest.apply_settings settings) c r = Settings.apply_settings w.env.now settings c r
handle w (RoomRequest.play_now video) c r =
    Additions.play_now w.env w.extractor w.subtitles video c r
handle w RoomRequest.shuffle c r = Items.shuffle_queue w.shuffled c r
handle w (RoomRequest.playback_speed speed) c r = Speed.set_playback_speed w.env.now speed r
handle w (RoomRequest.restore_queue discard) c r = Items.restore_queue discard c r
handle w (RoomRequest.kick client) c r = Members.kick_user client c r
handle w (RoomRequest.temporary_playback_speed request) c r =
    Speed.set_temporary_playback_speed w.env.now request c r

unfoldable pub process_request : World → RoomRequest → Context → Room → Reply
process_request w request c r = guarded (kind_of request) c r (handle w request c)
