-- ===== src/Room/Consistency/Requests.antt =====
-- server/room.ts: every request keeps the playback state consistent, whether it throws or not.
use opentogethertube_cn.Common.Dict.{string_eq}
use opentogethertube_cn.Room.State.{Room}
use opentogethertube_cn.Room.Requests.{Context, room_after}
use opentogethertube_cn.Room.Requests.Dispatch.{
  World, RoomRequest, handle, process_request, kind_of,
}
use opentogethertube_cn.Room.Consistency.{IsConsistent}
use opentogethertube_cn.Room.Consistency.Replies.{LeavesConsistent, guarded-Leaves}
use opentogethertube_cn.Room.Consistency.Items.{
  update_queue_item-Leaves, remove_from_queue-Leaves, reorder_queue-Leaves, vote-Leaves,
  restore_queue-Leaves, shuffle_queue-Leaves,
}
use opentogethertube_cn.Room.Consistency.Additions.{add_to_queue-Leaves, play_now-Leaves}
use opentogethertube_cn.Room.Consistency.Members.{
  chat-Leaves, kick_user-Leaves, promote_user-Leaves,
}
use opentogethertube_cn.Room.Consistency.Undo.{undo-Leaves}
use opentogethertube_cn.Room.Consistency.Handlers.{
  playback-Leaves, skip-Leaves, seek-Leaves, set_playback_speed-Leaves,
  set_temporary_playback_speed-Leaves,
}
use opentogethertube_cn.Room.Consistency.Settings.{apply_settings-Leaves}
use opentogethertube_cn.Room.Consistency.Joining.{join_room-Leaves, update_user-Leaves}
use opentogethertube_cn.Room.Consistency.Leaving.{leave_room-Leaves}

handle-Leaves :
    (w : World) (q : RoomRequest) (c : Context) (r : Room)
    → IsConsistent r
    → LeavesConsistent (handle w q c r)
unfolding handle
handle-Leaves w (RoomRequest.join q) c r v =
    join_room-Leaves w.env (w.account q.info.user_id) q c r v
handle-Leaves w RoomRequest.leave c r v = leave_room-Leaves w.env c r v
handle-Leaves w (RoomRequest.playback b) c r v = playback-Leaves w.env.now b c r v
handle-Leaves w RoomRequest.skip c r v = skip-Leaves w.env c r v
handle-Leaves w (RoomRequest.seek t) c r v = seek-Leaves w.env.now t c r v
handle-Leaves w (RoomRequest.add a) c r v = add_to_queue-Leaves w.extractor w.subtitles a c r v
handle-Leaves w (RoomRequest.update_queue_item i p) c r v =
    update_queue_item-Leaves w.subtitles i p c r v
handle-Leaves w (RoomRequest.remove i) c r v = remove_from_queue-Leaves i c r v
handle-Leaves w (RoomRequest.order a b) c r v = reorder_queue-Leaves a b r v
handle-Leaves w (RoomRequest.vote i b) c r v = vote-Leaves i b c r v
handle-Leaves w (RoomRequest.promote i n) c r v = promote_user-Leaves i n c r v
handle-Leaves w (RoomRequest.update_user q) c r v =
    update_user-Leaves w.env (w.account q.info.user_id) q r v
handle-Leaves w (RoomRequest.chat t) c r v = chat-Leaves t c r v
handle-Leaves w (RoomRequest.undo o) c r v = undo-Leaves w.env.now o c r v
handle-Leaves w (RoomRequest.apply_settings s) c r v = apply_settings-Leaves w.env.now s c r v
handle-Leaves w (RoomRequest.play_now i) c r v =
    play_now-Leaves w.env w.extractor w.subtitles i c r v
handle-Leaves w RoomRequest.shuffle c r v = shuffle_queue-Leaves w.shuffled c r v
handle-Leaves w (RoomRequest.playback_speed s) c r v = set_playback_speed-Leaves w.env.now s r v
handle-Leaves w (RoomRequest.restore_queue b) c r v = restore_queue-Leaves b c r v
handle-Leaves w (RoomRequest.kick i) c r v = kick_user-Leaves i c r v
handle-Leaves w (RoomRequest.temporary_playback_speed q) c r v =
    set_temporary_playback_speed-Leaves w.env.now q c r v

-- A request that comes to a room whose playback state is consistent leaves it consistent, whether
-- the request is refused, throws or succeeds.
pub process_request-IsConsistent :
    (w : World) (q : RoomRequest) (c : Context) (r : Room)
    → IsConsistent r
    → IsConsistent (room_after (process_request w q c r))
unfolding process_request
process_request-IsConsistent w q c r v =
    guarded-Leaves (kind_of q) c r (handle w q c) v (handle-Leaves w q c r v)
