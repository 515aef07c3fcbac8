-- ===== src/Room/Requests/Voting.antt =====
-- server/room.ts and common/voteskip.ts: how many votes skip a source.
use opentogethertube_cn.Common.{
  ℕ, suc, ◌+◌, ◌*◌, ◌/◌, ◌≤◌, ◌≡◌, ◌↔◌, refl, ap, true, some, List, [], ◌∷◌, length, leb, select,
  arith, Bool-cases, inl, inr,
}
use opentogethertube_cn.Room.State.{Room, RoomUser}
use opentogethertube_cn.Room.Users.{get_user_info, info_of, user_granted}
use opentogethertube_cn.Room.Requests.Playback.{
  enough_votes, vote_skip_threshold, count_eligible_voters, infos_of,
}

-- Each viewer is the one who is found under their id.
abbrev pub AreFound : List RoomUser → Room → Type 0
AreFound [] r = Unit
AreFound (u ∷ us) r = (get_user_info u.id r ≡ some (info_of r u)) × AreFound us r

-- The viewers who may skip.
abbrev pub skippers : Room → List RoomUser
skippers r = select (user_granted "playback.skip" r) r.realusers

count-select :
    (us : List RoomUser) (r : Room)
    → AreFound us r
    → count_eligible_voters (infos_of us r) r.grants
      ≡ length (select (user_granted "playback.skip" r) us)
unfolding count_eligible_voters infos_of user_granted info_of
count-select [] r f = refl
count-select (u ∷ us) r (f, fs) = elim (Bool-cases (user_granted "playback.skip" r u)) [
  | inl may ↦ rw (f, may) (ap suc (count-select us r fs))
  | inr not ↦ rw (f, not) (count-select us r fs)
]

half : (n k : ℕ) → (leb ((n + 1) / 2) k ≡ true) ↔ (n ≤ 2 * k)
half n k = ((λ h. ground (arith, h)), (λ h. ground (arith, h)))

-- The votes are enough exactly when they are at least half as many as the viewers in the room whose role
-- is granted to skip, where each viewer is the one who is found under their id.
pub enough_votes-majority :
    (r : Room)
    → AreFound r.realusers r
    → (enough_votes r ≡ true) ↔ (length (skippers r) ≤ 2 * length r.votes_to_skip)
unfolding enough_votes vote_skip_threshold
enough_votes-majority r f =
    rw (count-select r.realusers r f) (half (length (skippers r)) (length r.votes_to_skip))
