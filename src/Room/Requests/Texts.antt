-- ===== src/Room/Requests/Texts.antt =====
-- server/room.ts: the tests of texts: JavaScript's length, and the pattern of a gesture's id.
use Prim.Native.Char.{Char, code}
use Prim.Native.String.{String, [], ◌∷◌}
use Prim.Native.Nat.{ℕ, ◌+◌}
use opentogethertube_cn.Common.{Bool, true, ◌&&◌, ◌||◌, if◌then◌else◌, leb, eqb}

-- `length`: the UTF-16 code units.
unfoldable pub text_length : String → ℕ
text_length [] = 0
text_length (c ∷ s) = (if leb 65536 (code c) then 2 else 1) + text_length s

abbrev pub between : ℕ → ℕ → ℕ → Bool
between low high n = leb low n && leb n high

-- `[a-zA-Z0-9_-]`
unfoldable pub gesture_char : Char → Bool
gesture_char c =
    between 97 122 (code c)
    || between 65 90 (code c)
    || between 48 57 (code c)
    || eqb (code c) 95
    || eqb (code c) 45

unfoldable pub all_gesture_chars : String → Bool
unfolding gesture_char
all_gesture_chars [] = true
all_gesture_chars (c ∷ s) = gesture_char c && all_gesture_chars s

-- `TEMPORARY_PLAYBACK_GESTURE_ID_REGEX.test`
unfoldable pub gesture_id_valid : String → Bool
unfolding all_gesture_chars text_length
gesture_id_valid s = all_gesture_chars s && leb 1 (text_length s) && leb (text_length s) 64
