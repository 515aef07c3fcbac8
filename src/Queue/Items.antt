-- ===== src/Queue/Items.antt =====
-- server/videoqueue.ts: `splice` on the items, and the search for a video.
use opentogethertube_cn.Common.{
  ℕ, zero, suc, ◌+◌, ◌≤◌, ◌<◌, ◌≡◌, refl, ap, true, false, some, List, [], ◌∷◌, arith, length,
  get_elem?, Bool-cases, inl, inr,
}
use mathlib.Core.List.{Perm}
use mathlib.Core.List.Perm
use opentogethertube_cn.Queue.{
  QueueItem, VideoId, is_video, remove_at, insert_at, index_from, patch_at,
}

-- Putting an item back where it was taken out gives the items as they were.
pub insert_at-remove_at :
    (i : ℕ) (x : QueueItem) (xs : List QueueItem)
    → get_elem? xs i ≡ some x
    → insert_at i x (remove_at i xs) ≡ xs
unfolding insert_at remove_at
insert_at-remove_at i x [] h = cc
insert_at-remove_at zero x (y ∷ xs) h = ground arith
insert_at-remove_at (suc i) x (y ∷ xs) h = ap (◌∷◌ y) (insert_at-remove_at i x xs h)

pub remove_at-insert_at :
    (i : ℕ) (x : QueueItem) (xs : List QueueItem)
    → i ≤ length xs
    → remove_at i (insert_at i x xs) ≡ xs
unfolding insert_at remove_at
remove_at-insert_at zero x xs h = refl
remove_at-insert_at (suc i) x [] h = absurd (omega arith)
remove_at-insert_at (suc i) x (y ∷ xs) h = ap (◌∷◌ y) (remove_at-insert_at i x xs (omega arith))

pub get_elem?-insert_at :
    (i : ℕ) (x : QueueItem) (xs : List QueueItem)
    → i ≤ length xs
    → get_elem? (insert_at i x xs) i ≡ some x
unfolding insert_at
get_elem?-insert_at zero x xs h = refl
get_elem?-insert_at (suc i) x [] h = absurd (omega arith)
get_elem?-insert_at (suc i) x (y ∷ xs) h = get_elem?-insert_at i x xs (omega arith)

pub length-remove_at :
    (i : ℕ) (x : QueueItem) (xs : List QueueItem)
    → get_elem? xs i ≡ some x
    → suc (length (remove_at i xs)) ≡ length xs
unfolding remove_at
length-remove_at i x [] h = cc
length-remove_at zero x (y ∷ xs) h = refl
length-remove_at (suc i) x (y ∷ xs) h = ap suc (length-remove_at i x xs h)

pub length-insert_at :
    (i : ℕ) (x : QueueItem) (xs : List QueueItem)
    → i ≤ length xs
    → length (insert_at i x xs) ≡ suc (length xs)
unfolding insert_at
length-insert_at zero x xs h = refl
length-insert_at (suc i) x [] h = absurd (omega arith)
length-insert_at (suc i) x (y ∷ xs) h = ap suc (length-insert_at i x xs (omega arith))

pub length-patch_at : (i : ℕ) (p : _) (xs : List QueueItem) → length (patch_at i p xs) ≡ length xs
unfolding patch_at
length-patch_at i p [] = refl
length-patch_at zero p (x ∷ xs) = refl
length-patch_at (suc i) p (x ∷ xs) = ap suc (length-patch_at i p xs)

pub insert_at-perm :
    (i : ℕ) (x : QueueItem) (xs : List QueueItem) → Perm (insert_at i x xs) (x ∷ xs)
unfolding insert_at
insert_at-perm zero x xs = Perm.refl (x ∷ xs)
insert_at-perm (suc i) x [] = Perm.refl (x ∷ [])
insert_at-perm (suc i) x (y ∷ xs) =
    Perm.trans (Perm.cons y (insert_at-perm i x xs)) (Perm.swap x y xs)

-- What the search finds: the first item that is the video, and none before it is.
pub record IsFirst (n i : ℕ) (v : VideoId) (xs : List QueueItem) : Type 0 where
  pub item : QueueItem
  pub offset : ℕ
  pub placed : i ≡ n + offset
  pub there : get_elem? xs offset ≡ some item
  pub matching : is_video v item ≡ true
  pub before : (j : ℕ) (y : QueueItem) → j < offset → get_elem? xs j ≡ some y → is_video v y ≡ false

pub index_from-IsFirst :
    (n i : ℕ) (v : VideoId) (xs : List QueueItem) → index_from n v xs ≡ some i → IsFirst n i v xs
unfolding index_from
index_from-IsFirst n i v [] h = cc
index_from-IsFirst n i v (x ∷ xs) h = elim (Bool-cases (is_video v x)) [
  | inl hit ↦ record {
    item = x;
    offset = 0;
    placed = ground arith;
    there = refl;
    matching = hit;
    before = λ j y lt e. absurd (omega arith);
  }
  | inr miss ↦
      let r = index_from-IsFirst (suc n) i v xs (rw miss at h) in
      record {
        item = r.item;
        offset = suc r.offset;
        placed = omega (arith, r.placed);
        there = r.there;
        matching = r.matching;
        before = before_suc x xs r.offset miss r.before;
      }
]
  where
    before_suc :
        (x : QueueItem) (xs : List QueueItem) (k : ℕ)
        → is_video v x ≡ false
        → ((j : ℕ) (y : QueueItem) → j < k → get_elem? xs j ≡ some y → is_video v y ≡ false)
        → (j : ℕ) (y : QueueItem) → j < suc k
        → get_elem? (x ∷ xs) j ≡ some y
        → is_video v y ≡ false
    before_suc x xs k miss f zero y lt e = ground arith
    before_suc x xs k miss f (suc j) y lt e = f j y (omega arith) e
