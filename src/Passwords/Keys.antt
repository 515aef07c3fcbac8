-- ===== src/Passwords/Keys.antt =====
-- server/room-password.ts: the key of a grant tells rooms, versions of the password and tokens apart.
use Prim.Native.String.{◌++◌ as joined}
use text.Mathlib.TextLemmas.{append_cancel_left}
use opentogethertube_cn.Common.{
  String, Bool, true, ◌&&◌, ◌≡◌, ◌∙◌, refl, sym, ◌==◌, eq_iff, inl, inr, Bool-cases, &&-true,
}
use opentogethertube_cn.Common.Separated.{lacks, split_at}
use opentogethertube_cn.Room.State.{Room, AuthToken}
use opentogethertube_cn.Passwords.{grant_key, version_of}

-- No colon is in the text.
abbrev pub no_colon : String → Bool
no_colon = lacks ":"

-- What a key is made of: the name, the version of the password, and the token.
pub grant_key-injective :
    (digest : String → String) (r q : Room) (t u : AuthToken)
    → no_colon r.name ≡ true
    → no_colon q.name ≡ true
    → ((hash : String) → no_colon (digest hash) ≡ true)
    → grant_key digest r t ≡ grant_key digest q u
    → (r.name ≡ q.name) × (version_of digest r ≡ version_of digest q) × (t ≡ u)
unfolding grant_key
grant_key-injective digest r q t u m n hex e =
    let (names, others) =
      split_at ":" r.name q.name _ _ m n (append_cancel_left "room-password:" _ _ e) in
    let (versions, tokens) =
      split_at ":" (version_of digest r) (version_of digest q) t u (hex _) (hex _) others in
    (names, versions, tokens)

-- Whether two grants have one name, one version of the password and one token.
abbrev pub same_grant : (String → String) → Room → AuthToken → Room → AuthToken → Bool
same_grant digest r t q u =
    (r.name == q.name) && (version_of digest r == version_of digest q) && (t == u)

grant_key-same :
    (digest : String → String) (r q : Room) (t u : AuthToken)
    → r.name ≡ q.name
    → version_of digest r ≡ version_of digest q
    → t ≡ u
    → grant_key digest r t ≡ grant_key digest q u
unfolding grant_key
grant_key-same digest r q t u n v e =
    λ i. joined "room-password:" (joined (n i) (joined ":" (joined (v i) (joined ":" (e i)))))

all_three : {a b c : Bool} → a ≡ true → b ≡ true → c ≡ true → (a && b && c) ≡ true
all_three p q r = rw (p, q, r) refl

each_of_three : {a b c : Bool} → (a && b && c) ≡ true → (a ≡ true) × (b ≡ true) × (c ≡ true)
each_of_three {a} {b} {c} h =
    let (ab, last) = &&-true (a && b) c h in let (p, q) = &&-true a b ab in (p, q, last)

-- The keys are equal exactly where the grants are the same.
pub grant_key_test :
    (digest : String → String) (r q : Room) (t u : AuthToken)
    → no_colon r.name ≡ true
    → no_colon q.name ≡ true
    → ((hash : String) → no_colon (digest hash) ≡ true)
    → (grant_key digest r t == grant_key digest q u) ≡ same_grant digest r t q u
grant_key_test digest r q t u m n hex =
    elim (Bool-cases (grant_key digest r t == grant_key digest q u)) [
      | inl hit ↦
          let (a, b, c) = grant_key-injective digest r q t u m n hex ((eq_iff _ _).0 hit) in
          hit ∙ sym (all_three ((eq_iff _ _).1 a) ((eq_iff _ _).1 b) ((eq_iff _ _).1 c))
      | inr miss ↦ elim (Bool-cases (same_grant digest r t q u)) [
        | inr other ↦ miss ∙ sym other
        | inl same ↦
            let (a, b, c) = each_of_three same in
            (eq_iff _ _).1 (
              grant_key-same digest r q t u ((eq_iff _ _).0 a) ((eq_iff _ _).0 b)
                ((eq_iff _ _).0 c))
            ∙ sym same
      ]
    ]
