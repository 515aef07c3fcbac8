-- ===== src/Common/Entries.antt =====
-- What holds of every entry of a map.
use mathlib.Core.Path.{◌≡◌, sym, subst}
use mathlib.Core.Logic.{inl, inr}
use mathlib.Core.Option.{some}
use mathlib.Core.List.{List, [], ◌∷◌}
use opentogethertube_cn.Common.Tests.{Bool-cases, if_split}
use opentogethertube_cn.Common.Dict.{Eq, get, put, remove}

module _ {ℓ κ μ} {K : Type ℓ} {V : Type κ} (P : K → V → Type μ) where
  abbrev pub AllEntries : List (K × V) → Type μ
  AllEntries [] = Unit
  AllEntries ((k, v) ∷ m) = P k v × AllEntries m

module _ {ℓ κ μ} {K : Type ℓ} {V : Type κ} ⦃e : Eq K⦄ (P : K → V → Type μ) where
  pub AllEntries-get :
      (k : K) (m : List (K × V)) (v : V) → AllEntries P m → get k m ≡ some v → P k v
  unfolding get
  AllEntries-get k [] v a h = cc
  AllEntries-get k ((j, w) ∷ m) v a h = elim (Bool-cases (e.same j k)) [
    | inl hit ↦
        let found : some w ≡ some v = rw hit at h in
        subst (λ (x : V). P k x) (cc) (subst (λ (i : K). P i w) ((e.same_iff j k).0 hit) a.0)
    | inr miss ↦ AllEntries-get k m v a.1 (rw miss at h)
  ]

  pub AllEntries-put :
      (k : K) (v : V) (m : List (K × V)) → P k v → AllEntries P m → AllEntries P (put k v m)
  unfolding put
  AllEntries-put k v [] p a = (p, tt)
  AllEntries-put k v ((j, w) ∷ m) p a =
      if_split (AllEntries P) (e.same j k) ((j, v) ∷ m) ((j, w) ∷ put k v m)
        (λ hit. (subst (λ (i : K). P i v) (sym ((e.same_iff j k).0 hit)) p, a.1))
        (λ _. (a.0, AllEntries-put k v m p a.1))

  pub AllEntries-remove : (k : K) (m : List (K × V)) → AllEntries P m → AllEntries P (remove k m)
  unfolding remove
  AllEntries-remove k [] a = tt
  AllEntries-remove k ((j, w) ∷ m) a =
      let rest = AllEntries-remove k m a.1 in
      if_split (AllEntries P) (e.same j k) (remove k m) ((j, w) ∷ remove k m) (λ _. rest)
        (λ _. (a.0, rest))
