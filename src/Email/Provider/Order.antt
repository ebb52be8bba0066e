-- ===== src/Email/Provider/Order.antt =====
-- The order in which the providers are tried.
use mern_auth.Prelude.{
  ◌≡◌, refl, List, [], ◌∷◌, String, some, none, Option, arith, select, find, not, str_eq,
  Bool-cases, inl, inr, eq_iff, All, ◌≢◌,
}
use mern_auth.Email.Provider.{Provider, is_named, providers_to_try, prefer}
use mathlib.Core.List.{Perm}
use mathlib.Core.List.Perm

module _ {S : Type 0} where
  -- No provider of the list has the name.
  abbrev pub Unnamed : String → List (Provider S) → Type 0
  Unnamed name ps = All (λ p. p.name ≢ name) ps

  -- The providers have different names.
  abbrev pub HasDistinctNames : List (Provider S) → Type 0
  HasDistinctNames [] = Unit
  HasDistinctNames (p ∷ ps) = Unnamed p.name ps × HasDistinctNames ps

  select-Unnamed :
      (name : String) (ps : List (Provider S))
      → Unnamed name ps
      → select (λ q. not (is_named name q)) ps ≡ ps
  select-Unnamed name [] h = refl
  select-Unnamed name (p ∷ ps) (ne, h) =
      ground (arith, select-Unnamed name ps h, eq_iff p.name name)

  prefer_perm :
      (name : String) (ps : List (Provider S)) (p : Provider S)
      → HasDistinctNames ps
      → find (is_named name) ps ≡ some p
      → Perm (p ∷ select (λ q. not (is_named name q)) ps) ps
  prefer_perm name [] p d h = cc
  prefer_perm name (q ∷ ps) p (unnamed, d) h = elim (Bool-cases (is_named name q)) [
    | inl e ↦
        let same : q.name ≡ name = (eq_iff q.name name).0 e in
        let kept : p ∷ select (λ r. not (is_named name r)) (q ∷ ps) ≡ q ∷ ps =
          ground (arith, select-Unnamed name ps (rw same at unnamed)) in
        rw kept (Perm.refl (q ∷ ps))
    | inr e ↦
        let later : find (is_named name) ps ≡ some p = ground arith in
        rw (e, select)
          (Perm.trans (Perm.swap q p (select (λ r. not (is_named name r)) ps))
            (Perm.cons q (prefer_perm name ps p d later)))
  ]

  ordered_perm :
      (name : String) (ps : List (Provider S)) (o : Option (Provider S))
      → HasDistinctNames ps
      → find (is_named name) ps ≡ o
      → Perm (prefer name ps o) ps
  ordered_perm name ps none d h = Perm.refl ps
  ordered_perm name ps (some p) d h = prefer_perm name ps p d h

  -- If the providers' names differ, a preference changes their order alone: the providers to try
  -- are a permutation of the providers.
  pub providers_to_try_perm :
      (preferred : Option String) (ps : List (Provider S))
      → HasDistinctNames ps
      → Perm (providers_to_try preferred ps) ps
  unfolding providers_to_try
  providers_to_try_perm none ps d = Perm.refl ps
  providers_to_try_perm (some name) ps d = elim (Bool-cases (str_eq name "")) [
    | inl e ↦ rw e (Perm.refl ps)
    | inr e ↦ rw e (ordered_perm name ps (find (is_named name) ps) d refl)
  ]
