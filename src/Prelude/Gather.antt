-- ===== src/Prelude/Gather.antt =====
-- What the elements of a list hold together, and how it grows with one of them.
use mathlib.Core.Path.{◌≡◌, refl, sym, ap, ◌∙◌, subst}
use mathlib.Core.List.{List, [], ◌∷◌, ◌++◌, append_assoc, append-nil, Perm, perm_append_comm}
use mathlib.Core.List.Perm

module _ {ℓ κ} {A : Type ℓ} {B : Type κ} (held : A → List B) where
  unfoldable pub gather : List A → List B
  gather [] = []
  gather (a ∷ xs) = held a ++ gather xs

  pub gather-append : (xs bs : List A) → gather (xs ++ bs) ≡ gather xs ++ gather bs
  unfolding gather
  gather-append [] bs = refl
  gather-append (a ∷ xs) bs =
      ap (λ (ys : List B). held a ++ ys) (gather-append xs bs)
      ∙ sym (append_assoc (held a) (gather xs) (gather bs))

  -- One that holds nothing.
  pub gather-snoc : (xs : List A) (a : A) → held a ≡ [] → gather (xs ++ (a ∷ [])) ≡ gather xs
  unfolding gather
  gather-snoc xs a e =
      gather-append xs (a ∷ [])
      ∙ ap (λ (ys : List B). gather xs ++ ys) (rw e refl)
      ∙ append-nil (gather xs)

  -- One of them gets more.
  pub gather-grows :
      (before after : List A) (a b : A) (more : List B)
      → held b ≡ held a ++ more
      → Perm (gather (before ++ (a ∷ after)) ++ more) (gather (before ++ (b ∷ after)))
  unfolding gather
  gather-grows [] after a b more e =
      subst (λ ys. Perm ys (held b ++ gather after))
        (sym (append_assoc (held a) (gather after) more))
        (subst (λ ys. Perm (held a ++ (gather after ++ more)) (ys ++ gather after)) (sym e)
          (subst (Perm (held a ++ (gather after ++ more)))
            (sym (append_assoc (held a) more (gather after)))
            (Perm.append_left (held a) (perm_append_comm (gather after) more))))
  gather-grows (c ∷ before) after a b more e =
      subst (λ ys. Perm ys (held c ++ gather (before ++ (b ∷ after))))
        (sym (append_assoc (held c) (gather (before ++ (a ∷ after))) more))
        (Perm.append_left (held c) (gather-grows before after a b more e))
