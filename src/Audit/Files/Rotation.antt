-- ===== src/Audit/Files/Rotation.antt =====
-- Rotation moves every file up by one and drops the oldest.
use jig_mcp.Prelude.{
  ℕ, zero, suc, ◌-◌, ◌≤◌, ◌<◌, none, eqb, eqb_iff, Bool-cases, if◌then◌else◌, ◌≡◌, refl, ◌∙◌, arith,
  Option-cases, inl, inr,
}
use jig_mcp.Audit.Files.{Files, remove, moved, rename, shift, rotate_names}

moved_nothing :
    (src dst : ℕ) (fs : Files) (m : ℕ)
    → fs src ≡ none
    → fs dst ≡ none
    → fs m ≡ (if eqb m dst then none else if eqb m src then none else fs m)
moved_nothing src dst fs m missing free = ground (arith, eqb_iff m src, eqb_iff m dst)

-- A rename within the directory whose destination is free moves the file, if there is one.
rename-free :
    (src dst : ℕ) (fs : Files) (m : ℕ)
    → fs dst ≡ none
    → rename src dst fs m ≡ (if eqb m dst then fs src else if eqb m src then none else fs m)
unfolding rename
rename-free src dst fs m free = elim (Option-cases (fs src)) [
  | inl missing ↦ rw (missing, moved) (moved_nothing src dst fs m missing free)
  | inr (content, found) ↦ rw found refl
]

shift_nothing : (i : ℕ) (fs : Files) → i ≡ 0 → fs 1 ≡ none → shift i fs 1 ≡ none
unfolding shift
shift_nothing zero fs e h = h
shift_nothing (suc i) fs e h = absurd (omega arith)

-- With file n + 1 free, the loop moves the files 1 to n up by one.
shift_lem :
    (n : ℕ) (fs : Files)
    → fs (suc n) ≡ none
    → ((m : ℕ) → 0 < m → m ≤ n → shift n fs (suc m) ≡ fs m)
      × (0 < n → shift n fs 1 ≡ none)
      × (shift n fs 0 ≡ fs 0)
      × ((m : ℕ) → suc n < m → shift n fs m ≡ fs m)
unfolding shift
shift_lem zero fs free =
    (λ m pos le. absurd (omega arith), λ pos. absurd (omega arith), refl, λ m above. refl)
shift_lem (suc i) fs free =
    let fs' : Files = rename (suc i) (suc (suc i)) fs in
    let at : (m : ℕ)
        → fs' m
          ≡ (if eqb m (suc (suc i)) then fs (suc i) else if eqb m (suc i) then none else fs m) =
      λ m. rename-free (suc i) (suc (suc i)) fs m free in
    let vacant : fs' (suc i) ≡ none = at (suc i) ∙ ground arith in
    let (up, first, current, above) = shift_lem i fs' vacant in
    (
      (λ m pos le. elim (Bool-cases (eqb m (suc i))) [
        | inl same ↦
            let e : m ≡ suc i = (eqb_iff m (suc i)).0 same in
            rw e (above (suc (suc i)) (omega arith) ∙ at (suc (suc i)) ∙ ground arith)
        | inr other ↦ up m pos (ground arith) ∙ at m ∙ ground arith
      ]),
      (λ pos. elim (Bool-cases (eqb i 0)) [
        | inl same ↦
            let e : i ≡ 0 = (eqb_iff i 0).0 same in shift_nothing i fs' e (at 1 ∙ ground arith)
        | inr other ↦ first (ground arith)
      ]),
      current ∙ at 0 ∙ ground arith,
      (λ m h. above m (omega arith) ∙ at m ∙ ground arith),
    )

first_free :
    (n : ℕ) (fs : Files) → (0 < n → shift n fs 1 ≡ none) → fs (suc n) ≡ none → shift n fs 1 ≡ none
unfolding shift
first_free zero fs h freed = freed
first_free (suc n) fs h freed = h (omega arith)

-- What holds of the files `after` a rotation that keeps up to `max` rotated files.
pub record IsRotated (max : ℕ) (fs after : Files) : Type 0 where
  pub moves : (m : ℕ) → m < max → after (suc m) ≡ fs m
  pub vacates : after 0 ≡ none
  pub keeps : (m : ℕ) → max < m → after m ≡ fs m

shifted_names :
    (n : ℕ) (fs : Files) → IsRotated (suc n) fs (rename 0 1 (shift n (remove (suc n) fs)))
unfolding remove
shifted_names n fs =
    let fs' : Files = remove (suc n) fs in
    let freed : fs' (suc n) ≡ none = ground arith in
    let (up, first, current, above) = shift_lem n fs' freed in
    let free : shift n fs' 1 ≡ none = first_free n fs' first freed in
    let at : (m : ℕ)
        → rename 0 1 (shift n fs') m
          ≡ (if eqb m 1 then shift n fs' 0 else if eqb m 0 then none else shift n fs' m) =
      λ m. rename-free 0 1 (shift n fs') m free in
    record {
      moves = λ m h. elim (Bool-cases (eqb m 0)) [
        | inl same ↦ let e : m ≡ 0 = (eqb_iff m 0).0 same in rw e (at 1 ∙ current ∙ ground arith)
        | inr other ↦ at (suc m) ∙ ground arith ∙ up m (ground arith) (omega arith) ∙ ground arith
      ];
      vacates = at 0;
      keeps = λ m h. at m ∙ ground arith ∙ above m h ∙ ground arith;
    }

-- With room for at least one rotated file, a rotation moves audit.jsonl to audit.jsonl.1 and every
-- audit.jsonl.m below the last to audit.jsonl.(m + 1), which drops the last; it leaves no audit.jsonl, and
-- no other file is touched.
pub rotate_names-IsRotated :
    (max : ℕ) (fs : Files) → 0 < max → IsRotated max fs (rotate_names max fs)
unfolding rotate_names
rotate_names-IsRotated zero fs h = absurd (omega arith)
rotate_names-IsRotated (suc n) fs h =
    let e : suc n - 1 ≡ n = omega arith in rw e (shifted_names n fs)
