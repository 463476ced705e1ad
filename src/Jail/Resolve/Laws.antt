-- ===== src/Jail/Resolve/Laws.antt =====
-- The labels of a container, and the branch for a missing run id.
use netcage.Base.{
  ℕ, true, false, Option, none, some, [], ◌∷◌, ◌++◌, ◌≡◌, ◌≢◌, refl, sym, ap, ◌∙◌, err, inl, inr,
  Option-cases, arith, append_assoc,
}
use netcage.Text.{
  keep_unless_blank, Text, is_empty, cut, is_space, trim_left, trim_right, trim_space,
}
use netcage.Text.Laws.{cut-eq}
use netcage.Jail.Effects.{no_run_id}
use netcage.Jail.Resolve.{Managed, read_labels, run_of, tool_of}

last : Text → Option ℕ
last [] = none
last (c ∷ []) = some c
last (c ∷ d ∷ s) = last (d ∷ s)

last-snoc : (s : Text) (c : ℕ) → last (s ++ (c ∷ [])) ≡ some c
unfolding last
last-snoc [] c = refl
last-snoc (d ∷ []) c = refl
last-snoc (d ∷ e ∷ s) c = last-snoc (e ∷ s) c

kept :
    {c : ℕ} (d : ℕ) (s : Text)
    → last (keep_unless_blank d s) ≡ some c
    → (last s ≡ some c → is_space c ≡ false)
    → is_space c ≡ false
unfolding last
kept d [] h k = ground arith
kept d (e ∷ s) h k = k h

-- What is left of a text ends in no white space.
trim_right-last : (s : Text) {c : ℕ} → last (trim_right s) ≡ some c → is_space c ≡ false
unfolding trim_right last
trim_right-last [] h = cc
trim_right-last (d ∷ s) {c} h = kept d (trim_right s) h (λ k. trim_right-last s {c = c} k)

trim_space_no_tab : (s t : Text) → trim_space s ≡ t ++ (b'\t' ∷ []) → ⊥
unfolding trim_space is_space
trim_space_no_tab s t h =
    let e : is_space b'\t' ≡ false =
      trim_right-last (trim_left s) (ap last h ∙ last-snoc t b'\t') in
    cc

is_empty-eq : (t : Text) → is_empty t ≡ true → t ≡ []
is_empty-eq [] h = refl
is_empty-eq (c ∷ t) h = cc

read_labels-run_id : (out : Text) {m : Managed} → read_labels out ≡ some m → m.run_id ≢ []
unfolding read_labels
read_labels-run_id out {m} h k = elim (Option-cases (cut b'\t' (trim_space out))) [
  | inl e ↦ absurd (ground arith)
  | inr ((mark, rest), e) ↦ elim (Option-cases (cut b'\t' rest)) [
    | inl e2 ↦ absurd (ground arith)
    | inr ((role, run_id), e2) ↦
        let none_left : run_id ≡ [] = ground arith in
        absurd (
          trim_space_no_tab out (mark ++ (b'\t' ∷ role)) (
            (cut-eq b'\t' (trim_space out) mark rest e).0
            ∙ ap (λ r. mark ++ (b'\t' ∷ r))
                ((cut-eq b'\t' rest role run_id e2).0 ∙ ap (λ r. role ++ (b'\t' ∷ r)) none_left)
            ∙ sym (append_assoc mark (b'\t' ∷ role) (b'\t' ∷ []))))
  ]
]

-- The refusal for a run id that is missing is never given: without it the trimmed output has no third
-- part, and the container counts as none of netcage's.
pub resolve-reaches_no_missing_id :
    (out : Text)
    → (run_of (read_labels out) ≢ err no_run_id) × (tool_of (read_labels out) ≢ err no_run_id)
resolve-reaches_no_missing_id out = elim (Option-cases (read_labels out)) [
  | inl e ↦ (λ h. absurd (ground arith), λ h. absurd (ground arith))
  | inr (m, e) ↦
      let ne = read_labels-run_id out e in
      (
        λ h. absurd (ground (arith, is_empty-eq m.run_id, ne)),
        λ h. absurd (ground (arith, is_empty-eq m.run_id, ne)),
      )
]
