-- ===== src/Manage/Argv/Store.antt =====
-- internal/manage/manage.go: what the verbs that write images forward to podman.
use netcage.Base.{
  ◌⊎◌, false, List, [], ◌∷◌, ◌≡◌, ◌↔◌, refl, All, ok, err, inl, inr, Bool-cases, arith,
}
use netcage.Text.{Text}
use netcage.Manage.Argv.{root_refused, is_root_flag, refuse_user_root}

-- The arguments are accepted just when none of them, wherever it stands, is a `--root` with or without
-- a value written to it; otherwise the refusal names the verb.
pub refuse_user_root_iff :
    (verb : Text) (args : List Text)
    → ((refuse_user_root verb args ≡ ok tt) ↔ All (λ a. is_root_flag a ≡ false) args)
      × ((refuse_user_root verb args ≡ ok tt)
          ⊎ (refuse_user_root verb args ≡ err (root_refused verb)))
unfolding refuse_user_root
refuse_user_root_iff verb [] = ((λ _. tt, λ _. refl), inl refl)
refuse_user_root_iff verb (a ∷ args) =
    let ih = refuse_user_root_iff verb args in
    elim (Bool-cases (is_root_flag a)) [
      | inl e ↦ (
        (λ h. absurd (ground arith), λ h. absurd (ground arith)),
        inr (rw (e, refuse_user_root) refl),
      )
      | inr e ↦ rw (e, refuse_user_root) ((λ h. (refl, (ih.0).0 h), λ h. (ih.0).1 h.1), ih.1)
    ]
