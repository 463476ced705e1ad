-- ===== src/Manage/Commit/Roundtrip.antt =====
-- The flags of `netcage commit` in front of what follows them.
use netcage.Base.{
  Bool, true, false, none, List, [], ◌∷◌, ◌++◌, ◌≡◌, refl, sym, ap, ◌∙◌, Result, ok, append_assoc,
  append-nil, drop,
}
use netcage.Text.{Text, codes, eqb, member, has_prefix, cut}
use netcage.Manage.Argv.{ManageError, is_subject, split_inline}
use netcage.Manage.Exec.{value_args, each_args, switch_args}
use netcage.Manage.Exec.Roundtrip.{not-end_mark}
use netcage.Manage.Commit.{
  CommitFlags, no_commit_flags, commit_case, commit_token, set_value, commit_tokens,
  parse_commit_args, pause_args, commit_flag_args, commit_args, message, author, change, format,
  pause, quiet, before_value, positional,
}

-- The tokens that `CommitArgs` writes.
tokens :
    (commit_token (codes "-m") ≡ before_value message)
    × ((commit_token (codes "-a") ≡ before_value author)
        × ((commit_token (codes "-c") ≡ before_value change)
            × ((commit_token (codes "-f") ≡ before_value format)
                × ((commit_token (codes "-q") ≡ quiet)
                    × ((commit_token (codes "--pause") ≡ pause true)
                        × (commit_token (codes "--pause=false") ≡ pause false))))))
unfolding commit_token commit_case codes eqb member split_inline has_prefix cut
tokens = (refl, (refl, (refl, (refl, (refl, (refl, refl))))))

commit_token-positional : (name : Text) → is_subject name ≡ true → commit_token name ≡ positional
unfolding commit_token
commit_token-positional name h = rw (not-end_mark name h, commit_token, h) refl

-- What the loop makes of the tokens, of which none is a positional.
abbrev reads : CommitFlags → List Text → Result ManageError (CommitFlags × List Text)
reads fl = commit_tokens none fl []

tokens-message :
    (fl : CommitFlags) (v : Text) (rest : List Text)
    → fl.message ≡ []
    → reads fl (value_args (codes "-m") v ++ rest) ≡ reads (record fl { message = v }) rest
unfolding commit_tokens set_value
tokens-message fl [] rest h = ap (λ e. reads (record fl { message = e }) rest) h
tokens-message fl (c ∷ v) rest h = rw (commit_tokens, tokens.0) refl

tokens-author :
    (fl : CommitFlags) (v : Text) (rest : List Text)
    → fl.author ≡ []
    → reads fl (value_args (codes "-a") v ++ rest) ≡ reads (record fl { author = v }) rest
unfolding commit_tokens set_value
tokens-author fl [] rest h = ap (λ e. reads (record fl { author = e }) rest) h
tokens-author fl (c ∷ v) rest h = rw (commit_tokens, tokens.1.0) refl

tokens-change :
    (fl : CommitFlags) (vs rest : List Text)
    → reads fl (each_args (codes "-c") vs ++ rest)
      ≡ reads (record fl { change = fl.change ++ vs }) rest
unfolding commit_tokens each_args set_value
tokens-change fl [] rest =
    ap (λ e. reads (record fl { change = e }) rest) (sym (append-nil fl.change))
tokens-change fl (v ∷ vs) rest =
    rw (commit_tokens, tokens.1.1.0)
      (tokens-change (record fl { change = fl.change ++ (v ∷ []) }) vs rest
        ∙ ap (λ e. reads (record fl { change = e }) rest) (append_assoc fl.change (v ∷ []) vs))

tokens-format :
    (fl : CommitFlags) (v : Text) (rest : List Text)
    → fl.format ≡ []
    → reads fl (value_args (codes "-f") v ++ rest) ≡ reads (record fl { format = v }) rest
unfolding commit_tokens set_value
tokens-format fl [] rest h = ap (λ e. reads (record fl { format = e }) rest) h
tokens-format fl (c ∷ v) rest h = rw (commit_tokens, tokens.1.1.1.0) refl

tokens-pause :
    (fl : CommitFlags) (given b : Bool) (rest : List Text)
    → fl.pause_set ≡ false
    → fl.pause ≡ false
    → (given ≡ false → b ≡ false)
    → reads fl (pause_args given b ++ rest)
      ≡ reads (record fl { pause_set = given; pause = b }) rest
unfolding commit_tokens
tokens-pause fl false b rest h k off =
    ap (λ g. reads (record fl { pause_set = g }) rest) h
    ∙ ap (λ g. reads (record fl { pause_set = false; pause = g }) rest) (k ∙ sym (off refl))
tokens-pause fl true true rest h k off = rw (commit_tokens, tokens.1.1.1.1.1.0) refl
tokens-pause fl true false rest h k off = rw (commit_tokens, tokens.1.1.1.1.1.1) refl

tokens-quiet :
    (fl : CommitFlags) (b : Bool) (rest : List Text)
    → fl.quiet ≡ false
    → reads fl (switch_args (codes "-q") b ++ rest) ≡ reads (record fl { quiet = b }) rest
unfolding commit_tokens
tokens-quiet fl false rest h = ap (λ b. reads (record fl { quiet = b }) rest) h
tokens-quiet fl true rest h = rw (commit_tokens, tokens.1.1.1.1.0) refl

-- The flags of a commit are read back in front of anything.
commit_tokens-flag_args :
    (fl : CommitFlags) (rest : List Text)
    → (fl.pause_set ≡ false → fl.pause ≡ false)
    → reads no_commit_flags (commit_flag_args fl ++ rest) ≡ reads fl rest
unfolding commit_flag_args
commit_tokens-flag_args fl rest off =
    let q = switch_args (codes "-q") fl.quiet in
    let p = pause_args fl.pause_set fl.pause ++ q in
    let f = value_args (codes "-f") fl.format ++ p in
    let c = each_args (codes "-c") fl.change ++ f in
    let a = value_args (codes "-a") fl.author ++ c in
    rw
      (
        append_assoc (value_args (codes "-m") fl.message) a rest,
        append_assoc (value_args (codes "-a") fl.author) c rest,
        append_assoc (each_args (codes "-c") fl.change) f rest,
        append_assoc (value_args (codes "-f") fl.format) p rest,
        append_assoc (pause_args fl.pause_set fl.pause) q rest,
      )
      (tokens-message no_commit_flags fl.message _ refl
        ∙ (tokens-author (record no_commit_flags { message = fl.message }) fl.author _ refl
            ∙ (tokens-change (record no_commit_flags { message = fl.message; author = fl.author })
                  fl.change _
                ∙ (tokens-format
                      (record fl { format = []; pause_set = false; pause = false; quiet = false })
                      fl.format _ refl
                    ∙ (tokens-pause (record fl { pause_set = false; pause = false; quiet = false })
                          fl.pause_set fl.pause _ refl refl off
                        ∙ tokens-quiet (record fl { quiet = false }) fl.quiet rest refl)))))

commit_tokens-positional :
    (fl : CommitFlags) (ps : List Text) (name : Text) (args : List Text)
    → is_subject name ≡ true
    → commit_tokens none fl ps (name ∷ args) ≡ commit_tokens none fl (ps ++ (name ∷ [])) args
unfolding commit_tokens
commit_tokens-positional fl ps name args h = rw (commit_tokens, commit_token-positional name h) refl

-- What `CommitArgs` builds for podman behind its verb, `ParseCommitArgs` takes apart again: the flags,
-- the container and the image, if neither of these looks like a flag and a pause that was not given
-- is off.
pub parse_commit_args-commit_args :
    (fl : CommitFlags) (name image_ref : Text)
    → (fl.pause_set ≡ false → fl.pause ≡ false)
    → is_subject name ≡ true
    → is_subject image_ref ≡ true
    → parse_commit_args (drop 1 (commit_args fl name image_ref))
      ≡ ok (record { flags = fl; name = name; image_ref = image_ref })
unfolding parse_commit_args commit_args commit_tokens
parse_commit_args-commit_args fl name image_ref off h k =
    rw
      (
        commit_tokens-flag_args fl (name ∷ image_ref ∷ []) off,
        commit_tokens-positional fl [] name (image_ref ∷ []) h,
        commit_tokens-positional fl (name ∷ []) image_ref [] k,
      )
      refl
