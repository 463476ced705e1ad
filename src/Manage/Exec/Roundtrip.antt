-- ===== src/Manage/Exec/Roundtrip.antt =====
-- The flags of `netcage exec` in front of what follows them.
use netcage.Base.{
  inr, inl, Bool-cases, drop, append-nil, Bool, true, false, none, List, [], ◌∷◌, ◌++◌, ◌≡◌, refl,
  sym, ap, ◌∙◌, ok, append_assoc,
}
use netcage.Text.{Text, codes, eqb, member, has_prefix, cut}
use netcage.Text.Laws.{eqb_iff}
use netcage.Manage.Argv.{is_subject, split_inline}
use netcage.Manage.Exec.{
  ExecFlags, ExecCommand, no_exec_flags, exec_case, exec_token, turn_on, set_value, exec_tokens,
  parse_exec_args, value_args, each_args, switch_args, exec_flag_args, exec_args, workdir, user,
  env, before_value, switch, interactive, tty, subject,
}

token-w : exec_token (codes "-w") ≡ before_value workdir
unfolding exec_token exec_case codes eqb member split_inline has_prefix cut
token-w = refl

token-u : exec_token (codes "-u") ≡ before_value user
unfolding exec_token exec_case codes eqb member split_inline has_prefix cut
token-u = refl

token-e : exec_token (codes "-e") ≡ before_value env
unfolding exec_token exec_case codes eqb member split_inline has_prefix cut
token-e = refl

token-i : exec_token (codes "-i") ≡ switch interactive
unfolding exec_token exec_case codes eqb member split_inline has_prefix cut
token-i = refl

token-t : exec_token (codes "-t") ≡ switch tty
unfolding exec_token exec_case codes eqb member split_inline has_prefix cut
token-t = refl

marks_end : {name : Text} → name ≡ codes "--" → is_subject name ≡ true → ⊥
unfolding eqb codes has_prefix
marks_end e h = cc (e, h)

-- A name is never the mark of the end of the flags.
pub not-end_mark : (name : Text) → is_subject name ≡ true → eqb name (codes "--") ≡ false
not-end_mark name h = elim (Bool-cases (eqb name (codes "--"))) [
  | inl e ↦ absurd (marks_end ((eqb_iff name (codes "--")).0 e) h)
  | inr e ↦ e
]

exec_token-subject : (name : Text) → is_subject name ≡ true → exec_token name ≡ subject
unfolding exec_token
exec_token-subject name h = rw (not-end_mark name h, exec_token, h) refl

tokens-each_env :
    (fl : ExecFlags) (vs rest : List Text)
    → exec_tokens none fl (each_args (codes "-e") vs ++ rest)
      ≡ exec_tokens none (record fl { env = fl.env ++ vs }) rest
unfolding exec_tokens each_args set_value
tokens-each_env fl [] rest =
    ap (λ e. exec_tokens none (record fl { env = e }) rest) (sym (append-nil fl.env))
tokens-each_env fl (v ∷ vs) rest =
    rw (exec_tokens, token-e)
      (tokens-each_env (record fl { env = fl.env ++ (v ∷ []) }) vs rest
        ∙ ap (λ e. exec_tokens none (record fl { env = e }) rest) (append_assoc fl.env (v ∷ []) vs))

tokens-user :
    (fl : ExecFlags) (v : Text) (rest : List Text)
    → fl.user ≡ []
    → exec_tokens none fl (value_args (codes "-u") v ++ rest)
      ≡ exec_tokens none (record fl { user = v }) rest
unfolding exec_tokens set_value
tokens-user fl [] rest h = ap (λ e. exec_tokens none (record fl { user = e }) rest) h
tokens-user fl (c ∷ v) rest h = rw (exec_tokens, token-u) refl

tokens-workdir :
    (fl : ExecFlags) (v : Text) (rest : List Text)
    → fl.workdir ≡ []
    → exec_tokens none fl (value_args (codes "-w") v ++ rest)
      ≡ exec_tokens none (record fl { workdir = v }) rest
unfolding exec_tokens set_value
tokens-workdir fl [] rest h = ap (λ e. exec_tokens none (record fl { workdir = e }) rest) h
tokens-workdir fl (c ∷ v) rest h = rw (exec_tokens, token-w) refl

tokens-tty :
    (fl : ExecFlags) (b : Bool) (rest : List Text)
    → fl.tty ≡ false
    → exec_tokens none fl (switch_args (codes "-t") b ++ rest)
      ≡ exec_tokens none (record fl { tty = b }) rest
unfolding exec_tokens turn_on
tokens-tty fl false rest h = ap (λ b. exec_tokens none (record fl { tty = b }) rest) h
tokens-tty fl true rest h = rw (exec_tokens, token-t) refl

tokens-interactive :
    (fl : ExecFlags) (b : Bool) (rest : List Text)
    → fl.interactive ≡ false
    → exec_tokens none fl (switch_args (codes "-i") b ++ rest)
      ≡ exec_tokens none (record fl { interactive = b }) rest
unfolding exec_tokens turn_on
tokens-interactive fl false rest h =
    ap (λ b. exec_tokens none (record fl { interactive = b }) rest) h
tokens-interactive fl true rest h = rw (exec_tokens, token-i) refl

-- The flags of a command are read back in front of anything.
exec_tokens-flag_args :
    (fl : ExecFlags) (rest : List Text)
    → exec_tokens none no_exec_flags (exec_flag_args fl ++ rest) ≡ exec_tokens none fl rest
unfolding exec_flag_args
exec_tokens-flag_args fl rest =
    let user_env = value_args (codes "-u") fl.user ++ each_args (codes "-e") fl.env in
    let from_workdir = value_args (codes "-w") fl.workdir ++ user_env in
    rw
      (
        append_assoc (switch_args (codes "-i") fl.interactive)
            (switch_args (codes "-t") fl.tty ++ from_workdir) rest,
        append_assoc (switch_args (codes "-t") fl.tty) from_workdir rest,
        append_assoc (value_args (codes "-w") fl.workdir) user_env rest,
        append_assoc (value_args (codes "-u") fl.user) (each_args (codes "-e") fl.env) rest,
      )
      (tokens-interactive no_exec_flags fl.interactive _ refl
        ∙ (tokens-tty (record no_exec_flags { interactive = fl.interactive }) fl.tty _ refl
            ∙ (tokens-workdir (record no_exec_flags { interactive = fl.interactive; tty = fl.tty })
                  fl.workdir _ refl
                ∙ (tokens-user (record fl { user = []; env = [] }) fl.user _ refl
                    ∙ tokens-each_env (record fl { env = [] }) fl.env rest))))

abbrev pub exec_command : ExecFlags → Text → List Text → ExecCommand
exec_command fl name command = record { flags = fl; name = name; command = command }

-- What `ExecArgs` builds for podman behind its verb, `ParseExecArgs` takes apart again: the flags, the
-- name and the command, if the name does not look like a flag and the command has at least one word.
pub parse_exec_args-exec_args :
    (fl : ExecFlags) (name word : Text) (words : List Text)
    → is_subject name ≡ true
    → parse_exec_args (drop 1 (exec_args (exec_command fl name (word ∷ words))))
      ≡ ok (exec_command fl name (word ∷ words))
unfolding parse_exec_args exec_args exec_tokens
parse_exec_args-exec_args fl name word words h =
    rw (exec_tokens-flag_args fl (name ∷ word ∷ words), exec_tokens, exec_token-subject name h) refl
