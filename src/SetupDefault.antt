-- ===== src/SetupDefault.antt =====
-- internal/setupdefault/setupdefault.go: `Run`, the onboarding that persists a default proxy.
pub mod Prompts
pub mod Entry
pub mod Warned
pub mod Ends
pub mod Saved
use netcage.Base.{
  ℕ, zero, suc, Bool, true, false, not, Option, none, some, List, [], ◌∷◌, ◌++◌, length,
  if◌then◌else◌, Result, ok, err,
}
use netcage.Text.{Text, codes, is_empty, trim_space}
use netcage.Cli.Command.{ParseError, ProxyConfig}
use netcage.Cli.Proxy.{parse_proxy}
use netcage.Cli.System.{FileConfig, System}
use netcage.Cli.Config.{ConfigView}
use netcage.Cli.Config.Write.{Disk, Written, WriteError, credentialed_proxy, write_config}
use netcage.DetectProxy.{Candidate, human}
use netcage.Jail.Effects.{History}
use netcage.SetupDefault.Prompts.{
  EntryError, Action, printed, invalid, refused, probed, persist, Session, SetupError,
  persist_failed, out_of_fuel, Dialog, and_then, act, ask, confirm,
}
use netcage.SetupDefault.Entry.{
  normalize_proxy_input, candidate_proxy_url, confirmed_ports, sorted_ints, warning_text,
  prefill_proxy, existing_allow_direct,
}

-- `Options`, less the seams that `Prompts` models. The report of the detector has no exit address, and
-- what the disk answers may depend on what was done before.
pub record Options : Type 0 where
  pub os : System
  pub encode : FileConfig → Text
  pub disk : List Action → Disk
  pub exit_ip : ProxyConfig → History → History × Option Text
  pub candidates : List Candidate
  pub config_path : Text
  pub existing : ConfigView

-- How an onboarding without an error ends.
pub data Outcome : Type 0 where
  aborted : Outcome
  unchanged : Outcome
  saved : Text → Written → Outcome

abbrev pub say_detected : List ℕ → Session → Session
say_detected [] s = s
say_detected (p ∷ ps) s = say_detected ps (
    act (printed (codes "  detected: " ++ (candidate_proxy_url p ++ codes " (confirmed SOCKS5)\n")))
      s)

-- Whether the writer refused the proxy for its credentials.
abbrev pub is_credentialed : WriteError → Bool
is_credentialed credentialed_proxy = true
is_credentialed _ = false

module _ (o : Options) where
  -- The hint of `chooseProxy`.
  unfoldable pub entry_hint : List ℕ → Text
  entry_hint ports =
      (elim ports [
        | [] ↦ codes "enter a proxy host:port (or a full socks5h://host:port)"
        | p ∷ ps ↦ codes "enter a proxy host:port, or accept a detected one above"
      ])
      ++ (if is_empty (prefill_proxy o.existing)
          then []
          else codes " [current: " ++ (prefill_proxy o.existing ++ codes "]"))

  abbrev sole_port : List ℕ → Option Text
  sole_port (p ∷ []) = some (candidate_proxy_url p)
  sole_port _ = none

  -- What an answer stands for: itself, or where it is empty the current proxy, or else the sole proxy
  -- that was detected; `none` is an abort.
  unfoldable pub entry_of : List ℕ → Text → Option Text
  entry_of ports raw =
      if not (is_empty raw)
      then some raw
      else if not (is_empty (prefill_proxy o.existing))
      then some (prefill_proxy o.existing)
      else sole_port ports

  -- The loop of `chooseProxy`.
  unfoldable pub ask_proxy : ℕ → List ℕ → Dialog (Option Text)
  ask_proxy zero ports s = (s, err out_of_fuel)
  ask_proxy (suc fuel) ports s = and_then (ask (entry_hint ports) s) λ raw s'.
      elim (entry_of ports (trim_space raw)) [
        | none ↦ (s', ok none)
        | some entry ↦ elim (normalize_proxy_input o.os.parse_url entry) [
          | ok url ↦ (s', ok (some url))
          | err e ↦ ask_proxy fuel ports (act (invalid e) s')
        ]
      ]

  -- `chooseProxy`.
  unfoldable pub choose_proxy : List ℕ → Dialog (Option Text)
  choose_proxy confirmed s =
      ask_proxy (suc (length s.input)) (sorted_ints confirmed)
        (say_detected (sorted_ints confirmed) s)

  -- What the console says of the exit address, and whether the onboarding goes on with the proxy.
  unfoldable pub weigh : Option Text → Dialog Bool
  weigh evidence s =
      let unverified : Session × Result SetupError Bool =
        confirm (codes "persist this proxy anyway?") false (
          act
            (printed (
              codes "could not verify the exit IP (no podman / offline / proxy unreachable);"
              ++ codes " no evidence gathered.\n"))
            s) in
      elim evidence [
        | none ↦ unverified
        | some ip ↦ if is_empty ip then unverified else (
          act
              (printed (
                codes "verified: exit IP "
                ++ (ip ++ codes " (evidence the egress is not your host IP)\n")))
              s,
          ok true,
        )
      ]

  -- The step that verifies.
  unfoldable pub gather : Text → Dialog Bool
  gather url s = elim (parse_proxy o.os.parse_url url) [
    | err e ↦ (s, ok true)
    | ok proxy ↦
        let (h, evidence) = o.exit_ip proxy s.history in
        weigh evidence (act (probed proxy) (record s { history = h }))
  ]

  -- The question before the write.
  unfoldable pub write_prompt : Text
  write_prompt =
      if o.existing.present
      then codes "overwrite the existing config at "
        ++ (o.config_path ++ codes " with this default proxy?")
      else codes "write this default proxy to " ++ (o.config_path ++ codes "?")

  -- The warning, then the question.
  unfoldable pub warn_and_confirm : Text → Dialog Bool
  warn_and_confirm url s =
      confirm write_prompt false (act (printed (warning_text url ++ codes "\n")) s)

  -- The call of the writer; `none` is the refusal behind which the user may enter another proxy.
  unfoldable pub store : Text → Dialog (Option Outcome)
  store url s =
      let allow = existing_allow_direct o.existing in
      let s' = act (persist url allow) s in
      elim (write_config o.os o.encode (o.disk s.log) url allow) [
        | ok written ↦ (
          act
              (printed (
                codes "saved: "
                ++ (url
                    ++ (codes " is now netcage's default proxy ("
                        ++ (o.config_path ++ codes ", 0600).\n")))))
              s',
          ok (some (saved url written)),
        )
        | err e ↦
            if is_credentialed e
            then (act (refused e) s', ok none)
            else (s', err (persist_failed e))
      ]

  -- The write, or the end where it was declined.
  unfoldable pub store_if : Text → Bool → Dialog (Option Outcome)
  store_if url true s = store url s
  store_if url false s = (
    act (printed (codes "setup-default: left the existing config unchanged.\n")) s,
    ok (some unchanged),
  )

  -- The steps behind the verification, where it lets the proxy pass.
  unfoldable pub write_if : Text → Bool → Dialog (Option Outcome)
  write_if url true s = and_then (warn_and_confirm url s) (store_if url)
  write_if url false s = (s, ok none)

  -- The steps behind the choice.
  unfoldable pub settle_choice : Option Text → Dialog (Option Outcome)
  settle_choice none s =
      (act (printed (codes "setup-default: aborted, nothing was written.\n")) s, ok (some aborted))
  settle_choice (some url) s = and_then (gather url s) (write_if url)

  -- One round of the loop of `Run`; `none` is a `continue`.
  unfoldable pub round : List ℕ → Dialog (Option Outcome)
  round ports s = and_then (choose_proxy ports s) settle_choice

  -- The loop of `Run`.
  unfoldable pub rounds : ℕ → List ℕ → Dialog Outcome
  rounds zero ports s = (s, err out_of_fuel)
  rounds (suc fuel) ports s =
      and_then (round ports s)
        λ ended s'. elim ended [ none ↦ rounds fuel ports s' | some outcome ↦ (s', ok outcome) ]

  -- `Run`.
  unfoldable pub set_up : Dialog Outcome
  set_up s =
      rounds (suc (length s.input)) (confirmed_ports o.candidates)
        (act (printed (human o.candidates [])) s)
