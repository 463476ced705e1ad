-- ===== src/Jail/Start/Launched.antt =====
-- internal/jail/start.go: the one command that a start runs attached is that of its run's tool.
use netcage.Base.{
  Bool, false, not, ◌&&◌, List, [], ◌∷◌, ◌≡◌, refl, ap, ◌∙◌, Bool-cases, Option-cases, inl, inr,
  arith,
}
use netcage.Text.{Text, codes, eqb}
use netcage.Jail.Resolve.{tool_name_for}
use netcage.Text.Laws.{eqb_refl}
use netcage.Jail.Config.{JailConfig, sidecar_name}
use netcage.Jail.Effects.{
  Event, find_helper, launch, write_file, World, Status, done, exited, broken, History, RunError,
  fixture_failed, Io, ◌>>-◌, after, attempt, perform, settle, return, fail,
}
use netcage.Jail.Effects.Laws.{occurs, after-quiet}
use netcage.Jail.Fixtures.{
  write_fixture, write_resolv_conf, write_hosts, write_passwd, write_group, write_machine_id,
  preserve_machine_id, write_machine_id_preserving, remove_fixtures,
}
use netcage.Jail.Run.{verify_family, verify_firewall, check_reachback, teardown}
use netcage.Jail.Run.Verified.{verify_family-history}
use netcage.Jail.Start.{
  tool_start_args, inspect_env, read_baked_sidecar_config, launch_start, start_checked, start_body,
  start_run,
}

unfoldable pub ends_in : Text → List Text → Bool
ends_in name [] = false
ends_in name (s ∷ []) = eqb s name
ends_in name (s ∷ t ∷ ts) = ends_in name (t ∷ ts)

-- The arguments of podman start the container of this name.
unfoldable pub is_start_of : Text → List Text → Bool
unfolding ends_in
is_start_of name [] = false
is_start_of name (verb ∷ words) = eqb verb (codes "start") && ends_in name words

-- A launch that does not start the container of this name.
abbrev pub is_launch_but : Text → Event → Bool
is_launch_but name (launch args) = not (is_start_of name args)
is_launch_but name _ = false

-- Something but the container of this name was launched.
abbrev pub launches_but : Text → History → Bool
launches_but name = occurs (is_launch_but name)

module _ (w : World) (tool : Text) where
  abbrev Quiet : {A : Type 0} → Io RunError A → Type 0
  Quiet m = (h : History) → launches_but tool (m h).0 ≡ launches_but tool h

  then-Quiet :
      {A B : Type 0} (m : Io RunError A) (f : A → Io RunError B)
      → Quiet m
      → ((a : A) → Quiet (f a))
      → Quiet (m >>- f)
  unfolding ◌>>-◌
  then-Quiet m f q r h = after-quiet (is_launch_but tool) (m h) f r ∙ q h

  attempt-Quiet : (e : Event) (x : RunError) → is_launch_but tool e ≡ false → Quiet (attempt w e x)
  unfolding attempt occurs
  attempt-Quiet e x other h = rw (other) refl

  write_fixture-Quiet : (name content : Text) → Quiet (write_fixture w name content)
  unfolding write_fixture return
  write_fixture-Quiet name content =
      then-Quiet (attempt w (write_file (w.temp_path name) content) (fixture_failed name)) _
        (attempt-Quiet (write_file (w.temp_path name) content) (fixture_failed name) refl)
        (λ _ _. refl)

  write_machine_id-Quiet : (run_id : Text) → Quiet (write_machine_id w run_id)
  unfolding write_machine_id fail
  write_machine_id-Quiet run_id h = elim (Option-cases (w.random_bytes h)) [
    | inl e ↦ rw (write_machine_id, e) refl
    | inr (bytes, e) ↦ rw (write_machine_id, e) (write_fixture-Quiet _ _ h)
  ]

  preserve_machine_id-Quiet :
      (run_id : Text) (status : Status) → Quiet (preserve_machine_id w run_id status)
  unfolding preserve_machine_id return fail
  preserve_machine_id-Quiet run_id done h = refl
  preserve_machine_id-Quiet run_id (exited n) h = write_machine_id-Quiet run_id h
  preserve_machine_id-Quiet run_id broken h = refl

  preserving-Quiet : (run_id : Text) → Quiet (write_machine_id_preserving w run_id)
  unfolding write_machine_id_preserving perform occurs ◌>>-◌ after
  preserving-Quiet run_id h = preserve_machine_id-Quiet run_id _ _

  check_reachback-Quiet : (c : JailConfig) → Quiet (check_reachback w c)
  unfolding check_reachback return
  check_reachback-Quiet c h = elim (Bool-cases c.proxy_on_host_loopback) [
    | inl e ↦ rw (e) (attempt-Quiet _ _ refl h)
    | inr e ↦ rw (e) refl
  ]

  verify_family-Quiet :
      (c : JailConfig) (table : Text) (want : List Text) → Quiet (verify_family w c table want)
  unfolding occurs
  verify_family-Quiet c table want h =
      ap (launches_but tool) (verify_family-history w c table want h)

  verify_firewall-Quiet : (c : JailConfig) → Quiet (verify_firewall w c)
  unfolding verify_firewall
  verify_firewall-Quiet c =
      then-Quiet _ _ (verify_family-Quiet c _ _) (λ _. verify_family-Quiet c _ _)

  teardown-quiet :
      (c : JailConfig) (h : History) → launches_but tool (teardown w c h) ≡ launches_but tool h
  unfolding teardown occurs remove_fixtures
  teardown-quiet c h = ground arith

  read_baked-Quiet : (name : Text) → Quiet (read_baked_sidecar_config w name)
  unfolding read_baked_sidecar_config settle
  read_baked-Quiet name = then-Quiet _ _ (attempt-Quiet (inspect_env name) _ refl) (λ _ _. refl)

-- A start, of whatever the outside answers, launches nothing but its run's tool.
module _ (w : World) (c : JailConfig) where
  abbrev own_tool : Text
  own_tool = tool_name_for c.run_id

  launch_start-Quiet : Quiet w own_tool (launch_start w c)
  unfolding launch_start occurs tool_start_args is_start_of ends_in eqb codes
  launch_start-Quiet h = elim (Bool-cases c.interactive) [
    | inl e ↦ rw (e, eqb_refl own_tool) refl
    | inr e ↦ rw (e, eqb_refl own_tool) refl
  ]

  start_checked-Quiet : Quiet w own_tool (start_checked w c)
  unfolding start_checked write_resolv_conf write_hosts write_passwd write_group
  start_checked-Quiet =
      then-Quiet w own_tool _ _
        (then-Quiet w own_tool _ _
          (then-Quiet w own_tool _ _
            (then-Quiet w own_tool _ _
              (then-Quiet w own_tool _ _
                (then-Quiet w own_tool _ _
                  (then-Quiet w own_tool _ _ (attempt-Quiet w own_tool _ _ refl)
                    (λ _. write_fixture-Quiet w own_tool _ _))
                  (λ _. write_fixture-Quiet w own_tool _ _))
                (λ _. write_fixture-Quiet w own_tool _ _))
              (λ _. write_fixture-Quiet w own_tool _ _))
            (λ _. preserving-Quiet w own_tool c.run_id))
          (λ _. check_reachback-Quiet w own_tool c))
        (λ _. launch_start-Quiet)

  start_body-Quiet : Quiet w own_tool (start_body w c)
  unfolding start_body
  start_body-Quiet =
      then-Quiet w own_tool _ _
        (then-Quiet w own_tool _ _ (attempt-Quiet w own_tool _ _ refl)
          (λ _. verify_firewall-Quiet w own_tool c))
        (λ _. start_checked-Quiet)

  pub start_run-Quiet :
      (h : History)
      → launches_but (tool_name_for c.run_id) (start_run w c h).0
        ≡ launches_but (tool_name_for c.run_id) h
  unfolding start_run settle
  start_run-Quiet = then-Quiet w own_tool _ _ (attempt-Quiet w own_tool find_helper _ refl) (λ _.
      then-Quiet w own_tool _ _ (read_baked-Quiet w own_tool (sidecar_name c)) (λ baked.
        then-Quiet w own_tool _ _ (λ _. refl)
          (λ _ h. teardown-quiet w own_tool c (start_body w c h).0 ∙ start_body-Quiet h)))
