-- ===== src/Jail/Start/Reconcile.antt =====
-- The comparison of a kept jail's configuration: when it accepts, and that a run's own is read back.
use netcage.Base.{none, List, [], ◌∷◌, ◌++◌, ◌≡◌, ◌↔◌, refl, ◌∙◌, All, ok, arith}
use netcage.Text.{Text, codes, cut_prefix}
use netcage.Text.Laws.{eqb_iff}
use netcage.Jail.Config.{JailConfig}
use netcage.Jail.Containers.{sidecar_env}
use netcage.Jail.Start.{Baked, bake_one, bake, wanted, nothing_baked, reconcile_jail_config}

pub reconcile_jail_config_iff :
    (c : JailConfig) (b : Baked) → (reconcile_jail_config c b ≡ ok tt) ↔ (b ≡ wanted c)
unfolding reconcile_jail_config
reconcile_jail_config_iff c b =
    let p = eqb_iff (wanted c).proxy b.proxy in
    let r = eqb_iff (wanted c).excluded_routes b.excluded_routes in
    let s = eqb_iff (wanted c).extra_commands b.extra_commands in ground (arith, p, r, s)

-- The values of the options of an argument list that has nothing but options with values.
unfoldable pub option_values : List Text → List Text
option_values (option ∷ v ∷ args) = v ∷ option_values args
option_values _ = []

-- The entry sets none of the three variables.
abbrev pub IsForeign : Text → Type 0
IsForeign kv =
    (cut_prefix (codes "PROXY=") kv ≡ none)
    × (cut_prefix (codes "TUN_EXCLUDED_ROUTES=") kv ≡ none)
    × (cut_prefix (codes "EXTRA_COMMANDS=") kv ≡ none)

bake-append : (b : Baked) (xs ys : List Text) → bake b (xs ++ ys) ≡ bake (bake b xs) ys
unfolding bake
bake-append b [] ys = refl
bake-append b (x ∷ xs) ys = bake-append (bake_one b x) xs ys

bake-foreign : (b : Baked) (kvs : List Text) → All IsForeign kvs → bake b kvs ≡ b
unfolding bake bake_one
bake-foreign b [] h = refl
bake-foreign b (kv ∷ kvs) (h, hs) = ground (arith, bake-foreign b kvs hs)

bake-own : (c : JailConfig) (b : Baked) → bake b (option_values (sidecar_env c)) ≡ wanted c
unfolding bake bake_one option_values sidecar_env wanted cut_prefix codes
bake-own c b = refl

-- A kept jail's own configuration is read back: whatever stands in front of the environment that the
-- sidecar was made with, and with entries of other variables behind it, `start` finds no difference.
pub reconcile-sidecar_env :
    (c : JailConfig) (before behind : List Text)
    → All IsForeign behind
    → reconcile_jail_config c
        (bake nothing_baked (before ++ (option_values (sidecar_env c) ++ behind)))
      ≡ ok tt
reconcile-sidecar_env c before behind h = (reconcile_jail_config_iff c _).1 (
    bake-append nothing_baked before _
    ∙ (bake-append (bake nothing_baked before) (option_values (sidecar_env c)) behind
        ∙ (bake-foreign _ behind h ∙ bake-own c (bake nothing_baked before))))

-- A kept jail is accepted exactly where the proxy, the excluded routes and the firewall's script that were
-- read of its sidecar are those that would be read of a sidecar made now for the configuration.
pub reconcile_jail_config-bake :
    (c : JailConfig) (b : Baked)
    → (reconcile_jail_config c b ≡ ok tt) ↔ (b ≡ bake nothing_baked (option_values (sidecar_env c)))
reconcile_jail_config-bake c b = rw (bake-own c nothing_baked) (reconcile_jail_config_iff c b)
