-- ===== src/Jail/GraphRoot.antt =====
-- internal/jail/graphroot.go: the one store of images and containers.
use netcage.Base.{ℕ, List, [], ◌∷◌, ◌++◌}
use netcage.Text.{Text, codes}
use netcage.Text.Numbers.{decimal}

-- What the store's path is made from: the environment, and `os.Getuid`.
pub record Account : Type 0 where
  pub getenv : Text → Text
  pub uid : ℕ

-- `defaultGraphRoot`.
unfoldable pub default_graph_root : ℕ → Text
default_graph_root uid = codes "/var/tmp/netcage-storage" ++ (codes "-" ++ decimal uid)

abbrev pub or_default : ℕ → Text → Text
or_default uid [] = default_graph_root uid
or_default uid (c ∷ p) = c ∷ p

-- `graphRoot` and `GraphRoot`: an empty variable counts as one that is not set.
unfoldable pub graph_root : Account → Text
graph_root a = or_default a.uid (a.getenv (codes "NETCAGE_GRAPHROOT"))

-- `podmanGlobalArgs`.
unfoldable pub podman_global_args : Account → List Text → List Text
podman_global_args a args = codes "--root" ∷ graph_root a ∷ args
