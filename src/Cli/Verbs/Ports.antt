-- ===== src/Cli/Verbs/Ports.antt =====
-- internal/cli/cli.go: the ports of `netcage forward` in the form that a user writes them.
use netcage.Base.{ℕ, ◌≤◌, ◌∷◌, ◌++◌, ◌≡◌, refl, ok, arith}
use netcage.Text.Laws.{split-lacks, split-append}
use netcage.Text.Numbers.{decimal}
use netcage.Text.Numbers.Decimal.{atoi-decimal, decimal-contains}
use netcage.Cli.Verbs.{parse_forward_port, port_parts, parse_forward_port_spec}

abbrev pub IsPort : ℕ → Type 0
IsPort p = (1 ≤ p) × (p ≤ 65535)

parse_forward_port-decimal : (p : ℕ) → IsPort p → parse_forward_port (decimal p) ≡ ok p
unfolding parse_forward_port
parse_forward_port-decimal p h =
    rw (parse_forward_port, atoi-decimal p (omega arith)) (ground arith)

-- Two ports written with a colon between them are read as the port of the host and the port in the
-- jail, and one port alone as both, for all ports from 1 to 65535.
pub parse_forward_port_spec-decimal :
    (host jail : ℕ)
    → IsPort host
    → IsPort jail
    → (parse_forward_port_spec (decimal host ++ (b':' ∷ decimal jail)) ≡ ok (host, jail))
      × (parse_forward_port_spec (decimal jail) ≡ ok (jail, jail))
unfolding parse_forward_port_spec port_parts
parse_forward_port_spec-decimal host jail h j =
    let lone = split-lacks b':' (decimal jail) (decimal-contains b':' jail (omega arith)) in
    let pair =
      split-append b':' (decimal host) (decimal jail) (decimal-contains b':' host (omega arith)) in
    (
      rw
          (
            pair,
            lone,
            port_parts,
            parse_forward_port-decimal host h,
            parse_forward_port-decimal jail j,
          )
          refl,
      rw (lone, port_parts, parse_forward_port-decimal jail j) refl,
    )
