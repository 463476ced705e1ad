-- ===== src/Ports/Show.antt =====
-- internal/ports/ports.go: the table and the JSON array of the listeners.
use netcage.Base.{ℕ, ◌-◌, ◌&&◌, List, [], ◌∷◌, ◌++◌, length, replicate, ltb, ◌==◌, if◌then◌else◌}
use netcage.Text.{Text, codes, eqb}
use netcage.Text.Numbers.{decimal}
use netcage.Ports.Listeners.{Listener}
use netcage.Ports.Sort.{sort_listeners}

-- `dnsForwarderNote`.
abbrev pub dns_forwarder_note : Text
dns_forwarder_note = codes "netcage DNS forwarder"

-- The verb `%-*s`.
unfoldable pub pad_right : ℕ → Text → Text
pad_right width s = s ++ replicate (width - length s) b' '

-- One line of the table.
unfoldable pub table_line : ℕ → Text → Text → Text → Text → Text
unfolding pad_right
table_line width address port scope note =
    pad_right width address
    ++ (codes "  "
        ++ (pad_right 5 port
            ++ (codes "  " ++ (pad_right 14 scope ++ (codes "  " ++ (note ++ codes "\n"))))))

abbrev pub scope_of : Listener → Text
scope_of l = if l.loopback_only then codes "loopback" else codes "all-interfaces"

abbrev pub note_of : Listener → Text
note_of l =
    if eqb l.address (codes "127.0.0.1") && l.port == 53
    then codes "(" ++ (dns_forwarder_note ++ codes ")")
    else []

abbrev larger : ℕ → ℕ → ℕ
larger m n = if ltb m n then n else m

-- The width of the column of the addresses.
unfoldable pub address_width : ℕ → List Listener → ℕ
address_width width [] = width
address_width width (l ∷ ls) = address_width (larger width (length l.address)) ls

unfoldable pub table_rows : ℕ → List Listener → Text
unfolding table_line
table_rows width [] = []
table_rows width (l ∷ ls) =
    table_line width l.address (decimal l.port) (scope_of l) (note_of l) ++ table_rows width ls

unfoldable pub table_of : List Listener → Text
unfolding table_line
table_of [] = codes "no TCP listeners in the jail\n"
table_of (l ∷ ls) =
    let width = address_width 7 (l ∷ ls) in
    table_line width (codes "ADDRESS") (codes "PORT") (codes "SCOPE") []
    ++ table_rows width (l ∷ ls)

-- `renderTable`.
unfoldable pub render_table : List Listener → Text
render_table ls = table_of (sort_listeners ls)

-- A listener as a JSON object; an address has no character that JSON escapes.
unfoldable pub json_object : Listener → Text
json_object l =
    codes "  {\n    \"address\": \""
    ++ (l.address
        ++ (codes "\",\n    \"port\": "
            ++ (decimal l.port
                ++ (codes ",\n    \"loopbackOnly\": "
                    ++ ((if l.loopback_only then codes "true" else codes "false")
                        ++ codes "\n  }")))))

unfoldable pub json_objects : List Listener → Text
unfolding json_object
json_objects [] = []
json_objects (l ∷ []) = json_object l ++ codes "\n"
json_objects (l ∷ m ∷ ls) = json_object l ++ (codes ",\n" ++ json_objects (m ∷ ls))

unfoldable pub json_of : List Listener → Text
json_of [] = codes "[]\n"
json_of (l ∷ ls) = codes "[\n" ++ (json_objects (l ∷ ls) ++ codes "]\n")

-- `renderJSON`.
unfoldable pub render_json : List Listener → Text
render_json ls = json_of (sort_listeners ls)
