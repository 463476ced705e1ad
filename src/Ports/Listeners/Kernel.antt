-- ===== src/Ports/Listeners/Kernel.antt =====
-- The rows as the kernel of a little-endian host prints them, and what the parser makes of them.
use mathlib.Core.Path.{sym, subst}
use netcage.Base.{
  ◌^◌, inr, inl, Bool-cases, ℕ, zero, suc, ◌+◌, ◌-◌, ◌*◌, ◌/◌, ◌%◌, ◌<◌, Bool, true, false, some,
  List, [], ◌∷◌, ◌++◌, ◌≡◌, refl, ap, ◌∙◌, All, All-append, replicate, length, ltb, ◌==◌,
  if◌then◌else◌, arith,
}
use netcage.Text.{
  is_empty, is_empty, is_empty, is_empty, is_empty, is_empty, Text, codes, is_space, contains,
}
use netcage.Text.Laws.{
  eqb_refl, is_empty-append, IsSolid, fields-cons, fields-indent, cut_last-append,
}
use netcage.Text.Numbers.{hex_digit}
use netcage.Net.{to4, Ip}
use netcage.Net.Print.{ip_string}
use netcage.Ports.Listeners.{
  tcp_state_listen, Listener, decode_hex, decode_port, decode_v4, decode_v6, parse_local,
  parse_fields, parse_row, is_loopback, swap_words,
}

-- A digit of `%X`.
unfoldable pub hex_upper : ℕ → ℕ
hex_upper d = if ltb d 10 then b'0' + d else b'A' + (d - 10)

-- Bytes as `%02X` prints them.
unfoldable pub hex_bytes : List ℕ → Text
hex_bytes [] = []
hex_bytes (n ∷ ns) = hex_upper (n / 16) ∷ hex_upper (n % 16) ∷ hex_bytes ns

abbrev pub AreBytes : List ℕ → Type 0
AreBytes = All (λ n. n < 256)

hex_digit-upper : (d : ℕ) → d < 16 → hex_digit (hex_upper d) ≡ some d
unfolding hex_digit hex_upper
hex_digit-upper d h = ground arith

decode_hex-bytes : (ns : List ℕ) → AreBytes ns → decode_hex (hex_bytes ns) ≡ some ns
unfolding decode_hex hex_bytes
decode_hex-bytes [] h = refl
decode_hex-bytes (n ∷ ns) (h, hs) = ground (
  arith,
  hex_digit-upper (n / 16) (omega arith),
  hex_digit-upper (n % 16) (omega arith),
  decode_hex-bytes ns hs,
)

hex_upper_plain :
    (d : ℕ) → d < 16 → (is_space (hex_upper d) ≡ false) × ((hex_upper d == b':') ≡ false)
unfolding hex_upper is_space
hex_upper_plain d h = elim (Bool-cases (ltb d 10)) [
  | inl e ↦ (ground arith, ground arith)
  | inr e ↦ (ground arith, ground arith)
]

hex_bytes-IsSolid : (ns : List ℕ) → AreBytes ns → IsSolid (hex_bytes ns)
unfolding hex_bytes
hex_bytes-IsSolid [] h = tt
hex_bytes-IsSolid (n ∷ ns) (h, hs) = (
  (hex_upper_plain (n / 16) (omega arith)).0,
  ((hex_upper_plain (n % 16) (omega arith)).0, hex_bytes-IsSolid ns hs),
)

hex_bytes-contains : (ns : List ℕ) → AreBytes ns → contains b':' (hex_bytes ns) ≡ false
unfolding hex_bytes contains
hex_bytes-contains [] h = refl
hex_bytes-contains (n ∷ ns) (h, hs) = ground (
  arith,
  hex_upper_plain (n / 16) (omega arith),
  hex_upper_plain (n % 16) (omega arith),
  hex_bytes-contains ns hs,
)

-- The two bytes of a port.
unfoldable pub port_bytes : ℕ → List ℕ
port_bytes port = port / 256 ∷ port % 256 ∷ []

port_bytes-AreBytes : (port : ℕ) → port < 2 ^ 16 → AreBytes (port_bytes port)
unfolding port_bytes
port_bytes-AreBytes port h = (omega arith, (omega arith, tt))

hex_bytes-length : (ns : List ℕ) → length (hex_bytes ns) ≡ 2 * length ns
unfolding hex_bytes
hex_bytes-length [] = refl
hex_bytes-length (n ∷ ns) = omega (arith, hex_bytes-length ns)

decode_port-port_bytes :
    (port : ℕ) → port < 2 ^ 16 → decode_port (hex_bytes (port_bytes port)) ≡ some port
unfolding decode_port port_bytes
decode_port-port_bytes port h =
    rw
      (
        decode_hex-bytes (port_bytes port) (port_bytes-AreBytes port h),
        port_bytes,
        hex_bytes-length (port_bytes port),
      )
      (ground arith)

-- `local_address` of the bytes `raw`, which the kernel prints word by word in its own order.
unfoldable pub local_column : List ℕ → ℕ → Text
local_column raw port = hex_bytes (swap_words raw) ++ (b':' ∷ hex_bytes (port_bytes port))

-- The row of a socket: its number, its own address, the other one's, its state and the rest.
unfoldable pub kernel_row : ℕ → Text → List ℕ → ℕ → Text → Text → Text → Text
kernel_row indent sl raw port remote st rest =
    replicate indent b' '
    ++ (sl ++ (b' ' ∷ local_column raw port ++ (b' ' ∷ remote ++ (b' ' ∷ st ++ (b' ' ∷ rest)))))

swap_words-AreBytes : (raw : List ℕ) → AreBytes raw → AreBytes (swap_words raw)
swap_words-AreBytes (a ∷ b ∷ c ∷ d ∷ raw) (ha, (hb, (hc, (hd, h)))) =
    (hd, (hc, (hb, (ha, swap_words-AreBytes raw h))))
swap_words-AreBytes _ _ = tt

local_column-is_empty : (raw : List ℕ) (port : ℕ) → is_empty (local_column raw port) ≡ false
unfolding local_column
local_column-is_empty raw port = is_empty-append (hex_bytes (swap_words raw)) b':' _

listen_column : (is_empty tcp_state_listen ≡ false) × IsSolid tcp_state_listen
unfolding codes is_space
listen_column = (refl, (refl, (refl, tt)))

local_column-IsSolid :
    (raw : List ℕ) (port : ℕ) → AreBytes raw → port < 2 ^ 16 → IsSolid (local_column raw port)
unfolding local_column is_space
local_column-IsSolid raw port h hport =
    All-append _ (hex_bytes (swap_words raw)) _
      (hex_bytes-IsSolid (swap_words raw) (swap_words-AreBytes raw h))
      (refl, hex_bytes-IsSolid (port_bytes port) (port_bytes-AreBytes port hport))

-- The row of a socket that listens is the listener of its local column.
parse_row-kernel_row :
    (is_v6 : Bool) (indent : ℕ) (sl remote rest : Text) (raw : List ℕ) (port : ℕ)
    → (is_empty sl ≡ false) × IsSolid sl
    → (is_empty remote ≡ false) × IsSolid remote
    → AreBytes raw
    → port < 2 ^ 16
    → parse_row is_v6 (kernel_row indent sl raw port remote tcp_state_listen rest)
      ≡ parse_local is_v6 (some (hex_bytes (swap_words raw), hex_bytes (port_bytes port)))
unfolding parse_row kernel_row parse_fields parse_local local_column
parse_row-kernel_row is_v6 indent sl remote rest raw port hsl hremote hraw hport =
    rw
      (
        fields-indent indent,
        fields-cons sl _ hsl.0 hsl.1,
        fields-cons (local_column raw port) _ (local_column-is_empty raw port)
            (local_column-IsSolid raw port hraw hport),
        fields-cons remote _ hremote.0 hremote.1,
        fields-cons tcp_state_listen rest listen_column.0 listen_column.1,
        parse_fields,
        eqb_refl tcp_state_listen,
        local_column,
        cut_last-append b':' (hex_bytes (swap_words raw)) _
            (hex_bytes-contains (port_bytes port) (port_bytes-AreBytes port hport)),
      )
      refl

-- Twice the order of the words' bytes is the first order.
swap_words-swap_words :
    (n : ℕ) (raw : List ℕ)
    → length raw ≡ 4 * n
    → (swap_words (swap_words raw) ≡ raw) × (length (swap_words raw) ≡ 4 * n)
swap_words-swap_words (suc n) (a ∷ b ∷ c ∷ d ∷ raw) h =
    let (same, size) = swap_words-swap_words n raw (omega arith) in
    (ap (λ bs. a ∷ b ∷ c ∷ d ∷ bs) same, omega arith)
swap_words-swap_words zero [] h = (refl, refl)
swap_words-swap_words zero (a ∷ raw) h = absurd (omega (arith, h))
swap_words-swap_words (suc n) [] h = absurd (omega (arith, h))
swap_words-swap_words (suc n) (a ∷ []) h = absurd (omega (arith, h))
swap_words-swap_words (suc n) (a ∷ b ∷ []) h = absurd (omega (arith, h))
swap_words-swap_words (suc n) (a ∷ b ∷ c ∷ []) h = absurd (omega (arith, h))

decode_v6-swap_words :
    (raw : List ℕ)
    → AreBytes raw
    → length raw ≡ 16
    → decode_v6 (hex_bytes (swap_words raw)) ≡ some raw
unfolding decode_v6
decode_v6-swap_words raw h size =
    let (same, size') = swap_words-swap_words 4 raw size in
    rw
      (
        hex_bytes-length (swap_words raw),
        size',
        decode_hex-bytes (swap_words raw) (swap_words-AreBytes raw h),
        same,
      )
      refl

-- The listener of an address and a port.
abbrev pub announced : Ip → ℕ → Listener
announced ip port = record { address = ip_string ip; port = port; loopback_only = is_loopback ip }

parse_row-kernel_v6 :
    (indent : ℕ) (sl remote rest : Text) (raw : Ip) (port : ℕ)
    → (is_empty sl ≡ false) × IsSolid sl
    → (is_empty remote ≡ false) × IsSolid remote
    → AreBytes raw
    → length raw ≡ 16
    → port < 2 ^ 16
    → parse_row true (kernel_row indent sl raw port remote tcp_state_listen rest)
      ≡ some (announced raw port)
unfolding parse_local
parse_row-kernel_v6 indent sl remote rest raw port hsl hremote hraw size hport =
    parse_row-kernel_row true indent sl remote rest raw port hsl hremote hraw hport
    ∙ rw (decode_port-port_bytes port hport, decode_v6-swap_words raw hraw size) refl

parse_row-kernel_v4 :
    (indent : ℕ) (sl remote rest : Text) (a b c d port : ℕ)
    → (is_empty sl ≡ false) × IsSolid sl
    → (is_empty remote ≡ false) × IsSolid remote
    → AreBytes (a ∷ b ∷ c ∷ d ∷ [])
    → port < 2 ^ 16
    → parse_row false (kernel_row indent sl (a ∷ b ∷ c ∷ d ∷ []) port remote tcp_state_listen rest)
      ≡ some (record {
        address = ip_string (a ∷ b ∷ c ∷ d ∷ []);
        port = port;
        loopback_only = a == 127;
      })
unfolding parse_local decode_v4 ip_string is_loopback to4
parse_row-kernel_v4 indent sl remote rest a b c d port hsl hremote hraw hport =
    let raw = a ∷ b ∷ c ∷ d ∷ [] in
    parse_row-kernel_row false indent sl remote rest raw port hsl hremote hraw hport
    ∙ rw
        (
          decode_port-port_bytes port hport,
          hex_bytes-length (swap_words raw),
          decode_hex-bytes (swap_words raw) (swap_words-AreBytes raw hraw),
        )
        refl

-- The bytes of an address in the table of its family.
abbrev pub address_size : Bool → ℕ
address_size true = 16
address_size false = 4

four_bytes :
    (raw : Ip) → length raw ≡ 4 → (a : ℕ) × (b : ℕ) × (c : ℕ) × (d : ℕ) × (raw ≡ a ∷ b ∷ c ∷ d ∷ [])
four_bytes (a ∷ b ∷ c ∷ d ∷ []) size = (a, b, c, d, refl)
four_bytes [] size = absurd (omega (arith, size))
four_bytes (a ∷ []) size = absurd (omega (arith, size))
four_bytes (a ∷ b ∷ []) size = absurd (omega (arith, size))
four_bytes (a ∷ b ∷ c ∷ []) size = absurd (omega (arith, size))
four_bytes (a ∷ b ∷ c ∷ d ∷ e ∷ raw) size = absurd (omega (arith, size))

-- When the kernel prints the row of a socket that listens on an address of either family, its bytes as
-- little-endian words, four of them or one, the row is read back as this address and port, with the
-- mark of a loopback address exactly where it is one, whatever stands in the other columns, if the first
-- and the third are single words.
pub parse_row-kernel :
    (is_v6 : Bool) (indent : ℕ) (sl remote rest : Text) (raw : Ip) (port : ℕ)
    → (is_empty sl ≡ false) × IsSolid sl
    → (is_empty remote ≡ false) × IsSolid remote
    → AreBytes raw
    → length raw ≡ address_size is_v6
    → port < 2 ^ 16
    → parse_row is_v6 (kernel_row indent sl raw port remote tcp_state_listen rest)
      ≡ some (announced raw port)
unfolding is_loopback to4 ip_string
parse_row-kernel true indent sl remote rest raw port hsl hremote hraw size hport =
    parse_row-kernel_v6 indent sl remote rest raw port hsl hremote hraw size hport
parse_row-kernel false indent sl remote rest raw port hsl hremote hraw size hport =
    let (a, b, c, d, e) = four_bytes raw size in
    subst
      (λ raw.
        parse_row false (kernel_row indent sl raw port remote tcp_state_listen rest)
        ≡ some (announced raw port))
      (sym e)
      (parse_row-kernel_v4 indent sl remote rest a b c d port hsl hremote (subst AreBytes e hraw)
        hport)
