-- ===== src/Ports/Sort/Sorted.antt =====
-- `sortListeners`: its result is in order, is a rearrangement, and keeps the order of equal ones.
use netcage.Base.{
  and-eq-true, inr, inl, ℕ, true, false, ◌&&◌, ◌<◌, ◌⊎◌, ◌≡◌, refl, List, [], ◌∷◌, ◌==◌, Bool-cases,
  if◌then◌else◌, arith,
}
use mathlib.Core.List.{forall_mem-cons, Mem, Perm, Pairwise, Pairwise-singleton}
use mathlib.Core.List.Perm
use mathlib.Core.List.Pairwise
use netcage.Text.{Text, eqb}
use netcage.Text.Laws.{eqb_iff}
use netcage.Ports.Listeners.{Listener}
use netcage.Ports.Sort.{text_less, listener_less, insert_listener, sort_listeners}

text_less_asym : (s t : Text) → text_less s t ≡ true → text_less t s ≡ false
unfolding text_less
text_less_asym (x ∷ s) (y ∷ t) h = ground (arith, text_less_asym s t)
text_less_asym _ _ h = ground arith

text_less_step :
    (s t u : Text) → text_less t s ≡ false → text_less u t ≡ false → text_less u s ≡ false
unfolding text_less
text_less_step (x ∷ s) (y ∷ t) (z ∷ u) h k = ground (arith, text_less_step s t u)
text_less_step _ _ _ h k = ground arith

listener_less_asym : (l m : Listener) → listener_less l m ≡ true → listener_less m l ≡ false
unfolding listener_less
listener_less_asym l m h = ground (arith, text_less_asym l.address m.address)

listener_less_step :
    (l m n : Listener)
    → listener_less m l ≡ false
    → listener_less n m ≡ false
    → listener_less n l ≡ false
unfolding listener_less
listener_less_step l m n h k = ground (arith, text_less_step l.address m.address n.address)

-- `a` need not stand behind `b`.
abbrev pub IsNoLater : Listener → Listener → Type 0
IsNoLater a b = listener_less b a ≡ false

insert_listener-perm : (l : Listener) (ms : List Listener) → Perm (insert_listener l ms) (l ∷ ms)
unfolding insert_listener
insert_listener-perm l [] = Perm.rfl
insert_listener-perm l (m ∷ ms) = elim (Bool-cases (listener_less m l)) [
  | inl e ↦
      rw (e, insert_listener)
        (Perm.trans (Perm.cons m (insert_listener-perm l ms)) (Perm.swap l m ms))
  | inr e ↦ rw (e, insert_listener) Perm.rfl
]

-- What `Pairwise.cons` asks of a new head.
abbrev IsFirst : Listener → List Listener → Type 0
IsFirst a ms = (x : Listener) → Mem x ms → IsNoLater a x

IsFirst-cons :
    (a : Listener) {b : Listener} {ms : List Listener}
    → IsNoLater a b
    → IsFirst a ms
    → IsFirst a (b ∷ ms)
IsFirst-cons a first others = (forall_mem-cons (λ x. hlevel)).1 (first, others)

IsFirst-perm : (a : Listener) {ls ms : List Listener} → Perm ls ms → IsFirst a ms → IsFirst a ls
IsFirst-perm a p first x on = first x ((Perm.mem_iff p).0 on)

insert_listener-ordered :
    (l : Listener) {ms : List Listener}
    → Pairwise IsNoLater ms
    → Pairwise IsNoLater (insert_listener l ms)
unfolding insert_listener
insert_listener-ordered l Pairwise.nil = Pairwise-singleton _ l
insert_listener-ordered l (Pairwise.cons {a = m} {l = ms} below s) =
    elim (Bool-cases (listener_less m l)) [
      | inl e ↦
          rw (e, insert_listener)
            (Pairwise.cons
              (IsFirst-perm m (insert_listener-perm l ms)
                (IsFirst-cons m (listener_less_asym m l e) below))
              (insert_listener-ordered l s))
      | inr e ↦
          rw (e, insert_listener)
            (Pairwise.cons (IsFirst-cons l e (λ x on. listener_less_step l m x e (below x on)))
              (Pairwise.cons below s))
    ]

sort_listeners-ordered : (ls : List Listener) → Pairwise IsNoLater (sort_listeners ls)
unfolding sort_listeners
sort_listeners-ordered [] = Pairwise.nil
sort_listeners-ordered (l ∷ ls) = insert_listener-ordered l (sort_listeners-ordered ls)

sort_listeners-perm : (ls : List Listener) → Perm (sort_listeners ls) ls
unfolding sort_listeners
sort_listeners-perm [] = Perm.rfl
sort_listeners-perm (l ∷ ls) =
    Perm.trans (insert_listener-perm l (sort_listeners ls)) (Perm.cons l (sort_listeners-perm ls))

-- The listeners with this port and address, in their order.
unfoldable pub at_socket : ℕ → Text → List Listener → List Listener
at_socket port address [] = []
at_socket port address (l ∷ ls) =
    let rest = at_socket port address ls in
    if l.port == port && eqb l.address address then l ∷ rest else rest

text_less_irrefl : (s : Text) → text_less s s ≡ false
unfolding text_less
text_less_irrefl [] = refl
text_less_irrefl (x ∷ s) = ground (arith, text_less_irrefl s)

less-apart :
    (port : ℕ) (address : Text) (m l : Listener)
    → listener_less m l ≡ true
    → (m.port == port && eqb m.address address) ≡ true
    → (l.port == port && eqb l.address address) ≡ false
unfolding listener_less
less-apart port address m l h same = elim (Bool-cases (l.port == port && eqb l.address address)) [
  | inl e ↦
      let (m_port, m_address) = and-eq-true (m.port == port) _ same in
      let (l_port, l_address) = and-eq-true (l.port == port) _ e in
      let on_m = (eqb_iff m.address address).0 m_address in
      let on_l = (eqb_iff l.address address).0 l_address in
      absurd (ground (arith, text_less_irrefl address))
  | inr e ↦ e
]

insert_listener-at_socket :
    (port : ℕ) (address : Text) (l : Listener) (ms : List Listener)
    → at_socket port address (insert_listener l ms) ≡ at_socket port address (l ∷ ms)
unfolding insert_listener at_socket
insert_listener-at_socket port address l [] = refl
insert_listener-at_socket port address l (m ∷ ms) =
    ground (arith, less-apart port address m l, insert_listener-at_socket port address l ms)

sort_listeners-stable :
    (port : ℕ) (address : Text) (ls : List Listener)
    → at_socket port address (sort_listeners ls) ≡ at_socket port address ls
unfolding sort_listeners at_socket
sort_listeners-stable port address [] = refl
sort_listeners-stable port address (l ∷ ls) =
    rw (insert_listener-at_socket port address l (sort_listeners ls))
      (ground (arith, sort_listeners-stable port address ls))

-- The first has the lesser port, or the same port and an address that is not greater.
abbrev pub IsInOrder : Listener → Listener → Type 0
IsInOrder a b = (a.port < b.port) ⊎ ((a.port ≡ b.port) × (text_less b.address a.address ≡ false))

IsNoLater-IsInOrder : (a b : Listener) → IsNoLater a b → IsInOrder a b
unfolding listener_less
IsNoLater-IsInOrder a b h = elim (Bool-cases (b.port == a.port)) [
  | inl e ↦ inr (ground (arith, e), ground (arith, h, e))
  | inr e ↦ inl (ground (arith, h, e))
]

-- The printed listeners are a rearrangement of those that the parser read, none lost and none twice. No
-- listener comes before one of a lesser port or, at the same port, before one of a lesser address; those
-- of one port and address keep the order in which they were read.
pub sort_listeners-sorts :
    (ls : List Listener)
    → Perm (sort_listeners ls) ls
      × Pairwise IsInOrder (sort_listeners ls)
      × ((port : ℕ) (address : Text)
          → at_socket port address (sort_listeners ls) ≡ at_socket port address ls)
sort_listeners-sorts ls = (
  sort_listeners-perm ls,
  Pairwise.imp {S = IsInOrder} IsNoLater-IsInOrder (sort_listeners-ordered ls),
  λ port address. sort_listeners-stable port address ls,
)
