-- ===== src/Ports/Sort.antt =====
-- internal/ports/ports.go: the order of the listeners that `netcage ports` prints.
pub mod Sorted
use netcage.Base.{ℕ, Bool, true, false, not, List, [], ◌∷◌, ltb, ◌==◌, if◌then◌else◌}
use netcage.Text.{Text}
use netcage.Ports.Listeners.{Listener}

-- `<` on strings.
unfoldable pub text_less : Text → Text → Bool
text_less s [] = false
text_less [] (y ∷ t) = true
text_less (x ∷ s) (y ∷ t) = if x == y then text_less s t else ltb x y

-- The comparison that `sortListeners` sorts by.
unfoldable pub listener_less : Listener → Listener → Bool
unfolding text_less
listener_less l m =
    if not (l.port == m.port) then ltb l.port m.port else text_less l.address m.address

unfoldable pub insert_listener : Listener → List Listener → List Listener
unfolding listener_less
insert_listener l [] = l ∷ []
insert_listener l (m ∷ ms) = elim (listener_less m l) [
  | true ↦ m ∷ insert_listener l ms
  | false ↦ l ∷ m ∷ ms
]

-- `sortListeners`: `sort.SliceStable` is a stable sort by a comparison, here by insertion.
unfoldable pub sort_listeners : List Listener → List Listener
unfolding insert_listener
sort_listeners [] = []
sort_listeners (l ∷ ls) = insert_listener l (sort_listeners ls)
