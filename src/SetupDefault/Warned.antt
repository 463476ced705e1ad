-- ===== src/SetupDefault/Warned.antt =====
-- internal/setupdefault/setupdefault.go: what stands before a call of the writer.
use netcage.Base.{true, List, [], ◌∷◌, ◌++◌, ◌≡◌, refl, Result, ok, err}
use netcage.Text.{Text, codes}
use netcage.SetupDefault.Prompts.{
  Action, printed, prompted, answered, persist, Session, SetupError, Dialog, and_then,
}
use netcage.SetupDefault.Entry.{warning_text}
use netcage.SetupDefault.{Options, write_prompt}

module _ {A B : Type 0} where
  pub and_then-holds :
      (P : Session → Type 0) (p : Session × Result SetupError A) (f : A → Dialog B)
      → P p.0
      → ((a : A) → p.1 ≡ ok a → P (f a p.0).0)
      → P (and_then p f).0
  unfolding and_then
  and_then-holds P (s, ok a) f h k = k a refl
  and_then-holds P (s, err e) f h k = h

-- The newest actions: the question of the write, answered with yes, behind the warning for the URL.
abbrev pub IsConfirmed : Options → Text → List Action → Type 0
IsConfirmed o url l =
    (rest : List Action) × (l
      ≡ answered true
        ∷ prompted (write_prompt o ++ (codes " [y/N]" ++ codes ": "))
        ∷ printed (warning_text url ++ codes "\n")
        ∷ rest)

-- Every call of the writer is behind the warning for its URL and a yes.
abbrev pub IsWarned : Options → List Action → Type 0
IsWarned o [] = Unit
IsWarned o (persist url allow ∷ l) = IsConfirmed o url l × IsWarned o l
IsWarned o (_ ∷ l) = IsWarned o l

module _ (o : Options) where
  abbrev Keeps : {A : Type 0} → Session × Result SetupError A → Type 0
  Keeps p = IsWarned o p.0.log
