-- ===== src/Jail/Effects/Laws.antt =====
-- What a computation adds to the history, and what an accepted one passed through.
use netcage.Base.{
  Bool, true, false, ◌||◌, [], ◌∷◌, ◌≡◌, refl, Result, ok, err, inl, inr, ◌⊎◌, arith,
}
use netcage.Text.{Text}
use netcage.Jail.Effects.{settle, World, attempt, Event, History, Reply, Io, after, out_of}

-- Some event of the kind is in the history.
unfoldable pub occurs : (Event → Bool) → History → Bool
occurs kind [] = false
occurs kind (e ∷ h) = kind e || occurs kind h

module _ {E A B : Type 0} where
  -- An event of the second part comes behind an accepted first part.
  pub after-occurs :
      (kind : Event → Bool) (p : History × Result E A) (f : A → Io E B)
      → occurs kind (after p f).0 ≡ true
      → (occurs kind p.0 ≡ true) ⊎ ((a : A) × (p.1 ≡ ok a) × (occurs kind (f a p.0).0 ≡ true))
  unfolding after
  after-occurs kind (h, ok a) f k = inr (a, refl, k)
  after-occurs kind (h, err e) f k = inl k

  pub after-quiet :
      (kind : Event → Bool) (p : History × Result E A) (f : A → Io E B)
      → ((a : A) (h : History) → occurs kind (f a h).0 ≡ occurs kind h)
      → occurs kind (after p f).0 ≡ occurs kind p.0
  unfolding after
  after-quiet kind (h, ok a) f k = k a h
  after-quiet kind (h, err e) f k = refl

  pub after-ok :
      (p : History × Result E A) (f : A → Io E B) {b : B}
      → (after p f).1 ≡ ok b
      → (a : A) × (p.1 ≡ ok a) × ((f a p.0).1 ≡ ok b)
  unfolding after
  after-ok (h, ok a) f k = (a, refl, k)
  after-ok (h, err e) f k = cc

  pub after-history :
      (p : History × Result E A) (f : A → Io E B)
      → ((a : A) (h : History) → (f a h).0 ≡ h)
      → (after p f).0 ≡ p.0
  unfolding after
  after-history (h, ok a) f k = k a h
  after-history (h, err e) f k = refl

pub after_assoc :
    {E A B C : Type 0} (p : History × Result E A) (f : A → Io E B) (g : B → Io E C)
    → after (after p f) g ≡ after p (λ a h. after (f a h) g)
unfolding after
after_assoc (h, ok a) f g = refl
after_assoc (h, err e) f g = refl

-- An event of the kind that comes behind an attempt or a settled result, neither of the kind.
module _ {E A : Type 0} (kind : Event → Bool) (h : History) (quiet : occurs kind h ≡ false) where
  pub attempt-occurs :
      (w : World) (e : Event) (x : E) (f : Text → Io E A)
      → kind e ≡ false
      → occurs kind (after (attempt w e x h) f).0 ≡ true
      → (out : Text) × (out_of x (w.reply h e) ≡ ok out) × (occurs kind (f out (e ∷ h)).0 ≡ true)
  unfolding attempt occurs
  attempt-occurs w e x f other k = elim (after-occurs kind (attempt w e x h) f k) [
    | inl seen ↦ absurd (ground arith)
    | inr (out, accepted, more) ↦ (out, accepted, more)
  ]

  pub settle-occurs :
      {B : Type 0} (r : Result E B) (f : B → Io E A)
      → occurs kind (after (settle r h) f).0 ≡ true
      → (b : B) × (r ≡ ok b) × (occurs kind (f b h).0 ≡ true)
  unfolding settle
  settle-occurs r f k = elim (after-occurs kind (settle r h) f k) [
    | inl seen ↦ absurd (ground arith)
    | inr found ↦ found
  ]

pub out_of-ok : {E : Type 0} (x : E) (r : Reply) {o : Text} → out_of x r ≡ ok o → r.out ≡ o
unfolding out_of
out_of-ok x r k = ground arith
