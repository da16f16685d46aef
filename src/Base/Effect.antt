-- ===== src/Base/Effect.antt =====
-- Code that changes a state: the state is passed along, and each call returns the new one.
abbrev pub Effect : Type 0 → Type 0 → Type 0
Effect S A = S → A × S

module _ {S A : Type 0} where
  abbrev pub pure : A → Effect S A
  pure a s = (a, s)

  abbrev pub gets : (S → A) → Effect S A
  gets f s = (f s, s)

module _ {S : Type 0} where
  abbrev pub modify : (S → S) → Effect S (Unit {0})
  modify f s = (tt, f s)

module _ {S A B : Type 0} where
  infixl 5 ◌>>=◌ ◌>>◌
  abbrev pub ◌>>=◌ : Effect S A → (A → Effect S B) → Effect S B
  ◌>>=◌ m f s = let (a, s') = m s in f a s'

  abbrev pub ◌>>◌ : Effect S A → Effect S B → Effect S B
  ◌>>◌ m n s = let (a, s') = m s in n s'
