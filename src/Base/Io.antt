-- ===== src/Base/Io.antt =====
-- Calls that change a state and may fail. What was done before an error stays done, so the state
-- comes back beside the error too; `?` is the bind.
use voindns_desktop.Base.Errors.{Result, ok, err, map_err}

abbrev pub Io {ℓ} : Type ℓ → Type ℓ → Type ℓ → Type ℓ
Io S E A = S → Result E A × S

module _ {ℓ} {S E A : Type ℓ} where
  abbrev pub pure : A → Io S E A
  pure a s = (ok a, s)

  abbrev pub raise : E → Io S E A
  raise e s = (err e, s)

  abbrev pub lift : Result E A → Io S E A
  lift r s = (r, s)

  -- `let _ = call`
  abbrev pub ignore : Io S E A → S → S
  ignore m s = (m s).1

module _ {ℓ} {S E F A : Type ℓ} where
  -- the conversion that `?` makes, or `.map_err(f)` and `.context(…)`
  abbrev pub with_err : (E → F) → Io S E A → Io S F A
  with_err f m s = let (r, s') = m s in (map_err f r, s')

module _ {ℓ} {S E A B : Type ℓ} where
  abbrev pub continue : Result E A → (A → Io S E B) → Io S E B
  continue (ok a) f s = f a s
  continue (err e) f s = (err e, s)

  infixl 5 ◌>>=◌ ◌>>◌
  abbrev pub ◌>>=◌ : Io S E A → (A → Io S E B) → Io S E B
  ◌>>=◌ m f s = let (r, s') = m s in continue r f s'

  abbrev pub ◌>>◌ : Io S E A → Io S E B → Io S E B
  m >> n = m >>= λ _. n
