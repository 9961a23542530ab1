-- ===== src/Base/Errors.antt =====
-- Rust's `Result`, `anyhow::Error` as its chain of messages, and `std::io::Error`.
use mathlib.Core.Path.{◌≡◌, refl}
use mathlib.Core.Logic.{◌⊎◌, inl, inr}
use mathlib.Core.Bool.{Bool, true, false}
use mathlib.Core.Option.{Option, none, some}
use mathlib.Core.List.{List, [], ◌∷◌, ◌++◌}
use voindns_desktop.Base.Strings.{Text, codes}

pub data Result {ℓ κ} (E : Type ℓ) (A : Type κ) : Type (ℓ ⊔ κ) where
  ok : A → Result E A
  err : E → Result E A

infixl 5 ◌>>=◌ ◌>>◌
abbrev pub ◌>>=◌ {ℓ κ μ} :
    {E : Type ℓ} {A : Type κ} {B : Type μ} → Result E A → (A → Result E B) → Result E B
ok a >>= f = f a
err e >>= f = err e

abbrev pub ◌>>◌ {ℓ κ μ} :
    {E : Type ℓ} {A : Type κ} {B : Type μ} → Result E A → Result E B → Result E B
m >> k = m >>= λ _. k

abbrev pub is_ok {ℓ κ} : {E : Type ℓ} {A : Type κ} → Result E A → Bool
is_ok (ok a) = true
is_ok (err e) = false

-- `Result::map_err`
abbrev pub map_err {ℓ κ μ} :
    {E : Type ℓ} {F : Type κ} {A : Type μ} → (E → F) → Result E A → Result F A
map_err f (ok a) = ok a
map_err f (err e) = err (f e)

-- `Option::ok_or_else`, and `Option::context` of anyhow
abbrev pub ok_or {ℓ κ} : {E : Type ℓ} {A : Type κ} → E → Option A → Result E A
ok_or e none = err e
ok_or e (some a) = ok a

-- `anyhow::Error`: the messages of its chain, the outermost context first.
abbrev pub Error : Type 0
Error = List Text

-- `anyhow!(message)`
abbrev pub anyhow : Text → Error
anyhow message = message ∷ []

-- `.context(message)`
abbrev pub context {ℓ} : {A : Type ℓ} → Text → Result Error A → Result Error A
context message r = map_err (λ e. message ∷ e) r

-- `{e:#}`: the whole chain, joined by ": "
pub display_chain : Error → Text
display_chain [] = []
display_chain (m ∷ []) = m
display_chain (m ∷ rest) = m ++ (codes ": " ++ display_chain rest)

-- `io::ErrorKind`: the code tells end of file from the rest.
pub data ErrorKind : Type 0 where
  unexpected_eof other : ErrorKind

pub record IoError : Type 0 where
  pub kind : ErrorKind
  pub message : Text

-- `io::Error::other(message)`
abbrev pub io_other : Text → IoError
io_other message = record { kind = other; message = message }

abbrev pub is_eof : ErrorKind → Bool
is_eof unexpected_eof = true
is_eof other = false

-- `From<io::Error> for anyhow::Error`
abbrev pub from_io : IoError → Error
from_io e = anyhow e.message

pub Result-cases {ℓ κ} :
    {E : Type ℓ} {A : Type κ} (r : Result E A) → ((a : A) × (r ≡ ok a)) ⊎ ((e : E) × (r ≡ err e))
Result-cases (ok a) = inl (a, refl)
Result-cases (err e) = inr (e, refl)
