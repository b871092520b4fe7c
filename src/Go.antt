-- ===== src/Go.antt =====
-- What the program takes from Go's runtime and from third-party packages: parameters of the model.
-- Errors are values with the sentinel that `errors.Is` looks for.
use truebearing.Base.{ℕ, ℤ, String, ◌≡◌, ◌≢◌, refl, ap, ◌⊎◌, inl, inr, Bool, List, [], ◌∷◌}
use Prim.Native.String.{◌++◌ as append}

-- A `float64` by its bit pattern.
pub record Float64 : Type 0 where
  pub bits : ℕ

abbrev pub zero_float : Float64
zero_float = record { bits = 0 }

-- A scalar that the YAML parser put into an `interface{}`.
pub data Value : Type 0 where
  float64 : Float64 → Value
  int : ℤ → Value
  int64 : ℤ → Value
  float32 : ℕ → Value
  other : String → Value

-- A `gjson.Result`: whether the path is there, and its value as text and as a number.
pub record GjsonResult : Type 0 where
  pub exists : Bool
  pub text : String
  pub number : Float64

-- `errors.Is` distinguishes these from all other errors.
pub data ErrorKind : Type 0 where
  plain no_rows parent_agent_not_found : ErrorKind

pub record GoError : Type 0 where
  pub kind : ErrorKind
  pub message : String

pub data Result {ℓ} (A : Type ℓ) : Type ℓ where
  ok : A → Result A
  err : GoError → Result A

pub Result-cases {ℓ} :
    {A : Type ℓ} → (r : Result A) → ((a : A) × (r ≡ ok a)) ⊎ ((e : GoError) × (r ≡ err e))
Result-cases (ok a) = inl (a, refl)
Result-cases (err e) = inr (e, refl)

abbrev value_or {ℓ} : {A : Type ℓ} → A → Result A → A
value_or a (ok b) = b
value_or a (err e) = a

pub ok-injective {ℓ} : {A : Type ℓ} {a b : A} → ok a ≡ ok b → a ≡ b
ok-injective {a = a} e = ap (value_or a) e

pub ok-not-err {ℓ} : {A : Type ℓ} {a : A} {e : GoError} → err e ≢ ok a
ok-not-err h = cc

infixl 10 ◌>>=◌
abbrev pub ◌>>=◌ {ℓ κ} : {A : Type ℓ} {B : Type κ} → Result A → (A → Result B) → Result B
ok a >>= f = f a
err e >>= f = err e

-- `fmt` verbs, package `strings`, float arithmetic, gjson, `regexp`, SHA-256 in hex, JSON.
pub record Runtime : Type 0 where
  pub quote : String → String
  pub show_int : ℤ → String
  pub show_float : Float64 → String
  pub show_value : Value → String
  pub join : List String → String → String
  pub has_suffix : String → String → Bool
  pub has_substring : String → String → Bool
  pub trim_prefix : String → String → String
  pub trim_suffix : String → String → String
  pub float_lt : Float64 → Float64 → Bool
  pub float_le : Float64 → Float64 → Bool
  pub float_eq : Float64 → Float64 → Bool
  pub float_add : Float64 → Float64 → Float64
  pub float_of_int : ℤ → Float64
  pub float_of_float32 : ℕ → Float64
  pub gjson_get : String → String → GjsonResult
  pub regexp_compile : String → Result (String → Bool)
  pub sha256_hex : String → String
  pub decode_tools : String → Result (List String)
  pub has_prefix : String → String → Bool
  pub split : String → String → List String
  pub rfc3339 : ℤ → String

-- The text that `fmt.Sprintf` makes of its literal and formatted parts.
unfoldable pub text : List String → String
text [] = ""
text (s ∷ parts) = append s (text parts)

-- `fmt.Errorf` with and without `%w`.
abbrev pub errorf : List String → GoError
errorf parts = record { kind = plain; message = text parts }

abbrev pub wrapf : List String → GoError → GoError
wrapf parts e = record { kind = e.kind; message = append (text parts) e.message }
