-- ===== src/Recovery/Value.antt =====
-- JSON values, and the readers of them (src/application/services/payment_recovery_snapshot.py). A text
-- is the list of its code points.
use Prim.Native.Char.{code}
use Prim.Native.String.{String}
use text.Mathlib.Text.{◌==◌ as str_eq}
use remnashop.Prelude.{
  ℕ, Bool, true, false, ◌&&◌, ◌||◌, Option, none, some, List, [], ◌∷◌, ◌==◌, leb, if◌then◌else◌,
}
use remnashop.Prelude.Result.{Result, ok, err, ◌>>=◌}

mutual
  -- the items of a dict, in order
  pub data Entries : Type 0 where
    no_entries : Entries
    entry : String → JsonValue → Entries → Entries

  pub data Elements : Type 0 where
    no_elements : Elements
    element : JsonValue → Elements → Elements

  -- an integer is `int n`, or below zero `negative n`
  pub data JsonValue : Type 0 where
    null : JsonValue
    bool : Bool → JsonValue
    str : List ℕ → JsonValue
    int negative : ℕ → JsonValue
    dict : Entries → JsonValue
    array : Elements → JsonValue

-- `InvalidPaymentRecoverySnapshotError`
pub data SnapshotError : Type 0 where
  invalid : SnapshotError

abbrev pub code_points : String → List ℕ
code_points String.[] = []
code_points (String.◌∷◌ c s) = code c ∷ code_points s

abbrev pub text_eq : List ℕ → List ℕ → Bool
text_eq [] [] = true
text_eq [] (b ∷ t) = false
text_eq (a ∷ s) [] = false
text_eq (a ∷ s) (b ∷ t) = a == b && text_eq s t

abbrev pub is_empty : List ℕ → Bool
is_empty [] = true
is_empty (a ∷ s) = false

abbrev pub require : Bool → Result SnapshotError Unit
require b = if b then ok tt else err invalid

-- `value[key]`
abbrev pub get : String → Entries → Result SnapshotError JsonValue
get key no_entries = err invalid
get key (entry k v rest) = let found = get key rest in if str_eq k key then ok v else found

abbrev is_listed : String → List String → Bool
is_listed key [] = false
is_listed key (k ∷ keys) = str_eq k key || is_listed key keys

abbrev has_key : String → Entries → Bool
has_key key no_entries = false
has_key key (entry k v rest) = str_eq k key || has_key key rest

abbrev all_listed : List String → Entries → Bool
all_listed keys no_entries = true
all_listed keys (entry k v rest) = is_listed k keys && all_listed keys rest

abbrev has_all : List String → Entries → Bool
has_all [] fields = true
has_all (k ∷ keys) fields = has_key k fields && has_all keys fields

-- `set(value) == {...}`
abbrev pub has_shape : List String → Entries → Bool
has_shape keys fields = all_listed keys fields && has_all keys fields

-- `_strict_int`
unfoldable pub strict_int : ℕ → JsonValue → Result SnapshotError ℕ
strict_int minimum (int n) = if leb minimum n then ok n else err invalid
strict_int minimum _ = err invalid

-- `_strict_str`, where an empty text is not allowed
unfoldable pub strict_str : JsonValue → Result SnapshotError (List ℕ)
strict_str (str s) = if is_empty s then err invalid else ok s
strict_str _ = err invalid

-- `_optional_str`
unfoldable pub optional_str : JsonValue → Result SnapshotError (Option (List ℕ))
unfolding strict_str
optional_str null = ok none
optional_str v = do s ← strict_str v; ok (some s)

-- `_object`
unfoldable pub object : JsonValue → Result SnapshotError Entries
object (dict fields) = ok fields
object _ = err invalid

abbrev pub strict_bool : JsonValue → Result SnapshotError Bool
strict_bool (bool b) = ok b
strict_bool _ = err invalid

-- whether Python takes the value for false
abbrev pub is_falsy : JsonValue → Bool
is_falsy null = true
is_falsy (bool b) = if b then false else true
is_falsy (int n) = n == 0
is_falsy (negative n) = false
is_falsy (str s) = is_empty s
is_falsy (array no_elements) = true
is_falsy (array (element v vs)) = false
is_falsy (dict no_entries) = true
is_falsy (dict (entry k v fs)) = false

-- what a conversion gives, an exception being none
abbrev pub converted : {A : Type 0} → Option A → Result SnapshotError A
converted none = err invalid
converted (some a) = ok a
