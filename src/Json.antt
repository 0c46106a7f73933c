-- ===== src/Json.antt =====
-- Go's package encoding/json on flat objects, a parameter of the model, and what the program relies on.
use agent_cortex.Prelude.{
  ◌≡◌, Bool, true, false, Bytes, bytes_eq, List, [], ◌∷◌, Option, none, some, All, if◌then◌else◌,
  leb, ◌==◌, ◌&&◌, ◌||◌,
}
use agent_cortex.Strings.Search.{Free}
use agent_cortex.Strings.Trim.{IsTrimmed}
use agent_cortex.Errors.{Error, Result, ok, err}

pub data Value : Type 0 where
  text : Bytes → Value
  flag : Bool → Value
  null : Value
  other : Value

abbrev pub Object : Type 0
Object = List (Bytes × Value)

unfoldable pub member_of : Bytes → Object → Option Value
member_of name [] = none
member_of name ((k, v) ∷ o) = if bytes_eq k name then some v else member_of name o

-- `Marshal` of a struct with its fields' names; what `Unmarshal` finds for a field of a struct, or its
-- error where the data is no object; the error for a value of another type; and whether a text is UTF-8.
pub record Json : Type 0 where
  pub marshal : Object → Bytes
  pub member : Bytes → Bytes → Result (Option Value)
  pub type_error : Error
  pub is_utf8 : Bytes → Bool

abbrev pub IsUtf8 : Json → Value → Type 0
IsUtf8 j (text t) = j.is_utf8 t ≡ true
IsUtf8 j (flag b) = Unit
IsUtf8 j null = Unit
IsUtf8 j other = Unit

-- The names that the program's structs carry: lower case letters and `_`.
abbrev pub is_field_name : Bytes → Bool
is_field_name [] = true
is_field_name (b ∷ bs) = ((leb b'a' b && leb b b'z') || (b == b'_')) && is_field_name bs

unset : Option Value → Bool
unset none = true
unset (some v) = false

-- An object with such names, of which none stands twice. `Unmarshal` ignores the case of a name and takes the
-- last of two equal ones, which makes no difference here.
unfoldable pub is_struct : Object → Bool
unfolding unset member_of
is_struct [] = true
is_struct ((k, v) ∷ o) = is_field_name k && (unset (member_of k o) && is_struct o)

-- An object is one line, from its brace to its brace, and the UTF-8 texts of a struct are read back.
pub record IsLawful (j : Json) : Type 0 where
  pub member-marshal :
      (o : Object) (name : Bytes)
      → is_struct o ≡ true
      → is_field_name name ≡ true
      → All (λ (m : Bytes × Value). IsUtf8 j m.1) o
      → j.member (j.marshal o) name ≡ ok (member_of name o)
  pub marshal-IsTrimmed : (o : Object) → IsTrimmed (j.marshal o)
  pub marshal-Free : (o : Object) → Free b'\n' (j.marshal o)

-- What a string field of a struct becomes.
abbrev pub as_text : Json → Option Value → Result Bytes
as_text j none = ok []
as_text j (some (text t)) = ok t
as_text j (some null) = ok []
as_text j (some (flag b)) = err j.type_error
as_text j (some other) = err j.type_error

-- What a bool field of a struct becomes.
abbrev pub as_flag : Json → Option Value → Result Bool
as_flag j none = ok false
as_flag j (some (flag b)) = ok b
as_flag j (some null) = ok false
as_flag j (some (text t)) = err j.type_error
as_flag j (some other) = err j.type_error
