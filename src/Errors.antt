-- ===== src/Errors.antt =====
-- The errors of internal/memory/errors.go, internal/embedding/errors.go, internal/model/errors.go,
-- internal/utils/errors.go, internal/transport/http/errors.go and internal/cli/client/errors.go. An error is what `errors.Is` finds in
-- it and its text; `errors.Join` puts two together.
use agent_cortex.Prelude.{
  if◌then◌else◌, ◌≡◌, refl, ℕ, Bool, true, false, ◌||◌, Bytes, List, [], ◌∷◌, ◌++◌, Option, none,
  some, ◌==◌,
}
use agent_cortex.Prelude.Text.{codes}

pub data Sentinel : Type 0 where
  invalid_embedding invalid_embedding_value memory_conflict nil_backend : Sentinel
  unsupported_backend : Sentinel
  invalid_embedding_config unknown_embedding_provider empty_input invalid_vector : Sentinel
  invalid_vector_value embedding_unavailable : Sentinel
  invalid_model_config unknown_model_provider invalid_request empty_messages : Sentinel
  model_unavailable invalid_response : Sentinel
  directory_required filename_required filename_has_path filename_extension : Sentinel
  memory_markdown : Sentinel
  file_exists file_missing : Sentinel
  endpoint_required stream_request_failed stream_event_error unknown_event_type : Sentinel

abbrev pub number : Sentinel → ℕ
number invalid_embedding = 0
number invalid_embedding_value = 1
number memory_conflict = 2
number nil_backend = 3
number unsupported_backend = 4
number invalid_embedding_config = 5
number unknown_embedding_provider = 6
number empty_input = 7
number invalid_vector = 8
number invalid_vector_value = 9
number embedding_unavailable = 10
number invalid_model_config = 11
number unknown_model_provider = 12
number invalid_request = 13
number empty_messages = 14
number model_unavailable = 15
number invalid_response = 16
number directory_required = 17
number filename_required = 18
number filename_has_path = 19
number filename_extension = 20
number memory_markdown = 21
number file_exists = 22
number file_missing = 23
number endpoint_required = 24
number stream_request_failed = 25
number stream_event_error = 26
number unknown_event_type = 27

pub record Error : Type 0 where
  pub causes : List Sentinel
  pub text : Bytes

-- The texts of `errors.New`; those of `file_exists` and `file_missing` are the operating system's.
abbrev pub text_of : Sentinel → Bytes
text_of invalid_embedding = codes "embedding must contain exactly 4 values"
text_of invalid_embedding_value = codes "embedding values must be finite"
text_of memory_conflict = codes "memory id conflicts with existing content"
text_of nil_backend = codes "memory backend is nil"
text_of unsupported_backend = codes "unsupported memory storage backend"
text_of invalid_embedding_config = codes "invalid embedding config"
text_of unknown_embedding_provider = codes "unknown embedding provider"
text_of empty_input = codes "embedding input is empty"
text_of invalid_vector = codes "invalid embedding vector"
text_of invalid_vector_value = codes "embedding vector values must be finite"
text_of embedding_unavailable = codes "embedding provider is unavailable"
text_of invalid_model_config = codes "invalid model config"
text_of unknown_model_provider = codes "unknown model provider"
text_of invalid_request = codes "invalid model request"
text_of empty_messages = codes "model messages are empty"
text_of model_unavailable = codes "model provider is unavailable"
text_of invalid_response = codes "invalid model response"
text_of directory_required = codes "markdown directory is required"
text_of filename_required = codes "markdown filename is required"
text_of filename_has_path = codes "markdown filename must not include path separators"
text_of filename_extension = codes "markdown filename must end with .md or .markdown"
text_of memory_markdown = codes "memory markdown error"
text_of file_exists = codes "file already exists"
text_of file_missing = codes "file does not exist"
text_of endpoint_required = codes "server endpoint is required"
text_of stream_request_failed = codes "qa stream request failed"
text_of stream_event_error = codes "qa stream event error"
text_of unknown_event_type = codes "unknown event type"

-- An error of one cause.
abbrev pub sentinel : Sentinel → Error
sentinel s = record { causes = s ∷ []; text = text_of s }

-- An error of a library, which no test of the program names.
abbrev pub foreign : Bytes → Error
foreign t = record { causes = []; text = t }

-- `errors.Join`
abbrev pub join : Error → Error → Error
join a b = record { causes = a.causes ++ b.causes; text = a.text ++ b'\n' ∷ b.text }

abbrev pub has_cause : ℕ → List Sentinel → Bool
has_cause n [] = false
has_cause n (c ∷ cs) = (number c == n) || has_cause n cs

-- `errors.Is`
abbrev pub is_error : Error → Sentinel → Bool
is_error e s = has_cause (number s) e.causes

-- What a function with an error result returns.
pub data Result {ℓ} (V : Type ℓ) : Type ℓ where
  err : Error → Result V
  ok : V → Result V

-- The error of a failed call joined behind `ErrMemoryMarkdown`.
abbrev pub as_markdown_error {ℓ} : {A : Type ℓ} → Result A → Result A
as_markdown_error (ok a) = ok a
as_markdown_error (err e) = err (join (sentinel memory_markdown) e)

-- A missing value is an `ErrMemoryMarkdown`.
abbrev pub required {ℓ} : {A : Type ℓ} → Option A → Result A
required none = err (sentinel memory_markdown)
required (some a) = ok a

module _ {ℓ κ} {V : Type ℓ} {W : Type κ} where
  infixl 5 ◌>>=◌
  -- `if err != nil { return err }`
  abbrev pub ◌>>=◌ : Result V → (V → Result W) → Result W
  err e >>= next = err e
  ok v >>= next = next v

  -- A chain that succeeds has succeeded at every step.
  pub >>=-eq-ok :
      (first : Result V) (next : V → Result W) {w : W}
      → (first >>= next) ≡ ok w
      → (v : V) × (first ≡ ok v) × (next v ≡ ok w)
  >>=-eq-ok (err e) next ends = cc
  >>=-eq-ok (ok v) next ends = (v, refl, ends)

module _ {ℓ} {W : Type ℓ} where
  infixl 5 ◌>>◌
  abbrev pub ◌>>◌ : Result (Unit {0}) → Result W → Result W
  err e >> next = err e
  ok _ >> next = next

  pub >>-eq-ok :
      (first : Result (Unit {0})) (next : Result W) {w : W}
      → (first >> next) ≡ ok w
      → (first ≡ ok tt) × (next ≡ ok w)
  >>-eq-ok (err e) next ends = cc
  >>-eq-ok (ok _) next ends = (refl, ends)

abbrev pub guard : Bool → Sentinel → Result (Unit {0})
guard test s = if test then ok tt else err (sentinel s)

pub guard-eq-ok {ℓ} :
    {W : Type ℓ} (test : Bool) (s : Sentinel) (next : Result W) {w : W}
    → (guard test s >> next) ≡ ok w
    → (test ≡ true) × (next ≡ ok w)
guard-eq-ok false s next ends = cc
guard-eq-ok true s next ends = (refl, ends)
