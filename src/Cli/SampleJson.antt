-- ===== src/Cli/SampleJson.antt =====
-- An encoding of objects that the laws of Json hold of, for the runs of the client: the count of the fields
-- in front, every byte of a text moved up by 200, and a letter for the kind of a value.
use agent_cortex.Prelude.{
  ℕ, zero, suc, ◌+◌, ◌-◌, true, false, Bytes, bytes_eq, [], ◌∷◌, ◌++◌, Option, none, some, length,
  leb, ◌==◌, All-append, ◌≡◌, ◌≢◌, refl, sym, ap, ◌∙◌, arith, if◌then◌else◌,
}
use mathlib.Core.List.{reverse, reverse-append, append_assoc}
use agent_cortex.Prelude.Text.{codes}
use agent_cortex.Strings.{space_width, space_width_back}
use agent_cortex.Strings.Search.{Free}
use agent_cortex.Errors.{Result, ok, err, foreign}
use agent_cortex.Json.{Json, Value, text, flag, null, other, Object, member_of, IsLawful}

lift : Bytes → Bytes
lift [] = []
lift (b ∷ s) = (b + 200) ∷ lift s

word : Bytes → Bytes
word [] = []
word (b ∷ s) = if leb 200 b then (b - 200) ∷ word s else []

behind : Bytes → Bytes
behind [] = []
behind (b ∷ s) = let rest = behind s in if leb 200 b then rest else b ∷ s

rest_of : Bytes → Bytes
rest_of [] = []
rest_of (b ∷ s) = s

put_value : Value → Bytes → Bytes
unfolding lift
put_value (text t) s = b't' ∷ (lift t ++ b';' ∷ s)
put_value (flag true) s = b'T' ∷ s
put_value (flag false) s = b'F' ∷ s
put_value null s = b'n' ∷ s
put_value other s = b'o' ∷ s

get_value : Bytes → Value × Bytes
unfolding word behind rest_of
get_value [] = (null, [])
get_value (c ∷ s) =
    if c == b't'
    then (text (word s), rest_of (behind s))
    else if c == b'T'
    then (flag true, s)
    else if c == b'F'
    then (flag false, s)
    else if c == b'n'
    then (null, s)
    else (other, s)

put_fields : Object → Bytes
unfolding put_value
put_fields [] = b'}' ∷ []
put_fields ((k, v) ∷ o) = lift k ++ put_value v (put_fields o)

find : ℕ → Bytes → Bytes → Option Value
unfolding get_value
find zero name s = none
find (suc n) name s =
    let rest = find n name (get_value (behind s)).1 in
    if bytes_eq (word s) name then some (get_value (behind s)).0 else rest

find_member : Bytes → Bytes → Result (Option Value)
unfolding find
find_member (b ∷ n ∷ s) name = ok (find (n - 200) name s)
find_member s name = err (foreign (codes "no object"))

unfoldable pub sample_json : Json
unfolding put_fields find_member
sample_json = record {
  marshal = λ o. b'{' ∷ (length o + 200) ∷ put_fields o;
  member = find_member;
  type_error = foreign (codes "type");
  is_utf8 = λ t. true;
}

word-lift : (k : Bytes) (c : ℕ) (s : Bytes) → leb 200 c ≡ false → word (lift k ++ c ∷ s) ≡ k
unfolding word lift
word-lift [] c s h = rw (h) refl
word-lift (b ∷ k) c s h = ground (arith, word-lift k c s h)

behind-lift : (k : Bytes) (c : ℕ) (s : Bytes) → leb 200 c ≡ false → behind (lift k ++ c ∷ s) ≡ c ∷ s
unfolding behind lift
behind-lift [] c s h = rw (h) refl
behind-lift (b ∷ k) c s h = ground (arith, behind-lift k c s h)

get-put : (v : Value) (s : Bytes) → get_value (put_value v s) ≡ (v, s)
unfolding get_value put_value rest_of
get-put (text t) s = rw (word-lift t b';' s refl, behind-lift t b';' s refl) refl
get-put (flag true) s = refl
get-put (flag false) s = refl
get-put null s = refl
get-put other s = refl

word-put : (k : Bytes) (v : Value) (s : Bytes) → word (lift k ++ put_value v s) ≡ k
unfolding put_value
word-put k (text t) s = word-lift k b't' _ refl
word-put k (flag true) s = word-lift k b'T' s refl
word-put k (flag false) s = word-lift k b'F' s refl
word-put k null s = word-lift k b'n' s refl
word-put k other s = word-lift k b'o' s refl

behind-put : (k : Bytes) (v : Value) (s : Bytes) → behind (lift k ++ put_value v s) ≡ put_value v s
unfolding put_value
behind-put k (text t) s = behind-lift k b't' _ refl
behind-put k (flag true) s = behind-lift k b'T' s refl
behind-put k (flag false) s = behind-lift k b'F' s refl
behind-put k null s = behind-lift k b'n' s refl
behind-put k other s = behind-lift k b'o' s refl

find-put : (o : Object) (name : Bytes) → find (length o) name (put_fields o) ≡ member_of name o
unfolding find put_fields member_of
find-put [] name = refl
find-put ((k, v) ∷ o) name =
    rw
      (
        word-put k v (put_fields o),
        behind-put k v (put_fields o),
        get-put v (put_fields o),
        find-put o name,
      )
      refl

lift-Free : (k : Bytes) → Free b'\n' (lift k)
unfolding lift
lift-Free [] = tt
lift-Free (b ∷ k) = (omega arith, lift-Free k)

put_value-Free : (v : Value) (s : Bytes) → Free b'\n' s → Free b'\n' (put_value v s)
unfolding put_value
put_value-Free (text t) s h =
    (omega arith, All-append (λ b. b ≢ b'\n') (lift t) (b';' ∷ s) (lift-Free t) (omega arith, h))
put_value-Free (flag true) s h = (omega arith, h)
put_value-Free (flag false) s h = (omega arith, h)
put_value-Free null s h = (omega arith, h)
put_value-Free other s h = (omega arith, h)

put_fields-Free : (o : Object) → Free b'\n' (put_fields o)
unfolding put_fields
put_fields-Free [] = omega arith
put_fields-Free ((k, v) ∷ o) =
    All-append (λ b. b ≢ b'\n') (lift k) (put_value v (put_fields o)) (lift-Free k)
      (put_value-Free v (put_fields o) (put_fields-Free o))

abbrev EndsObject : Bytes → Type 0
EndsObject s = (p : Bytes) × (s ≡ p ++ b'}' ∷ [])

EndsObject-append : (p s : Bytes) → EndsObject s → EndsObject (p ++ s)
EndsObject-append p s (q, e) = (p ++ q, ap (λ r. p ++ r) e ∙ sym (append_assoc p q (b'}' ∷ [])))

put_value-EndsObject : (v : Value) (s : Bytes) → EndsObject s → EndsObject (put_value v s)
unfolding put_value
put_value-EndsObject (text t) s h =
    EndsObject-append (b't' ∷ []) (lift t ++ b';' ∷ s)
      (EndsObject-append (lift t) (b';' ∷ s) (EndsObject-append (b';' ∷ []) s h))
put_value-EndsObject (flag true) s h = EndsObject-append (b'T' ∷ []) s h
put_value-EndsObject (flag false) s h = EndsObject-append (b'F' ∷ []) s h
put_value-EndsObject null s h = EndsObject-append (b'n' ∷ []) s h
put_value-EndsObject other s h = EndsObject-append (b'o' ∷ []) s h

put_fields-EndsObject : (o : Object) → EndsObject (put_fields o)
unfolding put_fields
put_fields-EndsObject [] = ([], refl)
put_fields-EndsObject ((k, v) ∷ o) =
    EndsObject-append (lift k) (put_value v (put_fields o))
      (put_value-EndsObject v (put_fields o) (put_fields-EndsObject o))

back-brace : (s : Bytes) → space_width_back (b'}' ∷ s) ≡ 0
unfolding space_width_back
back-brace [] = refl
back-brace (a ∷ []) = ground arith
back-brace (a ∷ b ∷ s) = ground arith

EndsObject-last : (s : Bytes) → EndsObject s → space_width_back (reverse s) ≡ 0
EndsObject-last s (p, e) =
    ap (λ r. space_width_back (reverse r)) e
    ∙ ap space_width_back (reverse-append p (b'}' ∷ []))
    ∙ back-brace (reverse p)

head-brace : (n : ℕ) (s : Bytes) → space_width (b'{' ∷ (n + 200) ∷ s) ≡ 0
unfolding space_width
head-brace n [] = ground arith
head-brace n (b ∷ s) = ground arith

pub sample_json-IsLawful : IsLawful sample_json
unfolding sample_json find_member
sample_json-IsLawful = record {
  member-marshal = λ o name k l h.
      let e : length o + 200 - 200 ≡ length o = omega arith in
      ap (λ (n : ℕ). ok (find n name (put_fields o))) e
      ∙ ap (λ (r : Option Value). ok r) (find-put o name);
  marshal-IsTrimmed = λ o. record {
    filled = λ e. cc (e);
    head = head-brace (length o) (put_fields o);
    last =
        EndsObject-last (b'{' ∷ (length o + 200) ∷ put_fields o) (
          EndsObject-append (b'{' ∷ (length o + 200) ∷ []) (put_fields o)
            (put_fields-EndsObject o));
  };
  marshal-Free = λ o. (omega arith, (omega arith, put_fields-Free o));
}
