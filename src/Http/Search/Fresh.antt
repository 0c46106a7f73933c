-- ===== src/Http/Search/Fresh.antt =====
-- internal/transport/http/handler.go, `replaceSearchContentFromMarkdown`: what the results then show.
use agent_cortex.Prelude.{
  Bool, true, false, ◌||◌, Bytes, bytes_eq_iff, List, [], ◌∷◌, map, Option, none, some, All,
  All-map, ◌≡◌, refl, sym, ◌∙◌, ◌⊎◌, inl, inr, arith, Bool-cases,
}
use mathlib.Core.Path.{subst}
use agent_cortex.Errors.{Result, ok, err}
use agent_cortex.TimeFormat.{TimeFormat}
use agent_cortex.Memory.{SearchResult}
use agent_cortex.Files.{Disk, Faults}
use agent_cortex.Http.Markdown.{Entry}
use agent_cortex.Http.Markdown.Parser.{done, ◌>>=◌, must, parsed, Entries, entry_of}
use agent_cortex.Http.Markdown.Reads.{>>=-eq-done}
use agent_cortex.Http.MemoryFiles.{read_entries}
use agent_cortex.Http.Search.{
  Place, Located, same_place, locate_all, replace_one, replace_on, replace_places, replace_content,
}

parsed_done {ℓ} : {A : Type ℓ} (r : Result A) {a : A} → parsed r ≡ done a → r ≡ ok a
parsed_done (ok a) h = cc
parsed_done (err e) h = cc

-- Whether a file is still to be visited.
unfoldable pub is_among : Place → List Place → Bool
is_among q [] = false
is_among q (p ∷ ps) = same_place q p || is_among q ps

same_place-eq : (q p : Place) → same_place q p ≡ true → q ≡ p
same_place-eq (a, b) (c, e) h =
    let l : a ≡ c = ground (arith, h, bytes_eq_iff a c) in
    let r : b ≡ e = ground (arith, h, bytes_eq_iff b e) in cc (l, r)

-- What a result keeps: its file, and all but the content.
abbrev pub key : Located → Located
key (p, r) = (p, record r { content = [] })

module _ (f : TimeFormat) (x : Faults) (d : Disk) where
  -- The content is that of the entry with the result's identifier, in the file of its day.
  abbrev pub IsFresh : Located → Type 0
  IsFresh (p, r) =
      (es : Entries) × (e : Entry) × (read_entries f x d p.0 p.1 ≡ done es)
      × (entry_of r.id es ≡ some e)
      × (r.content ≡ e.content)

  abbrev IsPending : List Place → Located → Type 0
  IsPending ps l = IsFresh l ⊎ (is_among l.0 ps ≡ true)

  taken :
      (o : Option Entry) (q : Place) (r : SearchResult) (l' : Located)
      → must o >>= (λ e. done (q, record r { content = e.content })) ≡ done l'
      → (e : Entry) × (o ≡ some e) × (l' ≡ (q, record r { content = e.content }))
  taken none q r l' h = cc (h)
  taken (some e) q r l' h = (e, refl, ground (arith, h))

  replace_one-IsPending :
      (p : Place) (ps : List Place) (es : Entries) (l l' : Located)
      → read_entries f x d p.0 p.1 ≡ done es
      → IsPending (p ∷ ps) l
      → replace_one p es l ≡ done l'
      → IsPending ps l' × (key l' ≡ key l)
  unfolding is_among
  replace_one-IsPending p ps es (q, r) l' n h w = elim (Bool-cases (same_place q p)) [
    | inl s ↦
        let ran : replace_one p es (q, r)
            ≡ must (entry_of r.id es) >>= (λ e. done (q, record r { content = e.content })) =
          rw (s) refl in
        let (e, o, is) = taken (entry_of r.id es) q r l' (sym ran ∙ w) in
        let read : read_entries f x d q.0 q.1 ≡ done es =
          subst (λ y. read_entries f x d y.0 y.1 ≡ done es) (sym (same_place-eq q p s)) n in
        subst (λ y. IsPending ps y × (key y ≡ key (q, r))) (sym is)
          (inl (es, e, read, o, refl), refl)
    | inr s ↦
        let ran : replace_one p es (q, r) ≡ done (q, r) = rw (s) refl in
        let is : (q, r) ≡ l' = ground (arith, ran, w) in
        subst (λ y. IsPending ps y × (key y ≡ key (q, r))) is (still h s, refl)
  ]
    where
      still : IsPending (p ∷ ps) (q, r) → same_place q p ≡ false → IsPending ps (q, r)
      still (inl a) s = inl a
      still (inr a) s = inr (ground (arith, a, s))

  replace_on-IsPending :
      (p : Place) (ps : List Place) (es : Entries) (ls ls' : List Located)
      → read_entries f x d p.0 p.1 ≡ done es
      → All (IsPending (p ∷ ps)) ls
      → replace_on p es ls ≡ done ls'
      → All (IsPending ps) ls' × (map key ls' ≡ map key ls)
  unfolding replace_on
  replace_on-IsPending p ps es [] ls' n h w =
      let is : [] ≡ ls' = ground (arith, w) in
      subst (λ ys. All (IsPending ps) ys × (map key ys ≡ [])) is (tt, refl)
  replace_on-IsPending p ps es (l ∷ ls) ls' n h w =
      let (l2, a, w2) = >>=-eq-done (replace_one p es l) _ w in
      let (ls2, b, w3) = >>=-eq-done (replace_on p es ls) _ w2 in
      let one = replace_one-IsPending p ps es l l2 n h.0 a in
      let rest = replace_on-IsPending p ps es ls ls2 n h.1 b in
      let is : l2 ∷ ls2 ≡ ls' = ground (arith, w3) in
      subst (λ ys. All (IsPending ps) ys × (map key ys ≡ key l ∷ map key ls)) is
        ((one.0, rest.0), cc (one.1, rest.1))

  settled : (l : Located) → IsPending [] l → IsFresh l
  unfolding is_among
  settled l (inl a) = a
  settled l (inr a) = cc (a)

  replace_places-IsFresh :
      (ps : List Place) (ls ls' : List Located)
      → All (IsPending ps) ls
      → replace_places f x d ps ls ≡ done ls'
      → All IsFresh ls' × (map key ls' ≡ map key ls)
  unfolding replace_places is_among
  replace_places-IsFresh [] ls ls' h w =
      let is : ls ≡ ls' = ground (arith, w) in
      subst (λ ys. All IsFresh ys × (map key ys ≡ map key ls)) is
        (All-map (IsPending []) IsFresh ls settled h, refl)
  replace_places-IsFresh (p ∷ ps) ls ls' h w =
      let (es, n, w2) = >>=-eq-done (read_entries f x d p.0 p.1) _ w in
      let (ls2, a, w3) = >>=-eq-done (replace_on p es ls) _ w2 in
      let on = replace_on-IsPending p ps es ls ls2 n h a in
      let rest = replace_places-IsFresh ps ls2 ls' on.0 w3 in (rest.0, rest.1 ∙ on.1)

  All-IsPending :
      (ps : List Place) (ls : List Located)
      → All (λ (l : Located). is_among l.0 ps ≡ true) ls
      → All (IsPending ps) ls
  All-IsPending ps ls h = All-map _ (IsPending ps) ls (λ l a. inr a) h

  -- When the contents of the results are replaced, in whatever order the files of their days are
  -- visited, as long as each of them is: every result shows the content of the entry with its
  -- identifier in the file of its day, and the results keep their number, order, identifiers, distances
  -- and times.
  pub replace_content-IsFresh :
      (base : Bytes) (order : List Place → List Place) (user_id agent_id : Bytes)
      (rs rs' : List SearchResult)
      → ((ls : List Located)
          → All (λ (l : Located). is_among l.0 (order (map (λ k. k.0) ls)) ≡ true) ls)
      → replace_content f x d base order user_id agent_id rs ≡ done rs'
      → (ls : List Located) × (ls' : List Located) × (locate_all f base user_id agent_id rs ≡ ok ls)
        × (map key ls' ≡ map key ls)
        × (map (λ l. l.1) ls' ≡ rs')
        × All IsFresh ls'
  unfolding replace_content
  replace_content-IsFresh base order user_id agent_id rs rs' visits w =
      let (ls, a, w2) = >>=-eq-done (parsed (locate_all f base user_id agent_id rs)) _ w in
      let (ls', b, w3) = >>=-eq-done (replace_places f x d (order (map (λ k. k.0) ls)) ls) _ w2 in
      let fresh =
        replace_places-IsFresh (order (map (λ k. k.0) ls)) ls ls'
          (All-IsPending (order (map (λ k. k.0) ls)) ls (visits ls)) b in
      (
        ls,
        ls',
        parsed_done (locate_all f base user_id agent_id rs) a,
        fresh.1,
        ground (arith, w3),
        fresh.0,
      )
