-- ===== src/Files/Laws.antt =====
-- internal/utils/markdown.go: what a file holds after the calls that write it.
use agent_cortex.Prelude.{
  ℕ, ◌≡◌, refl, Bytes, bytes_eq, bytes_eq_iff, bytes_eq_self, List, [], ◌∷◌, ◌++◌, none, some,
  false, if◌then◌else◌, arith, Option-cases, inl, inr, ◌⊎◌,
}
use agent_cortex.Errors.{Error, ok, err, file_exists, is_error}
use agent_cortex.Files.{
  Node, file, Disk, Faults, listing, node, put_node, append_to, create_in, make_dir, get, put,
}

module _ {ℓ} {V : Type ℓ} where
  pub get-put :
      (k j : Bytes) (v : V) (m : List (Bytes × V))
      → get j (put k v m) ≡ (if bytes_eq k j then some v else get j m)
  unfolding get put
  get-put k j v [] = refl
  get-put k j v ((i, w) ∷ m) =
      ground (arith, bytes_eq_iff k j, bytes_eq_iff i k, bytes_eq_iff i j, get-put k j v m)

  pub get-put_self : (k : Bytes) (v : V) (m : List (Bytes × V)) → get k (put k v m) ≡ some v
  get-put_self k v m = ground (arith, get-put k k v m, bytes_eq_self k)

pub node-put_node :
    (dir name : Bytes) (n : Node) (d : Disk) → node dir name (put_node dir name n d) ≡ some n
node-put_node dir name n d =
    rw (get-put_self dir (put name n (listing (get dir d))) d)
      (get-put_self name n (listing (get dir d)))

-- What an append that succeeds leaves.
pub append_to-ok :
    (x : Faults) (d d' : Disk) (dir name old text : Bytes)
    → append_to x d dir name text (some (file old)) ≡ (d', ok tt)
    → d' ≡ put_node dir name (file (old ++ text)) d
append_to-ok x d d' dir name old text h = elim (Option-cases x.open_append) [
  | inr (e, a) ↦ ground (arith, a, h)
  | inl a ↦ elim (Option-cases x.write_behind) [
    | inr (e, b) ↦ ground (arith, a, b, h)
    | inl b ↦ ground (arith, a, b, h)
  ]
]

pub create_in-ok :
    (x : Faults) (d d' : Disk) (dir name text : Bytes)
    → node dir name d ≡ none
    → create_in x d text (dir, name) ≡ (d', ok tt)
    → d' ≡ put_node dir name (file text) (make_dir dir d)
create_in-ok x d d' dir name text n h = elim (Option-cases x.make_dir) [
  | inr (e, a) ↦ ground (arith, n, a, h)
  | inl a ↦ elim (Option-cases x.create) [
    | inr (e, b) ↦ ground (arith, n, a, b, h)
    | inl b ↦ elim (Option-cases x.write_new) [
      | inr (e, c) ↦ ground (arith, n, a, b, c, h)
      | inl c ↦ ground (arith, n, a, b, c, h)
    ]
  ]
]

-- A failure to make a file that is not there either does not say that the file exists, or leaves no file.
pub create_in-err :
    (x : Faults) (d d' : Disk) (dir name text : Bytes) (e : Error)
    → ((k : ℕ) (w : Error) → x.write_new ≡ some (k, w) → is_error w file_exists ≡ false)
    → node dir name d ≡ none
    → create_in x d text (dir, name) ≡ (d', err e)
    → (is_error e file_exists ≡ false) ⊎ (node dir name d' ≡ none)
create_in-err x d d' dir name text e plain n h =
    let still : node dir name (make_dir dir d) ≡ none =
      rw (get-put_self dir (listing (get dir d)) d) n in
    elim (Option-cases x.make_dir) [
      | inr (e, a) ↦ inr (ground (arith, n, a, h))
      | inl a ↦ elim (Option-cases x.create) [
        | inr (e, b) ↦ inr (ground (arith, n, a, b, h, still))
        | inl b ↦ elim (Option-cases x.write_new) [
          | inr ((k, w), c) ↦ inl (ground (arith, n, a, b, c, h, plain k w c))
          | inl c ↦ absurd (ground (arith, n, a, b, c, h))
        ]
      ]
    ]
