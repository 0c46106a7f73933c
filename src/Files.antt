-- ===== src/Files.antt =====
-- internal/utils/markdown.go, on a file system of folders, each with its name, that hold named files.
-- `Faults` says which calls of package os fail in one operation, and with what.
pub mod Laws
use agent_cortex.Prelude.{
  ℕ, Bool, true, false, not, ◌&&◌, ◌||◌, Bytes, bytes_eq, List, [], ◌∷◌, ◌++◌, map, Option, none,
  some, ◌==◌, ◌+◌, leb, if◌then◌else◌, is_some,
}
use agent_cortex.Prelude.Text.{codes}
use agent_cortex.Strings.{is_empty, trim_space, contains, cut_last, take}
use agent_cortex.Errors.{
  Error, Result, ok, err, guard, sentinel, foreign, directory_required, filename_required,
  filename_has_path, filename_extension, file_exists, file_missing, ◌>>=◌, ◌>>◌,
}

pub data Node : Type 0 where
  file : Bytes → Node
  folder : Node

-- What a folder holds, in the order of `os.ReadDir`.
abbrev pub Listing : Type 0
Listing = List (Bytes × Node)

abbrev pub Disk : Type 0
Disk = List (Bytes × Listing)

-- A write that fails has written some of its bytes.
pub record Faults : Type 0 where
  pub read_dir : Option Error
  pub stat : Option Error
  pub read : Bytes → Option Error
  pub make_dir : Option Error
  pub create : Option Error
  pub write_new : Option (ℕ × Error)
  pub open_append : Option Error
  pub write_behind : Option (ℕ × Error)

module _ {ℓ} {V : Type ℓ} where
  unfoldable pub get : Bytes → List (Bytes × V) → Option V
  get k [] = none
  get k ((j, v) ∷ m) = if bytes_eq j k then some v else get k m

  unfoldable pub put : Bytes → V → List (Bytes × V) → List (Bytes × V)
  put k v [] = (k, v) ∷ []
  put k v ((j, w) ∷ m) = if bytes_eq j k then (j, v) ∷ m else (j, w) ∷ put k v m

abbrev pub listing : Option Listing → Listing
listing none = []
listing (some l) = l

abbrev pub node : Bytes → Bytes → Disk → Option Node
node dir name d = get name (listing (get dir d))

abbrev pub put_node : Bytes → Bytes → Node → Disk → Disk
put_node dir name n d = put dir (put name n (listing (get dir d))) d

abbrev pub lower : ℕ → ℕ
lower c = if leb b'A' c && leb c b'Z' then c + 32 else c

-- `filepath.Ext` of a name without slashes.
abbrev pub extension : Bytes → Bytes
extension name = elim (cut_last (codes ".") name) [ none ↦ [] | some p ↦ b'.' ∷ p.1 ]

-- `filepath.Base(filename) == filename`
abbrev pub is_base : Bytes → Bool
is_base name = bytes_eq name (codes "/") || not (contains (codes "/") name)

-- `markdownFilePath`: the folder and the name that it joins.
unfoldable pub markdown_file_path : Bytes → Bytes → Result (Bytes × Bytes)
markdown_file_path dir filename = do
  let d = trim_space dir
  guard (not (is_empty d)) directory_required
  let name = trim_space filename
  guard (not (is_empty name)) filename_required
  guard (is_base name) filename_has_path
  let ext = map lower (extension name)
  guard (bytes_eq ext (codes ".md") || bytes_eq ext (codes ".markdown")) filename_extension
  ok (d, name)

abbrev pub or_fault {ℓ} : {A : Type ℓ} → Option Error → Result A → Result A
or_fault none r = r
or_fault (some e) r = err e

-- `os.ReadFile`
abbrev pub contents : Option Node → Result Bytes
contents none = err (sentinel file_missing)
contents (some folder) = err (foreign (codes "is a directory"))
contents (some (file text)) = ok text

abbrev pub is_file : Option Node → Bool
is_file (some (file text)) = true
is_file _ = false

-- `MarkdownFileExists`
unfoldable pub markdown_file_exists : Faults → Disk → Bytes → Bytes → Result Bool
unfolding markdown_file_path
markdown_file_exists x d dir filename = do
  path ← markdown_file_path dir filename
  or_fault x.stat (ok (is_file (node path.0 path.1 d)))

-- A write of a text behind another: what then stands there, and the error.
abbrev pub written : Option (ℕ × Error) → Bytes → Bytes → Bytes × Result (Unit {0})
written none old text = (old ++ text, ok tt)
written (some (n, e)) old text = (old ++ take n text, err e)

-- `CreateMarkdownFile`, from `os.OpenFile` on
abbrev pub create_new :
    Faults → Disk → Bytes → Bytes → Bytes → Option Node → Disk × Result (Unit {0})
create_new x d dir name text (some n) = (d, err (sentinel file_exists))
create_new x d dir name text none = elim x.create [
  | some e ↦ (d, err e)
  | none ↦ let w = written x.write_new [] text in (put_node dir name (file w.0) d, w.1)
]

-- `os.MkdirAll`
abbrev pub make_dir : Bytes → Disk → Disk
make_dir dir d = put dir (listing (get dir d)) d

abbrev pub create_in : Faults → Disk → Bytes → Bytes × Bytes → Disk × Result (Unit {0})
create_in x d text (dir, name) = elim x.make_dir [
  | some e ↦ (d, err e)
  | none ↦ create_new x (make_dir dir d) dir name text (node dir name d)
]

abbrev pub with_path :
    Disk
    → Result (Bytes × Bytes)
    → (Bytes × Bytes → Disk × Result (Unit {0}))
    → Disk × Result (Unit {0})
with_path d (ok p) f = f p
with_path d (err e) f = (d, err e)

-- `CreateMarkdownFile`
unfoldable pub create_markdown_file :
    Faults → Disk → Bytes → Bytes → Bytes → Disk × Result (Unit {0})
unfolding markdown_file_path
create_markdown_file x d dir filename text =
    with_path d (markdown_file_path dir filename) (create_in x d text)

-- `AppendMarkdownFile`, from `os.OpenFile` on
abbrev pub append_to :
    Faults → Disk → Bytes → Bytes → Bytes → Option Node → Disk × Result (Unit {0})
append_to x d dir name text none = (d, err (sentinel file_missing))
append_to x d dir name text (some folder) = (d, err (foreign (codes "is a directory")))
append_to x d dir name text (some (file old)) = elim x.open_append [
  | some e ↦ (d, err e)
  | none ↦ let w = written x.write_behind old text in (put_node dir name (file w.0) d, w.1)
]

-- `AppendMarkdownFile`
unfoldable pub append_markdown_file :
    Faults → Disk → Bytes → Bytes → Bytes → Disk × Result (Unit {0})
unfolding markdown_file_path
append_markdown_file x d dir filename text =
    with_path d (markdown_file_path dir filename) (λ p. append_to x d p.0 p.1 text (node p.0 p.1 d))
