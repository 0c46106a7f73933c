-- ===== src/Http/Samples.antt =====
-- Sample data for the runs of the handlers: a time format of one second, a storage in memory, a memory.
use agent_cortex.Prelude.{
  Bytes, bytes_eq, List, [], ◌∷◌, map, Option, none, some, if◌then◌else◌, ◌≡◌, refl, sym, ◌++◌,
  arith,
}
use agent_cortex.Prelude.Int.{pos, eqb_ℤ}
use agent_cortex.Prelude.Text.{codes}
use agent_cortex.Strings.{
  trim_space, trim_right, trim_from, trim_left, space_width, space_width_back, contains_any,
  has_byte, seek, after_prefix,
}
use agent_cortex.Decimal.{itoa, digits}
use mathlib.Core.Path.{subst}
use agent_cortex.RateLimit.Types.{Time}
use agent_cortex.Errors.{ok}
use agent_cortex.TimeFormat.{TimeFormat, IsLawful}
use agent_cortex.Memory.{Memory, SearchResult, Backend}
use agent_cortex.Files.{Disk, Faults, file}
use agent_cortex.Http.Ids.{is_marker_id, is_path_id, all_path_bytes}
use agent_cortex.Http.Markdown.{framed, payload, preamble, separator}
use agent_cortex.Http.Markdown.Parser.{Entries, done, entries_by_id}
use agent_cortex.Http.Markdown.Append.{entry_for}
use agent_cortex.Http.Markdown.Frame.{IsMarkerId}
use agent_cortex.Http.Markdown.RoundTrip.{entries_by_id-new, new_content_ok}

abbrev pub noon : Time
noon = pos 1767355200000000000

abbrev pub noon_text : Bytes
noon_text = codes "2026-01-02T12:00:00Z"

abbrev pub day_text : Bytes
day_text = codes "2026-01-02"

abbrev pub format : TimeFormat
format = record {
  rfc3339 = λ t. noon_text;
  parse_rfc3339 = λ s. if bytes_eq s noon_text then some noon else none;
  date = λ t. day_text;
  is_date = λ s. bytes_eq s day_text;
  to_second = λ t. noon;
  in_years = λ t. eqb_ℤ t noon;
}

pub format-IsLawful : IsLawful format
unfolding bytes_eq space_width space_width_back
format-IsLawful = record {
  parse-rfc3339 = λ t h. refl;
  rfc3339-to_second = λ t. refl;
  date-to_second = λ t. refl;
  rfc3339-IsTrimmed = λ t h. record { filled = λ e. cc (e); head = refl; last = refl };
  rfc3339-Free = λ t h. omega arith;
  is_date-date = λ t h. refl;
}

-- A storage that holds its memories in a list.
abbrev pub find_memory : List Memory → Bytes → Option Memory
find_memory [] id = none
find_memory (m ∷ ms) id = if bytes_eq m.id id then some m else find_memory ms id

abbrev pub hit : Memory → SearchResult
hit m = record { id = m.id; content = m.content; distance = 0; recorded_at = m.recorded_at }

abbrev pub backend : Backend
backend = record {
  State = List Memory;
  save = λ s m. (m ∷ s, ok tt);
  find_by_id = λ s id. ok (find_memory s id);
  search = λ s agent_id user_id v limit. ok (map hit s);
}

abbrev pub no_faults : Faults
no_faults = record {
  read_dir = none;
  stat = none;
  read = λ name. none;
  make_dir = none;
  create = none;
  write_new = none;
  open_append = none;
  write_behind = none;
}

abbrev pub base : Bytes
base = codes ".memory"

abbrev pub folder_name : Bytes
folder_name = codes ".memory/u1/a1"

abbrev pub file_name : Bytes
file_name = codes "2026-01-02_Memory.md"

abbrev pub note : Bytes → Bytes → Memory
note id answer = record {
  id = id;
  agent_id = codes "a1";
  user_id = codes "u1";
  question = codes "Q";
  answer = answer;
  content = codes "Q";
  embedding = [];
  recorded_at = noon;
  storage_version = pos 1;
}

pub marker : (s : Bytes) → s ≡ codes "m1" → IsMarkerId s
unfolding is_marker_id trim_space trim_right trim_from trim_left space_width space_width_back
    contains_any has_byte seek after_prefix
marker s h = subst IsMarkerId (sym h) (refl, refl)

abbrev pub first : Memory
first = note (codes "m0") (codes "A")

abbrev pub second : Memory
second = note (codes "m1") (codes "B")

-- A file with one memory, and what a second one adds to it.
abbrev pub held_text : Bytes
held_text = preamble first (framed (codes "m0") (payload format first noon))

abbrev pub added_text : Bytes
added_text = separator ++ framed (codes "m1") (payload format second noon)

abbrev pub held_entries : Entries
held_entries = (codes "m0", entry_for format first noon) ∷ []

pub holds : entries_by_id format held_text ≡ done held_entries
unfolding is_marker_id trim_space trim_right trim_from trim_left space_width space_width_back
    contains_any has_byte seek after_prefix is_path_id all_path_bytes payload itoa digits bytes_eq
holds =
    entries_by_id-new format format-IsLawful first refl refl (refl, refl) held_text refl refl
      (new_content_ok format format-IsLawful first refl refl (refl, refl)) (omega arith)

abbrev pub disk : Disk
disk = (folder_name, (file_name, file held_text) ∷ []) ∷ []
