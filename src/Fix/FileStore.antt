-- ===== src/Fix/FileStore.antt =====
-- exchangesim/fix/store.py, `FileStore`: the same store on a directory. The JSON library keeps the two
-- numbers of the state file, an input or output error is not modelled.
pub mod Reindex
pub mod Contents
pub mod Refinement
use exchange_sim.Prelude.{
  ℕ, zero, suc, ◌+◌, List, [], ◌∷◌, ◌++◌, Bool, true, false, ◌&&◌, ◌==◌, Option, none, some,
  if◌then◌else◌, length, is_empty,
}
use exchange_sim.Prelude.Int.{ℤ, pos, negsuc, lt_test, le_test, eq_test}
use exchange_sim.Ids.{decimal}
use exchange_sim.Bytes.{take, drop, is_space, parse_int}

-- Where the bytes of each message stand in the log, by sequence number, in ascending order.
abbrev pub Offsets : Type 0
Offsets = List (ℤ × ℕ × ℤ)

pub record FileStore : Type 0 where
  pub state_file : Option (ℕ × ℕ)
  pub log_file : Option (List ℕ)
  pub next_out : ℕ
  pub next_in : ℕ
  pub offsets : Offsets
  pub is_open : Bool
  pub has_log : Bool

unfoldable pub put_offset : ℤ → ℕ → ℤ → Offsets → Offsets
put_offset seq offset size [] = (seq, offset, size) ∷ []
put_offset seq offset size ((n, o, l) ∷ rest) =
    let later = put_offset seq offset size rest in
    if eq_test seq n
    then (seq, offset, size) ∷ rest
    else if lt_test seq n
    then (seq, offset, size) ∷ (n, o, l) ∷ rest
    else (n, o, l) ∷ later

-- Reading: a line with its end, and as many bytes as asked for, all of them for a negative number.

unfoldable pub read_line : List ℕ → List ℕ
read_line [] = []
read_line (c ∷ cs) = let rest = read_line cs in if c == 10 then c ∷ [] else c ∷ rest

unfoldable pub read : ℤ → List ℕ → List ℕ
read (pos n) text = take n text
read (negsuc n) text = text

-- `text.split()`: the words between white space.
unfoldable pub add_to_word : ℕ → Bool → List (List ℕ) → List (List ℕ)
add_to_word c true (word ∷ words) = (c ∷ word) ∷ words
add_to_word c _ words = (c ∷ []) ∷ words

unfoldable pub begins_word : List ℕ → Bool
begins_word [] = false
begins_word (c ∷ cs) = if is_space c then false else true

unfoldable pub words : List ℕ → List (List ℕ)
words [] = []
words (c ∷ cs) =
    let rest = words cs in if is_space c then rest else add_to_word c (begins_word cs) rest

-- The two numbers of a record's header.
unfoldable pub both_numbers : Option ℤ → Option ℤ → Option (ℤ × ℤ)
both_numbers (some seq) (some size) = some (seq, size)
both_numbers _ _ = none

unfoldable pub two_numbers : List (List ℕ) → Option (ℤ × ℤ)
two_numbers (seq ∷ size ∷ []) = both_numbers (parse_int seq) (parse_int size)
two_numbers _ = none

-- One record of `_index_log`, and how the loop goes on: it stops at a header that it cannot read and
-- at a message that is cut off.
unfoldable pub index_record :
    Option (ℤ × ℤ) → ℕ → List ℕ → (ℕ → List ℕ → Offsets → Offsets) → Offsets → Offsets
index_record none offset rest go_on offsets = offsets
index_record (some (seq, size)) offset rest go_on offsets =
    let body = read size rest in
    if lt_test (pos (length body)) size
    then offsets
    else go_on (offset + length body + 1) (drop (length body + 1) rest)
        (put_offset seq offset size offsets)

-- The records from an offset on, on fuel for their bytes.
unfoldable pub index_from : ℕ → ℕ → List ℕ → Offsets → Offsets
index_from zero offset text offsets = offsets
index_from (suc fuel) offset text offsets =
    let header = read_line text in
    if is_empty header
    then offsets
    else index_record (two_numbers (words header)) (offset + length header)
        (drop (length header) text) (λ o t seen. index_from fuel o t seen) offsets

unfoldable pub index_log : Option (List ℕ) → Offsets
index_log none = []
index_log (some text) = index_from (suc (length text)) 0 text []

-- `open(path, "ab")` makes the file if there is none.
unfoldable pub appendable : Option (List ℕ) → Option (List ℕ)
appendable none = some []
appendable (some text) = some text

unfoldable pub load_state : Option (ℕ × ℕ) → FileStore → FileStore
load_state none s = s
load_state (some (next_out, next_in)) s = record s { next_out = next_out; next_in = next_in }

unfoldable pub open_store : FileStore → FileStore
open_store s =
    if s.is_open
    then s
    else (let loaded = load_state s.state_file s in
        record loaded {
          offsets = index_log s.log_file;
          log_file = appendable s.log_file;
          is_open = true;
          has_log = true;
        })

-- `FileStore(directory)` on what the directory holds.
unfoldable pub on_directory : Option (ℕ × ℕ) → Option (List ℕ) → FileStore
on_directory state_file log_file = record {
  state_file = state_file;
  log_file = log_file;
  next_out = 1;
  next_in = 1;
  offsets = [];
  is_open = false;
  has_log = false;
}

unfoldable pub close : FileStore → FileStore
close s = record s { is_open = false; has_log = false }

unfoldable pub save_state : FileStore → FileStore
save_state s = record s { state_file = some (s.next_out, s.next_in) }

unfoldable pub set_next_out : ℕ → FileStore → FileStore
set_next_out value s = save_state (record s { next_out = value })

unfoldable pub set_next_in : ℕ → FileStore → FileStore
set_next_in value s = save_state (record s { next_in = value })

unfoldable pub record_header : ℕ → List ℕ → List ℕ
record_header seq raw = decimal seq ++ 32 ∷ decimal (length raw) ++ 10 ∷ []

unfoldable pub append_record : ℕ → List ℕ → Option (List ℕ) → FileStore → FileStore
append_record seq raw none s = s
append_record seq raw (some text) s =
    let header = record_header seq raw in
    record s {
      log_file = some (text ++ header ++ raw ++ 10 ∷ []);
      offsets = put_offset (pos seq) (length text + length header) (pos (length raw)) s.offsets;
    }

-- None where it raises because the store is not open.
unfoldable pub store_outbound : ℕ → List ℕ → FileStore → Option FileStore
store_outbound seq raw s = if s.has_log then some (append_record seq raw s.log_file s) else none

unfoldable pub read_all : List ℕ → Offsets → List (ℤ × List ℕ)
read_all text [] = []
read_all text ((seq, offset, size) ∷ rest) =
    (seq, read size (drop offset text)) ∷ read_all text rest

unfoldable pub offsets_between : ℤ → ℤ → Offsets → Offsets
offsets_between begin upper [] = []
offsets_between begin upper ((n, o, l) ∷ rest) =
    let later = offsets_between begin upper rest in
    if le_test begin n && le_test n upper then (n, o, l) ∷ later else later

unfoldable pub last_offset : ℤ → Offsets → ℤ
last_offset end [] = end
last_offset end ((n, o, l) ∷ []) = n
last_offset end ((n, o, l) ∷ next ∷ rest) = last_offset end (next ∷ rest)

unfoldable pub upper_end : ℤ → Offsets → ℤ
upper_end (pos zero) offsets = last_offset (pos 0) offsets
upper_end (pos (suc n)) offsets = pos (suc n)
upper_end (negsuc n) offsets = negsuc n

unfoldable pub log_text : Option (List ℕ) → List ℕ
log_text none = []
log_text (some text) = text

unfoldable pub get_outbound : ℤ → ℤ → FileStore → List (ℤ × List ℕ)
get_outbound begin end s =
    read_all (log_text s.log_file) (offsets_between begin (upper_end end s.offsets) s.offsets)

-- The log is open afterwards, whether the store is or not.
unfoldable pub reset : FileStore → FileStore
reset s =
    save_state
      (record s { next_out = 1; next_in = 1; offsets = []; log_file = some []; has_log = true })
