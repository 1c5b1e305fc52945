-- ===== src/Fix/FileStore/Refinement.antt =====
-- The store on a directory of exchangesim/fix/store.py does what the store in memory does, across
-- restarts.
use exchange_sim.Prelude.{
  ℕ, ◌+◌, ◌≡◌, refl, sym, ap, subst, ◌∙◌, List, [], ◌∷◌, ◌++◌, true, ◌⊎◌, Option, none, some,
  length, length-append, inl, inr, arith,
}
use exchange_sim.Prelude.Int.{ℤ, pos}
use exchange_sim.Bytes.{drop-length, take-length}
use exchange_sim.Fix.Store.{MemoryStore, Messages, put_message, between, last_seq, new_store}
use exchange_sim.Fix.Store
use exchange_sim.Fix.FileStore.{
  FileStore, Offsets, put_offset, read, read_all, offsets_between, last_offset, upper_end, log_text,
  index_log, appendable, load_state, open_store, on_directory, close, save_state, append_record,
  record_header,
}
use exchange_sim.Fix.FileStore
use mathlib.Core.List.{append_assoc}
use exchange_sim.Fix.FileStore.Reindex.{
  log_of, offsets_of, record_text, index_log-log, log_of-snoc, offsets_of-snoc,
}
use exchange_sim.Fix.FileStore.Contents.{
  IsAt, Matches, Matches-longer, Matches-put, Matches-upper, keyed,
}

-- What the process does with the store. A restart opens a new store on the directory.
pub data StoreOp : Type 0 where
  put_out put_in : ℕ → StoreOp
  keep : ℕ → List ℕ → StoreOp
  wipe restart : StoreOp

unfoldable pub apply_file : StoreOp → FileStore → Option FileStore
apply_file (put_out n) f = some (FileStore.set_next_out n f)
apply_file (put_in n) f = some (FileStore.set_next_in n f)
apply_file (keep seq raw) f = FileStore.store_outbound seq raw f
apply_file wipe f = some (FileStore.reset f)
apply_file restart f =
    let closed = close f in some (open_store (on_directory closed.state_file closed.log_file))

unfoldable pub apply_memory : StoreOp → MemoryStore → MemoryStore
apply_memory (put_out n) m = Store.set_next_out n m
apply_memory (put_in n) m = Store.set_next_in n m
apply_memory (keep seq raw) m = Store.store_outbound seq raw m
apply_memory wipe m = Store.reset m
apply_memory restart m = m

-- The state file says what the store says, or is not there yet.
unfoldable IsSaved : FileStore → Type 0
IsSaved f =
    (f.state_file ≡ some (f.next_out, f.next_in))
    ⊎ ((f.state_file ≡ none) × (f.next_out ≡ 1) × (f.next_in ≡ 1))

record Simulates (f : FileStore) (m : MemoryStore) : Type 0 where
  records : List (ℕ × List ℕ)
  log : f.log_file ≡ some (log_of records)
  index : f.offsets ≡ offsets_of records 0 []
  matches : Matches (log_of records) f.offsets m.messages
  out : f.next_out ≡ m.next_out
  expected : f.next_in ≡ m.next_in
  saved : IsSaved f
  logs : f.has_log ≡ true

-- The bytes of a message that was appended.
appended-IsAt :
    (text : List ℕ) (seq : ℕ) (raw : List ℕ)
    → IsAt (text ++ record_text seq raw) raw (length text + length (record_header seq raw))
unfolding record_text
appended-IsAt text seq raw =
    let header = record_header seq raw in
    let front = text ++ header in
    let grouped : text ++ (header ++ (raw ++ 10 ∷ [])) ≡ front ++ (raw ++ 10 ∷ []) =
      sym (append_assoc text header (raw ++ 10 ∷ [])) in
    let offset : length text + length header ≡ length front = sym (length-append text header) in
    record {
      fits = omega (
        arith,
        length-append text (header ++ (raw ++ 10 ∷ [])),
        length-append header (raw ++ 10 ∷ []),
        length-append raw (10 ∷ []),
      );
      reads =
          rw (grouped, offset)
            (rw (drop-length front (raw ++ 10 ∷ [])) (take-length raw (10 ∷ [])));
    }

keep-Simulates :
    (seq : ℕ) (raw : List ℕ) (f : FileStore) (m : MemoryStore)
    → Simulates f m
    → (g : FileStore) × (FileStore.store_outbound seq raw f ≡ some g)
      × Simulates g (Store.store_outbound seq raw m)
unfolding FileStore.store_outbound append_record Store.store_outbound IsSaved
keep-Simulates seq raw f m s =
    let text = log_of s.records in
    let header = record_header seq raw in
    let offsets = put_offset (pos seq) (length text + length header) (pos (length raw)) f.offsets in
    let written : text ++ header ++ raw ++ 10 ∷ [] ≡ text ++ record_text seq raw =
      (unfold record_text in simp append_assoc refl) in
    let g : FileStore = record f {
      log_file = some (text ++ header ++ raw ++ 10 ∷ []);
      offsets = offsets;
    } in
    (
      g,
      rw s.logs (rw s.log refl),
      record {
        records = s.records ++ (seq, raw) ∷ [];
        log = ap some (written ∙ sym (log_of-snoc s.records seq raw));
        index =
            ap (λ os. put_offset (pos seq) (length text + length header) (pos (length raw)) os)
              s.index
            ∙ ap
                (λ n.
                  put_offset (pos seq) (n + length header) (pos (length raw))
                    (offsets_of s.records 0 []))
                (omega arith)
            ∙ sym (offsets_of-snoc s.records seq raw 0 []);
        matches =
            subst (λ t. Matches t offsets (put_message seq raw m.messages))
              (sym (log_of-snoc s.records seq raw))
              (Matches-put (text ++ record_text seq raw) raw seq (length text + length header)
                f.offsets m.messages (appended-IsAt text seq raw)
                (Matches-longer text (record_text seq raw) f.offsets m.messages s.matches));
        out = s.out;
        expected = s.expected;
        saved = s.saved;
        logs = s.logs;
      },
    )

-- The numbers that a new store reads are those of the store that was closed.
load-numbers :
    (f : FileStore)
    → IsSaved f
    → ((load_state f.state_file (on_directory f.state_file f.log_file)).next_out ≡ f.next_out)
      × ((load_state f.state_file (on_directory f.state_file f.log_file)).next_in ≡ f.next_in)
unfolding IsSaved load_state on_directory
load-numbers f (inl e) = rw e (refl, refl)
load-numbers f (inr (e, o, i)) = rw e (sym o, sym i)

load-state_file :
    (file : Option (ℕ × ℕ)) (f : FileStore) → (load_state file f).state_file ≡ f.state_file
unfolding load_state
load-state_file none f = refl
load-state_file (some (o, i)) f = refl

IsSaved-same :
    (f g : FileStore)
    → g.state_file ≡ f.state_file
    → g.next_out ≡ f.next_out
    → g.next_in ≡ f.next_in
    → IsSaved f
    → IsSaved g
unfolding IsSaved
IsSaved-same f g same o i (inl e) = inl (same ∙ e ∙ cc (o, i))
IsSaved-same f g same o i (inr (e, out, expected)) = inr (same ∙ e, o ∙ out, i ∙ expected)

restart-Simulates :
    (f : FileStore) (m : MemoryStore)
    → Simulates f m
    → Simulates (open_store (on_directory f.state_file f.log_file)) m
unfolding open_store on_directory appendable
restart-Simulates f m s =
    let found = ap index_log s.log ∙ index_log-log s.records in
    let loaded = load-numbers f s.saved in
    record {
      records = s.records;
      log = ap appendable s.log;
      index = found;
      matches =
          subst (λ os. Matches (log_of s.records) os m.messages) (s.index ∙ sym found) s.matches;
      out = loaded.0 ∙ s.out;
      expected = loaded.1 ∙ s.expected;
      saved = IsSaved-same f _ (load-state_file f.state_file _) loaded.0 loaded.1 s.saved;
      logs = refl;
    }

new-Simulates : Simulates (open_store (on_directory none none)) new_store
unfolding open_store on_directory appendable load_state index_log new_store Matches IsSaved log_of
    offsets_of
new-Simulates = record {
  records = [];
  log = refl;
  index = refl;
  matches = tt;
  out = refl;
  expected = refl;
  saved = inr (refl, refl, refl);
  logs = refl;
}

apply-Simulates :
    (op : StoreOp) (f : FileStore) (m : MemoryStore)
    → Simulates f m
    → (g : FileStore) × (apply_file op f ≡ some g) × Simulates g (apply_memory op m)
unfolding apply_file apply_memory
apply-Simulates (put_out n) f m s = (
  FileStore.set_next_out n f,
  refl,
  (unfold FileStore.set_next_out save_state Store.set_next_out IsSaved in
      record {
        records = s.records;
        log = s.log;
        index = s.index;
        matches = s.matches;
        out = refl;
        expected = s.expected;
        saved = inl refl;
        logs = s.logs;
      }),
)
apply-Simulates (put_in n) f m s = (
  FileStore.set_next_in n f,
  refl,
  (unfold FileStore.set_next_in save_state Store.set_next_in IsSaved in
      record {
        records = s.records;
        log = s.log;
        index = s.index;
        matches = s.matches;
        out = s.out;
        expected = refl;
        saved = inl refl;
        logs = s.logs;
      }),
)
apply-Simulates (keep seq raw) f m s = keep-Simulates seq raw f m s
apply-Simulates wipe f m s = (
  FileStore.reset f,
  refl,
  (unfold FileStore.reset save_state Store.reset IsSaved Matches log_of offsets_of in
      record {
        records = [];
        log = refl;
        index = refl;
        matches = tt;
        out = refl;
        expected = refl;
        saved = inl refl;
        logs = refl;
      }),
)
apply-Simulates restart f m s = (_, refl, unfold close in restart-Simulates f m s)

unfoldable pub then_file : (FileStore → Option FileStore) → Option FileStore → Option FileStore
then_file go_on none = none
then_file go_on (some f) = go_on f

unfoldable pub run_file : List StoreOp → FileStore → Option FileStore
run_file [] f = some f
run_file (op ∷ ops) f = then_file (λ g. run_file ops g) (apply_file op f)

unfoldable pub run_memory : List StoreOp → MemoryStore → MemoryStore
run_memory [] m = m
run_memory (op ∷ ops) m = run_memory ops (apply_memory op m)

run-Simulates :
    (ops : List StoreOp) (f : FileStore) (m : MemoryStore)
    → Simulates f m
    → (g : FileStore) × (run_file ops f ≡ some g) × Simulates g (run_memory ops m)
unfolding run_file run_memory then_file
run-Simulates [] f m s = (f, refl, s)
run-Simulates (op ∷ ops) f m s =
    let (g, e, t) = apply-Simulates op f m s in
    let (h, e', u) = run-Simulates ops g (apply_memory op m) t in
    (h, ap (then_file (λ x. run_file ops x)) e ∙ e', u)

get_outbound-Simulates :
    (f : FileStore) (m : MemoryStore) (begin end : ℤ)
    → Simulates f m
    → FileStore.get_outbound begin end f ≡ keyed (Store.get_outbound begin end m)
unfolding FileStore.get_outbound
get_outbound-Simulates f m begin end s =
    rw s.log (unfold log_text in (Matches-upper (log_of s.records) begin end f.offsets m s.matches))

-- Whatever a process does with a store that begins in an empty directory, it does not fail, and after
-- any number of restarts the store on disk has the same next numbers as the one in memory and gives the
-- same messages for every range.
pub run_file-run_memory :
    (ops : List StoreOp)
    → (g : FileStore) × (run_file ops (open_store (on_directory none none)) ≡ some g)
      × (g.next_out ≡ (run_memory ops new_store).next_out)
      × (g.next_in ≡ (run_memory ops new_store).next_in)
      × ((begin end : ℤ)
          → FileStore.get_outbound begin end g
            ≡ keyed (Store.get_outbound begin end (run_memory ops new_store)))
run_file-run_memory ops =
    let (g, e, s) =
      run-Simulates ops (open_store (on_directory none none)) new_store new-Simulates in
    (
      g,
      e,
      s.out,
      s.expected,
      λ begin end. get_outbound-Simulates g (run_memory ops new_store) begin end s,
    )
