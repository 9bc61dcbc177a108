-- ===== src/TaskLog.antt =====
-- The buffer of a task's output stream, Writer of internal/tasktelemetry/log/writer.go, and the
-- limit of reporter.go. A byte is its number; `emitted` are the lines handed to redactLine and the
-- reporter, in order.
pub mod Stream
use oz_agent_worker.Prelude.{
  ℕ, zero, suc, ◌+◌, Bool, true, false, ◌||◌, ◌&&◌, not, if◌then◌else◌, Option, none, some, List,
  [], ◌∷◌, ◌++◌, length, leb, ltb, ◌==◌, nat_eq,
}

abbrev pub Bytes : Type 0
Bytes = List ℕ

abbrev pub newline : ℕ
newline = 10

-- 64 KiB.
abbrev pub max_line_bytes : ℕ
max_line_bytes = 65536

pub record Writer : Type 0 where
  pub has_reporter : Bool
  pub line : Bytes
  pub discard : Bool
  pub closed : Bool
  pub emitted : List Bytes

-- Reporter.Writer: a closed reporter, or one with 128 writers, gives a writer that accepts nothing.
unfoldable pub new_writer : Bool → ℕ → Writer
new_writer reporter_closed writers = record {
  has_reporter = true;
  line = [];
  discard = false;
  closed = reporter_closed || leb 128 writers;
  emitted = [];
}

unfoldable pub flush : Writer → Writer
flush w = record w {
  line = [];
  discard = false;
  emitted = if not w.discard && ltb 0 (length w.line) then w.emitted ++ w.line ∷ [] else w.emitted;
}

unfoldable pub close : Writer → Writer
close w = record (flush w) { closed = true }

-- bytes.IndexByte(p, '\n'): what stands before the first newline, and what stands after it.
unfoldable pub index_newline : Bytes → Bytes × Option Bytes
index_newline [] = ([], none)
index_newline (b ∷ p) =
    let rest = index_newline p in if b == newline then ([], some p) else (b ∷ rest.0, rest.1)

-- The part of the loop's body that adds to the line.
unfoldable pub add_part : Bytes → Writer → Writer
add_part part w =
    let w' =
      if ltb max_line_bytes (length w.line + length part)
      then record w { discard = true; line = [] }
      else w in
    if w'.discard then w' else record w' { line = w'.line ++ part }

-- The loop of Write; `n` bounds its rounds.
unfoldable pub write_loop : ℕ → Bytes → Writer → Writer
write_loop zero p w = w
write_loop (suc n) [] w = w
write_loop (suc n) (b ∷ p) w =
    let cut = index_newline (b ∷ p) in
    elim cut.1 [
      | none ↦ add_part cut.0 w
      | some rest ↦ write_loop n rest (flush (add_part cut.0 w))
    ]

unfoldable pub write : Bytes → Writer → ℕ × Writer
write p w =
    if not w.has_reporter || w.closed then (length p, w) else (length p, write_loop (length p) p w)
