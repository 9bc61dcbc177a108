-- ===== src/TaskLog/Stream.antt =====
-- What a task's log writer emits, against the lines of the whole stream.
use oz_agent_worker.Prelude.{
  ℕ, zero, suc, ◌≤◌, ◌<◌, ◌≡◌, refl, inl, inr, Bool, true, false, ◌&&◌, if◌then◌else◌, Option, none,
  some, List, [], ◌∷◌, ◌++◌, append-nil, append_assoc, length, length-append, leb, ltb, ◌==◌,
  nat_eq, arith, Option-cases, inl, inr,
}
use oz_agent_worker.TaskLog.{
  Bytes, newline, max_line_bytes, Writer, new_writer, flush, close, index_newline, add_part,
  write_loop, write,
}

-- The lines of a stream, the unterminated last one included, where `u` is what the first line has
-- already.
unfoldable pub lines_from : Bytes → Bytes → List Bytes
lines_from u [] = u ∷ []
lines_from u (b ∷ p) = if b == newline then u ∷ lines_from [] p else lines_from (u ++ b ∷ []) p

-- A line is worth a record when it is not empty and within the limit.
abbrev pub is_kept : Bytes → Bool
is_kept u = ltb 0 (length u) && leb (length u) max_line_bytes

unfoldable pub kept : List Bytes → List Bytes
kept [] = []
kept (u ∷ us) = if is_kept u then u ∷ kept us else kept us

unfoldable pub concat : List Bytes → Bytes
concat [] = []
concat (p ∷ ps) = p ++ concat ps

-- The writes of the chunks, one after the other.
unfoldable pub write_all : List Bytes → Writer → Writer
write_all [] w = w
write_all (p ∷ ps) w = write_all ps (write p w).1

-- The writer has read `u` since the last newline.
record Pending (u : Bytes) (w : Writer) : Type 0 where
  short : leb (length u) max_line_bytes ≡ true → (w.line ≡ u) × (w.discard ≡ false)
  long : leb (length u) max_line_bytes ≡ false → (w.line ≡ []) × (w.discard ≡ true)

add_part-Pending : (u p : Bytes) (w : Writer) → Pending u w → Pending (u ++ p) (add_part p w)
unfolding add_part
add_part-Pending u p w v = ground (arith, length-append u p)

flush-Pending :
    (u : Bytes) (w : Writer)
    → Pending u w
    → ((flush w).emitted ≡ w.emitted ++ kept (u ∷ [])) × Pending [] (flush w)
unfolding flush kept
flush-Pending u w v = ground (arith, append-nil w.emitted)

whole : Bytes → Bytes → List Bytes
whole u [] = []
whole u (b ∷ p) = if b == newline then u ∷ whole [] p else whole (u ++ b ∷ []) p

rest_of : Bytes → Bytes → Bytes
rest_of u [] = u
rest_of u (b ∷ p) = if b == newline then rest_of [] p else rest_of (u ++ b ∷ []) p

lines-whole : (u p : Bytes) → lines_from u p ≡ whole u p ++ rest_of u p ∷ []
unfolding lines_from whole rest_of
lines-whole u [] = refl
lines-whole u (b ∷ p) = ground (arith, lines-whole [] p, lines-whole (u ++ b ∷ []) p)

whole-append : (u p q : Bytes) → whole u (p ++ q) ≡ whole u p ++ whole (rest_of u p) q
unfolding whole rest_of
whole-append u [] q = refl
whole-append u (b ∷ p) q = ground (arith, whole-append [] p q, whole-append (u ++ b ∷ []) p q)

rest-append : (u p q : Bytes) → rest_of u (p ++ q) ≡ rest_of (rest_of u p) q
unfolding rest_of
rest-append u [] q = refl
rest-append u (b ∷ p) q = ground (arith, rest-append [] p q, rest-append (u ++ b ∷ []) p q)

kept-append : (us vs : List Bytes) → kept (us ++ vs) ≡ kept us ++ kept vs
unfolding kept
kept-append [] vs = refl
kept-append (u ∷ us) vs = ground (arith, kept-append us vs)

-- What the first newline of a chunk splits it into.
record Cut (u p part : Bytes) (more : Option Bytes) : Type 0 where
  last : more ≡ none → (whole u p ≡ []) × (rest_of u p ≡ u ++ part)
  next :
      (q : Bytes)
      → more ≡ some q
      → (whole u p ≡ (u ++ part) ∷ whole [] q)
        × (rest_of u p ≡ rest_of [] q)
        × (suc (length q) ≤ length p)

index_newline-Cut : (u p : Bytes) → Cut u p (index_newline p).0 (index_newline p).1
unfolding index_newline whole rest_of
index_newline-Cut u [] = ground (arith, append-nil u)
index_newline-Cut u (b ∷ p) = ground (
  arith,
  append-nil u,
  append_assoc u (b ∷ []) (index_newline p).0,
  index_newline-Cut (u ++ b ∷ []) p,
)

-- The writer has taken in `p` after it had `u` pending.
record Reads (u p : Bytes) (w w' : Writer) : Type 0 where
  pending : Pending (rest_of u p) w'
  emitted : w'.emitted ≡ w.emitted ++ kept (whole u p)
  open_as : (w'.closed ≡ w.closed) × (w'.has_reporter ≡ w.has_reporter)

add_part-same :
    (p : Bytes) (w : Writer)
    → ((add_part p w).emitted ≡ w.emitted)
      × ((add_part p w).closed ≡ w.closed)
      × ((add_part p w).has_reporter ≡ w.has_reporter)
unfolding add_part
add_part-same p w = ground arith

flush-same :
    (w : Writer) → ((flush w).closed ≡ w.closed) × ((flush w).has_reporter ≡ w.has_reporter)
unfolding flush
flush-same w = (refl, refl)

Reads-refl : (u : Bytes) (w : Writer) → Pending u w → Reads u [] w w
unfolding whole rest_of kept
Reads-refl u w v = ground (arith, append-nil w.emitted)

-- The chunk's end, after its last newline.
last-Reads :
    (u p part : Bytes) (more : Option Bytes) (w : Writer)
    → Cut u p part more
    → more ≡ none
    → Pending u w
    → Reads u p w (add_part part w)
unfolding kept
last-Reads u p part more w c e v =
    ground
      (arith, append-nil w.emitted, c.last e, add_part-same part w, add_part-Pending u part w v)

-- A line that the chunk completes, and the rest of the chunk.
next-Reads :
    (u p part q : Bytes) (more : Option Bytes) (w w' : Writer)
    → Cut u p part more
    → more ≡ some q
    → Pending u w
    → Reads [] q (flush (add_part part w)) w'
    → Reads u p w w'
next-Reads u p part q more w w' c e v r =
    let f = flush-Pending (u ++ part) (add_part part w) (add_part-Pending u part w v) in
    ground (
      arith,
      c.next q e,
      f,
      flush-same (add_part part w),
      add_part-same part w,
      kept-append ((u ++ part) ∷ []) (whole [] q),
      append_assoc w.emitted (kept ((u ++ part) ∷ [])) (kept (whole [] q)),
    )

write_loop-Reads :
    (n : ℕ) (u p : Bytes) (w : Writer) → length p ≤ n → Pending u w → Reads u p w (write_loop n p w)
unfolding write_loop
write_loop-Reads zero u [] w h v = Reads-refl u w v
write_loop-Reads (suc n) u [] w h v = Reads-refl u w v
write_loop-Reads zero u (b ∷ p) w h v = absurd (omega arith)
write_loop-Reads (suc n) u (b ∷ p) w h v =
    let cut = index_newline (b ∷ p) in
    let c = index_newline-Cut u (b ∷ p) in
    elim (Option-cases cut.1) [
      | inl e ↦ ground (arith, last-Reads u (b ∷ p) cut.0 cut.1 w c e v, e)
      | inr (q, e) ↦ ground (
        arith,
        next-Reads u (b ∷ p) cut.0 q cut.1 w (write_loop n q (flush (add_part cut.0 w))) c e v,
        write_loop-Reads n [] q (flush (add_part cut.0 w)),
        c.next q e,
        flush-Pending (u ++ cut.0) (add_part cut.0 w) (add_part-Pending u cut.0 w v),
      )
    ]

Reads-trans :
    (u p q : Bytes) (w w' w'' : Writer)
    → Reads u p w w'
    → Reads (rest_of u p) q w' w''
    → Reads u (p ++ q) w w''
Reads-trans u p q w w' w'' r s = ground (
  arith,
  r,
  s,
  rest-append u p q,
  whole-append u p q,
  kept-append (whole u p) (whole (rest_of u p) q),
  append_assoc w.emitted (kept (whole u p)) (kept (whole (rest_of u p) q)),
)

write_all-Reads :
    (u : Bytes) (ps : List Bytes) (w : Writer)
    → w.closed ≡ false
    → w.has_reporter ≡ true
    → Pending u w
    → Reads u (concat ps) w (write_all ps w)
unfolding write_all write concat
write_all-Reads u [] w c h v = Reads-refl u w v
write_all-Reads u (p ∷ ps) w c h v =
    let w' = write_loop (length p) p w in
    let r = write_loop-Reads (length p) u p w (omega arith) v in
    ground (
      arith,
      c,
      h,
      r,
      Reads-trans u p (concat ps) w w' (write_all ps w'),
      write_all-Reads (rest_of u p) ps w',
    )

closed_silent : (ps : List Bytes) (w : Writer) → w.closed ≡ true → write_all ps w ≡ w
unfolding write_all write
closed_silent [] w h = refl
closed_silent (p ∷ ps) w h = ground (arith, closed_silent ps w)

-- The writes of any chunks to a new writer of an open reporter with fewer than 128 writers,
-- followed by the close and by any later writes, emit exactly the lines of the concatenated chunks,
-- the last unterminated one included, that are not empty and have at most 64 KiB: whole lines in
-- their order, wherever the chunks split them.
pub log_lines :
    (n : ℕ) (ps later : List Bytes)
    → n < 128
    → (write_all later (close (write_all ps (new_writer false n)))).emitted
      ≡ kept (lines_from [] (concat ps))
unfolding new_writer close
log_lines n ps later h =
    let w = new_writer false n in
    let w' = write_all ps w in
    let r = write_all-Reads [] ps w (ground arith) refl (ground arith) in
    ground (
      arith,
      closed_silent later (close w'),
      r,
      flush-Pending (rest_of [] (concat ps)) w' r.pending,
      lines-whole [] (concat ps),
      kept-append (whole [] (concat ps)) (rest_of [] (concat ps) ∷ []),
    )
