-- ===== src/DataManager/Grown.antt =====
-- Storing a line in a handler that holds its logs.

use log_service.Prelude.{
  ℕ, ◌+◌, ◌≡◌, sym, ap, ap₂, ◌∙◌, List, [], ◌∷◌, ◌++◌, Option, some, Bytes, arith, length, take_all,
  drop_all, length-append, append-nil,
}
use log_service.Bulk.{write_at, write_data}
use log_service.Handler.{Handler, appending, is_saved}
use log_service.Handler.Calls.Reads.{text_in-open, offsets_in-read}
use log_service.Handler.Calls.Grows.{Grows, Refuses, IsNew}
use log_service.QueryResult.Complete.{joined}
use log_service.DataManager.Lines.{
  IsLine, AllLines, AllLines-append, starts, starts-snoc, joined-snoc,
}
use log_service.DataManager.Holds.{Holds, IsOpen}

write_at-end : (s str : Bytes) → write_at (length s) str s ≡ s ++ str
write_at-end s str =
    ap₂ ◌++◌ (take_all (length s) s (omega arith))
      (ap (◌++◌ str) (drop_all (length s + length str) s (omega arith)) ∙ append-nil str)

-- A handler that is open with its text and offsets in memory holds them.
pub IsOpen-Holds :
    (h : Handler) (ls : List Bytes)
    → h.state ≡ appending
    → h.bulk.size ≡ length ls
    → AllLines ls
    → IsOpen h ls
    → Holds h ls
IsOpen-Holds h ls a size lines o = record {
  text = text_in-open h (ap is_saved a) ∙ o.buffer;
  offsets = offsets_in-read h o.read ∙ o.listed;
  size = size;
  all_lines = lines;
  open_end = λ e. o;
}

pub Grows-Holds :
    (h h' : Handler) (ls : List Bytes) (str key : Bytes)
    → h.state ≡ appending
    → IsLine str
    → Holds h ls
    → Grows h h' str key
    → Holds h' (ls ++ (str ∷ []))
Grows-Holds h h' ls str key a line p g =
    let o = p.open_end a in
    IsOpen-Holds h' (ls ++ (str ∷ [])) g.still_open
      (g.size ∙ ap (λ (n : ℕ). n + 1) p.size ∙ sym (length-append ls (str ∷ [])))
      (AllLines-append ls (str ∷ []) p.all_lines (line, tt))
      (record {
        buffer =
            g.buffer
            ∙ ap₂ (λ (n : ℕ) (b : Option Bytes). write_data n str b) o.end o.buffer
            ∙ ap some (write_at-end (joined ls) str ∙ sym (joined-snoc ls str));
        end =
            g.end
            ∙ ap (λ (n : ℕ). n + length str) o.end
            ∙ sym (ap length (joined-snoc ls str) ∙ length-append (joined ls) str);
        read = g.read ∙ o.read;
        listed =
            g.listed
            ∙ ap₂ (λ (os : List ℕ) (n : ℕ). os ++ (n ∷ [])) o.listed o.end
            ∙ sym (starts-snoc 0 ls str ∙ ap (λ (n : ℕ). starts 0 ls ++ (n ∷ [])) (omega arith));
      })

pub Refuses-Holds : (h h' : Handler) (ls : List Bytes) → Refuses h h' → Holds h ls → Holds h' ls
Refuses-Holds h h' ls r p = record {
  text = r.same_text ∙ p.text;
  offsets = r.same_offsets ∙ p.offsets;
  size = r.same_size ∙ p.size;
  all_lines = p.all_lines;
  open_end = λ a. absurd (r.closed a);
}

pub IsNew-Holds : (h : Handler) (n : ℕ) → IsNew h n → Holds h []
unfolding joined starts
IsNew-Holds h n w =
    IsOpen-Holds h [] w.opened w.size tt
      (record { buffer = w.buffer; end = w.end; read = w.read; listed = w.listed })
