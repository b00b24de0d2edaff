-- ===== src/DataManager/Holds.antt =====
-- A handler that holds the logs of its bulk, in memory or in its files, and reading one of them.
use mathlib.Core.Path.{subst}
use log_service.Prelude.{
  ℕ, suc, ◌<◌, ◌≡◌, refl, sym, ap, ◌∙◌, true, List, [], ◌∷◌, some, Bytes, arith, length, get_or,
  drop,
}
use log_service.Handler.{Handler, appending, get_data}
use log_service.Handler.Calls.{offset_by_serial}
use log_service.Handler.Calls.Reads.{
  text_in, offsets_in, SameLogs, SameLogs-refl, SameLogs-trans, loaded_index-SameLogs,
  get_data-SameLogs, offset_by_serial-found, offset_by_serial-in, get_data-text_in,
}
use log_service.QueryResult.Complete.{joined}
use log_service.DataManager.{read_line, first_line}
use log_service.DataManager.Lines.{AllLines, starts, first_line-starts}

-- While the handler appends, its text and offsets are in memory, and the next log goes behind the text.
pub record IsOpen (h : Handler) (ls : List Bytes) : Type 0 where
  pub buffer : h.bulk.data_buffer ≡ some (joined ls)
  pub end : h.bulk.offset ≡ length (joined ls)
  pub read : h.offset_read ≡ true
  pub listed : h.bulk.index.offset_list ≡ starts 0 ls

pub record Holds (h : Handler) (ls : List Bytes) : Type 0 where
  pub text : text_in h ≡ some (joined ls)
  pub offsets : offsets_in h ≡ starts 0 ls
  pub size : h.bulk.size ≡ length ls
  pub all_lines : AllLines ls
  pub open_end : h.state ≡ appending → IsOpen h ls

-- A read leaves what is held.
pub SameLogs-Holds : (h h' : Handler) (ls : List Bytes) → SameLogs h h' → Holds h ls → Holds h' ls
SameLogs-Holds h h' ls s p = record {
  text = s.same_text ∙ p.text;
  offsets = s.same_offsets ∙ p.offsets;
  size = s.same_size ∙ p.size;
  all_lines = p.all_lines;
  open_end = λ a.
      let b = s.not_reopened a in
      subst (λ (k : Handler). IsOpen k ls) (sym (s.untouched b (p.open_end b).read)) (p.open_end b);
}

read_line-step :
    (h : Handler) (serial offset : ℕ) (d l : Bytes)
    → (offset_by_serial h serial).1 ≡ some offset
    → (get_data (offset_by_serial h serial).0).1 ≡ some d
    → first_line (drop offset d) ≡ some l
    → read_line h serial ≡ some ((get_data (offset_by_serial h serial).0).0, l)
unfolding read_line
read_line-step h serial offset d l a b c = rw (read_line, a, b, c) refl

-- The log of every serial number below the size is read, and the handler holds what it held.
pub read_line-Holds :
    (h : Handler) (ls : List Bytes) (i : ℕ)
    → Holds h ls
    → i < length ls
    → (h' : Handler) × (read_line h i ≡ some (h', get_or ls i [])) × Holds h' ls × SameLogs h h'
read_line-Holds h ls i p lt =
    let loaded = loaded_index-SameLogs h in
    let k = (offset_by_serial h i).0 in
    let same : SameLogs h k = subst (SameLogs h) (sym (offset_by_serial-in h i)) loaded in
    let all = SameLogs-trans h k (get_data k).0 same (get_data-SameLogs k) in
    (
      (get_data k).0,
      read_line-step h i (get_or (starts 0 ls) i 0) (joined ls) (get_or ls i [])
          (offset_by_serial-found h i (omega (arith, p.size))
            ∙ ap (λ (os : List ℕ). some (get_or os i 0)) p.offsets)
          (get_data-text_in k ∙ same.same_text ∙ p.text) (first_line-starts ls i p.all_lines lt),
      SameLogs-Holds h (get_data k).0 ls all p,
      all,
    )

-- Handlers that have only been read.
unfoldable pub AllSame : List Handler → List Handler → Type 0
AllSame [] [] = Unit
AllSame (h ∷ hs) (k ∷ ks) = SameLogs h k × AllSame hs ks
AllSame hs ks = ⊥

pub AllSame-refl : (hs : List Handler) → AllSame hs hs
unfolding AllSame
AllSame-refl [] = tt
AllSame-refl (h ∷ hs) = (SameLogs-refl h, AllSame-refl hs)

pub length-AllSame : (hs ks : List Handler) → AllSame hs ks → length ks ≡ length hs
unfolding AllSame
length-AllSame [] [] a = refl
length-AllSame [] (k ∷ ks) a = absurd a
length-AllSame (h ∷ hs) [] a = absurd a
length-AllSame (h ∷ hs) (k ∷ ks) a = ap suc (length-AllSame hs ks a.1)
