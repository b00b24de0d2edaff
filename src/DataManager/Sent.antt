-- ===== src/DataManager/Sent.antt =====
-- The loop over the serials of one handler in src/log_processor/data_manager.cpp sends the logs there.
use log_service.Prelude.{
  ℕ, zero, suc, ◌-◌, ◌≡◌, refl, sym, ap, ◌∙◌, List, [], ◌∷◌, ◌++◌, some, Bytes, arith, length,
  get_or, take, AllBelow,
}
use log_service.Handler.{Handler}
use log_service.Handler.Calls.Reads.{SameLogs, SameLogs-refl, SameLogs-trans}
use log_service.QueryResult.{ResultHandler, append_line, append_lines}
use log_service.DataManager.{read_line}
use log_service.DataManager.Holds.{Holds, read_line-Holds}
use log_service.DataManager.Sending.{send_serials}

-- The logs at some serials.
unfoldable pub lines_at : List Bytes → List ℕ → List Bytes
lines_at ls [] = []
lines_at ls (i ∷ is) = get_or ls i [] ∷ lines_at ls is

pub length-lines_at : (ls : List Bytes) (is : List ℕ) → length (lines_at ls is) ≡ length is
unfolding lines_at
length-lines_at ls [] = refl
length-lines_at ls (i ∷ is) = ap suc (length-lines_at ls is)

send_serials-step :
    (left serial : ℕ) (serials : List ℕ) (h h' : Handler) (l : Bytes) (rs : ResultHandler)
    → read_line h serial ≡ some (h', l)
    → send_serials (suc left) (serial ∷ serials) h rs
      ≡ send_serials left serials h' (append_line rs l)
unfolding send_serials
send_serials-step left serial serials h h' l rs e = rw (send_serials, e) refl

pub send_serials-Holds :
    (is : List ℕ) (left : ℕ) (h : Handler) (ls : List Bytes) (rs : ResultHandler)
    → Holds h ls
    → AllBelow (length ls) is
    → (h' : Handler) × (send_serials left is h rs
        ≡ some (left - length is, h', append_lines rs (take left (lines_at ls is))))
      × Holds h' ls
      × SameLogs h h'
unfolding send_serials lines_at append_lines
send_serials-Holds is zero h ls rs p b =
    let none_left : 0 - length is ≡ 0 = omega arith in
    (h, sym (ap (λ (k : ℕ). some (k, h, rs)) none_left), p, SameLogs-refl h)
send_serials-Holds [] (suc left) h ls rs p b =
    let all_left : suc left - 0 ≡ suc left = omega arith in
    (h, sym (ap (λ (k : ℕ). some (k, h, rs)) all_left), p, SameLogs-refl h)
send_serials-Holds (i ∷ is) (suc left) h ls rs p b =
    let (h1, e, q, same) = read_line-Holds h ls i p b.0 in
    let (h2, f, q2, same2) =
      send_serials-Holds is left h1 ls (append_line rs (get_or ls i [])) q b.1 in
    let less : suc left - suc (length is) ≡ left - length is = omega arith in
    let sent = append_lines (append_line rs (get_or ls i [])) (take left (lines_at ls is)) in
    (
      h2,
      send_serials-step left i is h h1 (get_or ls i []) rs e
          ∙ f
          ∙ sym (ap (λ (k : ℕ). some (k, h2, sent)) less),
      q2,
      SameLogs-trans h h1 h2 same same2,
    )

pub append_lines-append :
    (rs : ResultHandler) (ls ks : List Bytes)
    → append_lines rs (ls ++ ks) ≡ append_lines (append_lines rs ls) ks
unfolding append_lines
append_lines-append rs [] ks = refl
append_lines-append rs (l ∷ ls) ks = append_lines-append (append_line rs l) ls ks
