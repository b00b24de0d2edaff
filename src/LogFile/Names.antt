-- ===== src/LogFile/Names.antt =====
-- include/LogFile.h and src/log_processor/LogFile.cpp: the names of the files of a bulk.
use log_service.Prelude.{
  ℕ, zero, suc, ◌+◌, ◌-◌, ◌*◌, ◌/◌, ◌%◌, ◌^◌, ◌≤◌, ◌<◌, ◌≡◌, ◌≢◌, ◌⊎◌, refl, sym, ap, ◌∙◌, true, [],
  ◌∷◌, ◌++◌, Bytes, codes, arith, length, length-append, take, drop, take_all, replicate, ◌==◌,
  length-replicate, ltb, if◌then◌else◌, Bool-cases, inl, inr, append_assoc,
}
use log_service.Config.{file_name_len, log_directory}
use log_service.Decimal.{decimal, decimal_from, scan}
use log_service.Decimal.RoundTrip.{Ends, scan-decimal}

-- The classes of the five files.
pub data LogFile : Type 0 where
  log_content_file log_index_file log_time_stamp_file log_key_trie_file log_word_trie_file : LogFile

unfoldable pub extension : LogFile → Bytes
extension log_content_file = codes ".log"
extension log_index_file = codes ".index"
extension log_time_stamp_file = codes ".ts"
extension log_key_trie_file = codes ".keyt"
extension log_word_trie_file = codes ".wordt"

-- `%020d` of a number that is not negative.
pub padded : ℕ → Bytes
padded num = replicate (20 - length (decimal num)) b'0' ++ decimal num

-- `name_`, which the constructors print: `snprintf` keeps what the array has room for.
pub file_name : LogFile → ℕ → Bytes
unfolding padded extension
file_name f num = take (file_name_len - 1) (padded num ++ extension f)

-- The path that is opened.
pub file_path : LogFile → ℕ → Bytes
unfolding file_name
file_path f num = log_directory ++ (b'/' ∷ file_name f num)

-- Ten to the power.
abbrev tens : ℕ → ℕ
tens zero = 1
tens (suc k) = 10 * tens k

length-decimal_from :
    (k fuel n : ℕ) (out : Bytes)
    → n < tens (suc k)
    → length (decimal_from fuel n out) ≤ suc k + length out
unfolding decimal_from
length-decimal_from k zero n out h = omega arith
length-decimal_from zero (suc fuel) n out h =
    let few : ltb n 10 ≡ true = ground (arith, h) in rw few (omega arith)
length-decimal_from (suc k) (suc fuel) n out h = elim (Bool-cases (ltb n 10)) [
  | inl e ↦ rw e (omega arith)
  | inr e ↦ rw e (
      omega (arith, length-decimal_from k fuel (n / 10) ((b'0' + n % 10) ∷ out) (omega (arith, h))))
]

length-decimal : (n : ℕ) → n < 2 ^ 31 → length (decimal n) ≤ 10
unfolding decimal
length-decimal n h = omega (arith, length-decimal_from 9 (n + 1) n [] (omega (arith, h)))

length-extension : (f : LogFile) → length (extension f) ≤ 6
unfolding extension
length-extension log_content_file = omega arith
length-extension log_index_file = omega arith
length-extension log_time_stamp_file = omega arith
length-extension log_key_trie_file = omega arith
length-extension log_word_trie_file = omega arith

-- The array has room for the name.
file_name-whole :
    (f : LogFile) (num : ℕ) → num < 2 ^ 31 → file_name f num ≡ padded num ++ extension f
unfolding file_name padded
file_name-whole f num h = take_all (file_name_len - 1) (padded num ++ extension f) (
    omega (
      arith,
      length-append (padded num) (extension f),
      length-append (replicate (20 - length (decimal num)) b'0') (decimal num),
      length-replicate {A = ℕ} (20 - length (decimal num)) b'0',
      length-decimal num h,
      length-extension f,
    ))

scan-zeros : (k : ℕ) (s : Bytes) → scan 10 0 (replicate k b'0' ++ s) ≡ scan 10 0 s
unfolding scan
scan-zeros zero s = refl
scan-zeros (suc k) s = scan-zeros k s

extension-Ends : (f : LogFile) → Ends (extension f)
unfolding extension
extension-Ends log_content_file = ground arith
extension-Ends log_index_file = ground arith
extension-Ends log_time_stamp_file = ground arith
extension-Ends log_key_trie_file = ground arith
extension-Ends log_word_trie_file = ground arith

-- The name reads back as the number, and what is behind it.
scan-file_name :
    (f : LogFile) (num : ℕ) → num < 2 ^ 31 → scan 10 0 (file_name f num) ≡ (num, extension f)
unfolding padded
scan-file_name f num h =
    ap (scan 10 0) (
      file_name-whole f num h
      ∙ append_assoc (replicate (20 - length (decimal num)) b'0') (decimal num) (extension f))
    ∙ scan-zeros (20 - length (decimal num)) (decimal num ++ extension f)
    ∙ scan-decimal num (extension f) (extension-Ends f)

-- The class of a file by the byte behind the point.
abbrev class_at : ℕ → LogFile
class_at c =
    if c == b'l'
    then log_content_file
    else if c == b'i'
    then log_index_file
    else if c == b't'
    then log_time_stamp_file
    else if c == b'k'
    then log_key_trie_file
    else log_word_trie_file

abbrev class_of : Bytes → LogFile
class_of [] = log_content_file
class_of (p ∷ []) = log_content_file
class_of (p ∷ c ∷ s) = class_at c

class_of-extension : (f : LogFile) → class_of (extension f) ≡ f
unfolding extension
class_of-extension log_content_file = refl
class_of-extension log_index_file = refl
class_of-extension log_time_stamp_file = refl
class_of-extension log_key_trie_file = refl
class_of-extension log_word_trie_file = refl

file_name_of :
    (f : LogFile) (num : ℕ) → drop (length log_directory + 1) (file_path f num) ≡ file_name f num
unfolding file_path
file_name_of f num = refl

file_path_injective :
    (f g : LogFile) (num other : ℕ)
    → num < 2 ^ 31
    → other < 2 ^ 31
    → file_path f num ≡ file_path g other
    → (f ≡ g) × (num ≡ other)
file_path_injective f g num other h k e =
    let names : file_name f num ≡ file_name g other =
      sym (file_name_of f num) ∙ ap (drop (length log_directory + 1)) e ∙ file_name_of g other in
    let same : (num, extension f) ≡ (other, extension g) =
      sym (scan-file_name f num h) ∙ ap (scan 10 0) names ∙ scan-file_name g other k in
    (
      sym (class_of-extension f) ∙ ap (λ (p : ℕ × Bytes). class_of p.1) same ∙ class_of-extension g,
      ap (λ (p : ℕ × Bytes). p.0) same,
    )

-- Files of different classes, or for different numbers, have different paths. The numbers are those of
-- an `int` that is not negative.
pub file_path_distinct :
    (f g : LogFile) (num other : ℕ)
    → num < 2 ^ 31
    → other < 2 ^ 31
    → (f ≢ g) ⊎ (num ≢ other)
    → file_path f num ≢ file_path g other
file_path_distinct f g num other h k (inl ne) e = ne (file_path_injective f g num other h k e).0
file_path_distinct f g num other h k (inr ne) e = ne (file_path_injective f g num other h k e).1
