-- ===== src/Csv/Reading.antt =====
-- A spreadsheet file is read back cell by cell.
use sahel.Common.{
  ℕ, ◌≡◌, refl, ◌≢◌, ap, sym, ◌∙◌, ◌⊎◌, inl, inr, true, false, ◌||◌, none, some, List, [], ◌∷◌,
  ◌++◌, map, ◌==◌, arith, Bool-cases,
}
use mathlib.Core.List.{append-nil, append_assoc}
use sahel.Common.Lists.{All, any, all}
use sahel.Js.Text.{Text}
use sahel.Js.Digits.{is_digit, numeral, numeral-is_digit}
use sahel.Csv.{
  Cell, number, text, is_formula, is_special, double_quotes, defuse, enclose, cell, join,
  line_break, row_text, to_csv,
}
use sahel.Csv.Reader.{
  Mode, line_start, cell_start, plain, quoted, after_quote, carriage, skip, put, in_cell, next,
  Rows, add_text, act, read, read_file, shown,
}

add_text-add_text :
    (a b : Text) (rows : Rows) → add_text a (add_text b rows) ≡ add_text (a ++ b) rows
add_text-add_text a b none = refl
add_text-add_text a b (some []) = refl
add_text-add_text a b (some ([] ∷ rows)) = refl
add_text-add_text a b (some ((x ∷ row) ∷ rows)) =
    ap (λ t. some ((t ∷ row) ∷ rows)) (sym (append_assoc a b x))

-- What ends a cell, and what the reader does there.
abbrev IsEnd : ℕ → Type 0
IsEnd k = (k ≡ b',') ⊎ (k ≡ 13)

abbrev close : ℕ → Text → Rows
close k s = let go = in_cell k in act go.0 (read go.1 s)

add_text-nil : (rows : Rows) → add_text [] rows ≡ rows
add_text-nil none = refl
add_text-nil (some []) = refl
add_text-nil (some ([] ∷ rows)) = refl
add_text-nil (some ((x ∷ row) ∷ rows)) = refl

plain_char : (c : ℕ) → is_special c ≡ false → in_cell c ≡ (put c, plain)
plain_char c h =
    let comma : (c == b',') ≡ false = ground arith in
    let back : (c == 13) ≡ false = ground arith in
    let rest : ((c == 10) || (c == b'"')) ≡ false = ground arith in rw (comma, back, rest) refl

read-plain :
    (t s : Text) (k : ℕ)
    → any is_special t ≡ false
    → read plain (t ++ k ∷ s) ≡ add_text t (close k s)
unfolding read next
read-plain [] s k h = sym (add_text-nil (close k s))
read-plain (c ∷ t) s k h =
    let here : is_special c ≡ false = ground arith in
    let rest : read plain (t ++ k ∷ s) ≡ add_text t (close k s) = read-plain t s k (ground arith) in
    rw (plain_char c here, rest) (add_text-add_text (c ∷ []) t (close k s))

double_quotes-nil : double_quotes [] ≡ []
unfolding double_quotes
double_quotes-nil = refl

double_quotes-quote :
    (c : ℕ) (t : Text) → (c == b'"') ≡ true → double_quotes (c ∷ t) ≡ b'"' ∷ b'"' ∷ double_quotes t
unfolding double_quotes
double_quotes-quote c t h = rw h refl

double_quotes-other :
    (c : ℕ) (t : Text) → (c == b'"') ≡ false → double_quotes (c ∷ t) ≡ c ∷ double_quotes t
unfolding double_quotes
double_quotes-other c t h = rw h refl

read_quoted :
    (t s : Text) (k : ℕ)
    → IsEnd k
    → read quoted (double_quotes t ++ b'"' ∷ k ∷ s) ≡ add_text t (close k s)
unfolding read next
read_quoted [] s k (inl e) = rw (double_quotes-nil, e) (sym (add_text-nil (close b',' s)))
read_quoted [] s k (inr e) = rw (double_quotes-nil, e) (sym (add_text-nil (close 13 s)))
read_quoted (c ∷ t) s k e =
    let rest : read quoted (double_quotes t ++ b'"' ∷ k ∷ s) ≡ add_text t (close k s) =
      read_quoted t s k e in
    elim (Bool-cases (c == b'"')) [
      | inl quote ↦
          let same_char : c ≡ b'"' = ground arith in
          rw (double_quotes-quote c t quote, rest, same_char)
            (add_text-add_text (b'"' ∷ []) t (close k s))
      | inr other ↦
          rw (double_quotes-other c t other, other, rest) (add_text-add_text (c ∷ []) t (close k s))
    ]

-- Where a cell can start.
abbrev IsStart : Mode → Type 0
IsStart m = (m ≡ line_start) ⊎ (m ≡ cell_start)

next-start : (m : Mode) (c : ℕ) → IsStart m → (c == b'"') ≡ false → next m c ≡ in_cell c
unfolding next
next-start m c (inl e) h = rw (e, h) refl
next-start m c (inr e) h = rw (e, h) refl

next-quote : (m : Mode) → IsStart m → next m b'"' ≡ (skip, quoted)
unfolding next
next-quote m (inl e) = rw e refl
next-quote m (inr e) = rw e refl

not_quote : (k : ℕ) → IsEnd k → (k == b'"') ≡ false
not_quote k e = ground arith

read-cons : (m : Mode) (c : ℕ) (s : Text) → read m (c ∷ s) ≡ act (next m c).0 (read (next m c).1 s)
unfolding read
read-cons line_start c s = refl
read-cons cell_start c s = refl
read-cons plain c s = refl
read-cons quoted c s = refl
read-cons after_quote c s = refl
read-cons carriage c s = refl

read-quote : (m : Mode) (s : Text) → IsStart m → read m (b'"' ∷ s) ≡ read quoted s
read-quote m s st = rw (read-cons m b'"' s, next-quote m st)

read-start :
    (m : Mode) (c : ℕ) (s : Text)
    → IsStart m
    → (c == b'"') ≡ false
    → read m (c ∷ s) ≡ read plain (c ∷ s)
unfolding next
read-start m c s st h = rw (read-cons m c s, next-start m c st h) (sym (read-cons plain c s))

start_plain :
    (m : Mode) (t s : Text) (k : ℕ)
    → IsStart m
    → IsEnd k
    → any is_special t ≡ false
    → read m (t ++ k ∷ s) ≡ read plain (t ++ k ∷ s)
start_plain m [] s k st e h = read-start m k s st (not_quote k e)
start_plain m (c ∷ t) s k st e h = read-start m c (t ++ k ∷ s) st (ground arith)

read-enclose :
    (m : Mode) (t s : Text) (k : ℕ)
    → IsStart m
    → IsEnd k
    → read m (enclose t ++ k ∷ s) ≡ add_text t (close k s)
read-enclose m t s k st e = elim (Bool-cases (any is_special t)) [
  | inl special ↦
      rw (special, append_assoc (double_quotes t) (b'"' ∷ []) (k ∷ s))
        (read-quote m (double_quotes t ++ b'"' ∷ k ∷ s) st ∙ read_quoted t s k e)
  | inr fine ↦ rw fine (start_plain m t s k st e fine ∙ read-plain t s k fine)
]

plain_digits : (s : Text) → all is_digit s ≡ true → any is_special s ≡ false
unfolding is_digit
plain_digits [] h = refl
plain_digits (c ∷ s) h =
    let rest : any is_special s ≡ false = plain_digits s (ground arith) in ground (arith, rest)

read-cell :
    (m : Mode) (v : Cell) (s : Text) (k : ℕ)
    → IsStart m
    → IsEnd k
    → read m (cell v ++ k ∷ s) ≡ add_text (shown v) (close k s)
unfolding cell
read-cell m (number n) s k st e =
    let fine = plain_digits (numeral n) (numeral-is_digit n) in
    start_plain m (numeral n) s k st e fine ∙ read-plain (numeral n) s k fine
read-cell m (text t) s k st e = read-enclose m (defuse t) s k st e

read_row :
    (m : Mode) (v : Cell) (vs : List Cell) (s : Text) (rows : List (List Text))
    → IsStart m
    → read line_start s ≡ some rows
    → read m (row_text (v ∷ vs) ++ 13 ∷ 10 ∷ s) ≡ some (map shown (v ∷ vs) ∷ rows)
unfolding join
read_row m v [] s rows st h =
    let end : close 13 (10 ∷ s) ≡ some (([] ∷ []) ∷ rows) =
      rw (read-cons carriage 10 s) (unfold next in rw h refl) in
    rw (read-cell m v (10 ∷ s) 13 st (inr refl), end, append-nil (shown v)) refl
read_row m v (w ∷ vs) s rows st h =
    let more = row_text (w ∷ vs) ++ 13 ∷ 10 ∷ s in
    let rest : read cell_start more ≡ some (map shown (w ∷ vs) ∷ rows) =
      read_row cell_start w vs s rows (inr refl) h in
    rw
      (
        append_assoc (cell v) (b',' ∷ row_text (w ∷ vs)) (13 ∷ 10 ∷ s),
        read-cell m v more b',' st (inl refl),
        rest,
        append-nil (shown v),
      )
      refl

-- Each row has a cell.
abbrev pub HasCells : List Cell → Type 0
HasCells row = row ≢ []

read_lines :
    (row : List Cell) (rows : List (List Cell))
    → All HasCells (row ∷ rows)
    → read line_start (join line_break (map row_text (row ∷ rows)) ++ line_break)
      ≡ some (map (map shown) (row ∷ rows))
unfolding join
read_lines [] rows (h, hs) = absurd (h refl)
read_lines (v ∷ vs) [] (h, hs) = read_row line_start v vs [] [] (inl refl) (unfold read in refl)
read_lines (v ∷ vs) (row ∷ rows) (h, hs) =
    let text_of_rest = join line_break (map row_text (row ∷ rows)) in
    rw (append_assoc (row_text (v ∷ vs)) (line_break ++ text_of_rest) line_break) (
      read_row line_start v vs (text_of_rest ++ line_break) (map (map shown) (row ∷ rows))
        (inl refl) (read_lines row rows hs))

-- A spreadsheet of at least one row, each row with a cell, is read back by an RFC 4180 reader row
-- by row and cell by cell as the texts that were written; a text that would be a formula comes
-- back behind an apostrophe.
pub read_file-to_csv :
    (row : List Cell) (rows : List (List Cell))
    → All HasCells (row ∷ rows)
    → read_file (to_csv (row ∷ rows)) ≡ some (map (map shown) (row ∷ rows))
unfolding read_file to_csv
read_file-to_csv row rows h = read_lines row rows h

-- No cell that is read back is a formula: a number is digits, and a text that starts with =, +, -,
-- @, a tab or a carriage return is behind an apostrophe.
pub is_formula-shown : (v : Cell) → is_formula (shown v) ≡ false
unfolding is_formula is_digit
is_formula-shown (number n) = digits_plain (numeral n) (numeral-is_digit n)
  where
    digits_plain : (s : Text) → all is_digit s ≡ true → is_formula s ≡ false
    digits_plain [] h = refl
    digits_plain (c ∷ s) h = ground arith
is_formula-shown (text s) = elim (Bool-cases (is_formula s)) [
  | inl bad ↦ rw bad refl
  | inr fine ↦ rw fine fine
]
