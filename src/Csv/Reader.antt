-- ===== src/Csv/Reader.antt =====
-- A reader of spreadsheet files, one code unit at a time, the way RFC 4180 writes them. It is no
-- part of the source: it says what another program reads in what csv.ts writes.
use sahel.Common.{ℕ, ◌||◌, Option, none, some, List, [], ◌∷◌, ◌++◌, ◌==◌, if◌then◌else◌}
use sahel.Js.Text.{Text}
use sahel.Js.Digits.{numeral}
use sahel.Csv.{Cell, number, text, defuse, byte_order_mark}

-- Where the reader stands: at the start of a line or a cell, in a cell, in quotes, behind a quote
-- within quotes, or behind a carriage return.
pub data Mode : Type 0 where
  line_start : Mode
  cell_start : Mode
  plain : Mode
  quoted : Mode
  after_quote : Mode
  carriage : Mode

pub data Action : Type 0 where
  skip : Action
  put : (c : ℕ) → Action
  next_cell : Action
  next_row : Action
  reject : Action

abbrev pub in_cell : ℕ → Action × Mode
in_cell c =
    if c == b','
    then (next_cell, cell_start)
    else if c == 13
    then (skip, carriage)
    else if (c == 10) || (c == b'"')
    then (reject, plain)
    else (put c, plain)

unfoldable pub next : Mode → ℕ → Action × Mode
next line_start c = if c == b'"' then (skip, quoted) else in_cell c
next cell_start c = if c == b'"' then (skip, quoted) else in_cell c
next plain c = in_cell c
next quoted c = if c == b'"' then (skip, after_quote) else (put c, quoted)
next after_quote c =
    if c == b'"'
    then (put c, quoted)
    else if c == b','
    then (next_cell, cell_start)
    else if c == 13
    then (skip, carriage)
    else (reject, plain)
next carriage c = if c == 10 then (next_row, line_start) else (reject, plain)

-- What is read later comes after: the rows hold the rest of the present cell and row first.
abbrev pub Rows : Type 0
Rows = Option (List (List Text))

abbrev pub add_text : Text → Rows → Rows
add_text s none = none
add_text s (some []) = some []
add_text s (some ([] ∷ rows)) = some ([] ∷ rows)
add_text s (some ((x ∷ row) ∷ rows)) = some (((s ++ x) ∷ row) ∷ rows)

abbrev pub add_cell : Rows → Rows
add_cell none = none
add_cell (some []) = none
add_cell (some (row ∷ rows)) = some (([] ∷ row) ∷ rows)

abbrev pub add_row : Rows → Rows
add_row none = none
add_row (some rows) = some (([] ∷ []) ∷ rows)

abbrev pub act : Action → Rows → Rows
act skip rows = rows
act (put c) rows = add_text (c ∷ []) rows
act next_cell rows = add_cell rows
act next_row rows = add_row rows
act reject rows = none

unfoldable pub read : Mode → Text → Rows
read line_start [] = some []
read cell_start [] = none
read plain [] = none
read quoted [] = none
read after_quote [] = none
read carriage [] = none
read mode (c ∷ s) = let go = next mode c in act go.0 (read go.1 s)

-- A file: the byte-order mark and the lines.
unfoldable pub read_file : Text → Rows
read_file [] = none
read_file (c ∷ s) = if c == byte_order_mark then read line_start s else none

-- The text of a cell, with the apostrophe that defuses a formula.
abbrev pub shown : Cell → Text
shown (number n) = numeral n
shown (text s) = defuse s
