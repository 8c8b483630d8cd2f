-- ===== src/Audit/Lines.antt =====
-- How the file splits into lines, and what a rendered entry reads back as.
use iot_athome.Prelude.{
  trim_end, ℕ, ◌≡◌, refl, ap, ◌∙◌, true, false, inl, inr, List, [], ◌∷◌, ◌++◌, Bool, arith,
  Bool-cases, ◌==◌, Text, lacks, all, is_empty, some, ok,
}
use iot_athome.Audit.{Entry, AuditCrates, AuditLaws, read_lines, push_byte, is_blank, parse_line}

-- The file is empty or ends in a newline.
abbrev pub terminated : Text → Bool
terminated [] = true
terminated (c ∷ []) = c == b'\n'
terminated (c ∷ d ∷ s) = terminated (d ∷ s)

pub terminated-append : (s line : Text) → terminated (s ++ (line ++ b'\n' ∷ [])) ≡ true
terminated-append [] [] = refl
terminated-append [] (c ∷ []) = refl
terminated-append [] (c ∷ d ∷ line) = terminated-append [] (d ∷ line)
terminated-append (c ∷ []) [] = refl
terminated-append (c ∷ []) (d ∷ line) = terminated-append [] (d ∷ line)
terminated-append (c ∷ d ∷ s) line = terminated-append (d ∷ s) line

read_lines-line :
    (line : Text) → lacks b'\n' line ≡ true → read_lines (line ++ b'\n' ∷ []) ≡ line ∷ []
unfolding read_lines lacks all
read_lines-line [] h = refl
read_lines-line (c ∷ line) h = ground (arith, read_lines-line line)

push_byte_cons :
    (c : ℕ) (ls : List Text) → (l : Text) × (rest : List Text) × (push_byte c ls ≡ l ∷ rest)
push_byte_cons c [] = (c ∷ [], [], refl)
push_byte_cons c (l ∷ ls) = (c ∷ l, ls, refl)

read_lines_cons : (c : ℕ) (s : Text) → (l : Text) × (ls : List Text) × (read_lines (c ∷ s) ≡ l ∷ ls)
unfolding read_lines
read_lines_cons c s =
    let (l, ls, e) = push_byte_cons c (read_lines s) in
    elim (Bool-cases (c == b'\n')) [
      | inl here ↦ ([], read_lines s, rw here refl)
      | inr on ↦ (l, ls, rw on e)
    ]

-- A whole line at the end of a terminated file is one more line.
pub read_lines-append :
    (s line : Text)
    → terminated s ≡ true
    → lacks b'\n' line ≡ true
    → read_lines (s ++ (line ++ b'\n' ∷ [])) ≡ read_lines s ++ line ∷ []
unfolding read_lines
read_lines-append [] line t h = read_lines-line line h
read_lines-append (c ∷ []) line t h = ground (arith, read_lines-line line h)
read_lines-append (c ∷ d ∷ s) line t h =
    let (l, ls, e) = read_lines_cons d s in ground (arith, read_lines-append (d ∷ s) line t h, e)

pub trim_end-brace : (body : Text) → trim_end (body ++ b'}' ∷ []) ≡ body ++ b'}' ∷ []
unfolding trim_end
trim_end-brace [] = refl
trim_end-brace (c ∷ []) = ground arith
trim_end-brace (c ∷ d ∷ body) = ground (arith, trim_end-brace (d ∷ body))

pub is_blank-brace : (body : Text) → is_blank (body ++ b'}' ∷ []) ≡ false
is_blank-brace [] = ap is_empty (trim_end-brace [])
is_blank-brace (c ∷ body) = ap is_empty (trim_end-brace (c ∷ body))

module _ (c : AuditCrates) (laws : AuditLaws c) where
  pub parse_line-to_string :
      (e : Entry c.Value) (line : Text) → c.to_string e ≡ some line → parse_line c line ≡ ok e
  unfolding parse_line
  parse_line-to_string e line h =
      let (body, shape) = laws.closed e line h in
      ground (arith, shape, trim_end-brace body, laws.reads_back e line h)

  pub is_blank-to_string :
      (e : Entry c.Value) (line : Text) → c.to_string e ≡ some line → is_blank line ≡ false
  is_blank-to_string e line h =
      let (body, shape) = laws.closed e line h in ap is_blank shape ∙ is_blank-brace body
