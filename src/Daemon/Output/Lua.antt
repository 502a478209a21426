-- ===== src/Daemon/Output/Lua.antt =====
-- crates/daemon/src/output.rs: `lua_string`, and a reader of Lua's quoted strings to hold it against.
use mathlib.Core.List.{append_assoc}
use moreland_kde.Base.{
  ℕ, ◌≡◌, refl, sym, ap, subst, ◌∙◌, inl, inr, Bool, true, false, ◌||◌, Option, none, some, [], ◌∷◌,
  ◌++◌, ◌==◌, if◌then◌else◌, ==_iff, Bool-cases,
}
use moreland_kde.Base.Text.{Text}

abbrev pub quote : ℕ
quote = b'"'

abbrev pub backslash : ℕ
backslash = 92

abbrev pub escape_char : ℕ → Text
escape_char c =
    if c == backslash
    then backslash ∷ backslash ∷ []
    else if c == quote
    then backslash ∷ quote ∷ []
    else if c == 10
    then backslash ∷ b'n' ∷ []
    else if c == 13
    then backslash ∷ b'r' ∷ []
    else if c == 9
    then backslash ∷ b't' ∷ []
    else c ∷ []

abbrev pub escape : Text → Text
escape [] = []
escape (c ∷ s) = escape_char c ++ escape s

unfoldable pub lua_string : Text → Text
lua_string value = quote ∷ (escape value ++ (quote ∷ []))

-- What Lua reads for a character after a backslash; the other escapes are left out.
abbrev pub unescaped : ℕ → Option ℕ
unescaped c =
    if c == backslash
    then some backslash
    else if c == quote
    then some quote
    else if c == b'n'
    then some 10
    else if c == b'r'
    then some 13
    else if c == b't'
    then some 9
    else none

abbrev pub push_char : Option ℕ → Option (Text × Text) → Option (Text × Text)
push_char (some c) (some (s, rest)) = some (c ∷ s, rest)
push_char (some c) none = none
push_char none _ = none

-- A string of Lua up to its closing quote, and what follows it, where the character before was an
-- opening backslash or not; a bare line break is no part of a string.
abbrev pub read_body : Bool → Text → Option (Text × Text)
read_body opened [] = none
read_body true (c ∷ s) = push_char (unescaped c) (read_body false s)
read_body false (c ∷ s) =
    let escaped = read_body true s in
    let plain = push_char (some c) (read_body false s) in
    if c == quote
    then some ([], s)
    else if c == backslash
    then escaped
    else if c == 10 || c == 13
    then none
    else plain

abbrev pub read_lua : Text → Option (Text × Text)
read_lua [] = none
read_lua (c ∷ s) = let body = read_body false s in if c == quote then body else none

-- A character that is escaped reads as itself.
IsReadBack : Text → ℕ → Type 0
IsReadBack tail c =
    read_body false (escape_char c ++ tail) ≡ push_char (some c) (read_body false tail)

plain_char :
    (tail : Text) (c : ℕ) (b : Bool)
    → c == backslash ≡ false
    → c == quote ≡ false
    → c == 10 ≡ false
    → c == 13 ≡ false
    → c == 9 ≡ b
    → IsReadBack tail c
unfolding IsReadBack
plain_char tail c true e1 e2 e3 e4 e5 = subst (IsReadBack tail) (sym ((==_iff c 9).0 e5)) refl
plain_char tail c false e1 e2 e3 e4 e5 = rw (e1, e2, e3, e4, e5) (rw (e2, e1, e3, e4) refl)

read_char : (tail : Text) (c : ℕ) → IsReadBack tail c
unfolding IsReadBack
read_char tail c = elim (Bool-cases (c == backslash)) [
  | inl e1 ↦ subst (IsReadBack tail) (sym ((==_iff c backslash).0 e1)) refl
  | inr e1 ↦ elim (Bool-cases (c == quote)) [
    | inl e2 ↦ subst (IsReadBack tail) (sym ((==_iff c quote).0 e2)) refl
    | inr e2 ↦ elim (Bool-cases (c == 10)) [
      | inl e3 ↦ subst (IsReadBack tail) (sym ((==_iff c 10).0 e3)) refl
      | inr e3 ↦ elim (Bool-cases (c == 13)) [
        | inl e4 ↦ subst (IsReadBack tail) (sym ((==_iff c 13).0 e4)) refl
        | inr e4 ↦ plain_char tail c (c == 9) e1 e2 e3 e4 refl
      ]
    ]
  ]
]

read_body-escape :
    (value rest : Text) → read_body false (escape value ++ (quote ∷ rest)) ≡ some (value, rest)
unfolding IsReadBack
read_body-escape [] rest = refl
read_body-escape (c ∷ s) rest =
    ap (read_body false) (append_assoc (escape_char c) (escape s) (quote ∷ rest))
    ∙ read_char (escape s ++ (quote ∷ rest)) c
    ∙ ap (push_char (some c)) (read_body-escape s rest)

-- Lua reads the quoted string back as the value, whatever characters the value has, and goes on
-- behind it: no name of an output closes the string or adds to the program.
pub read_lua-lua_string :
    (value rest : Text) → read_lua (lua_string value ++ rest) ≡ some (value, rest)
unfolding lua_string
read_lua-lua_string value rest =
    ap (read_body false) (append_assoc (escape value) (quote ∷ []) rest)
    ∙ read_body-escape value rest
