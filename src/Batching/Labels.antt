-- ===== src/Batching/Labels.antt =====
-- `_file_of` and `_unquote_c` of batching.py: the changed file that a section's header names. A line has no
-- line break inside. `decode` stands for `bytes.decode("utf-8", "replace")`.
use skodun.Prelude.{
  ℕ, zero, suc, ◌+◌, ◌*◌, ◌-◌, Bool, true, false, ◌&&◌, ◌||◌, Option, none, some, List, [], ◌∷◌,
  ◌++◌, leb, ◌==◌, if◌then◌else◌,
}
use Prim.Native.Nat.{◌%◌}
use mathlib.Core.List.{reverse}
use skodun.Prelude.Text.{Text, codes}
use skodun.Batching.Lines.{Bytes, is_diff_git}

abbrev is_octal : ℕ → Bool
is_octal c = leb b'0' c && leb c b'7'

-- `_C_ESCAPES.get(body, body)`
abbrev c_escape : ℕ → ℕ
c_escape c =
    if c == b'a'
    then 7
    else if c == b'b'
    then 8
    else if c == b'f'
    then 12
    else if c == b'n'
    then 10
    else if c == b'r'
    then 13
    else if c == b't'
    then 9
    else if c == b'v'
    then 11
    else c

-- Where the substitution of escapes stands: outside, behind a backslash, or in octal digits.
pub data Escape : Type 0 where
  plain : Escape
  opened : Escape
  octal : ℕ → ℕ → Escape

unquote_from : Escape → Bytes → Bytes
unquote_from plain [] = []
unquote_from opened [] = b'\\' ∷ []
unquote_from (octal left v) [] = v % 256 ∷ []
unquote_from plain (c ∷ cs) =
    let escape = unquote_from opened cs in
    let next = c ∷ unquote_from plain cs in if c == b'\\' then escape else next
unquote_from opened (c ∷ cs) =
    let digit = unquote_from (octal 2 (c - b'0')) cs in
    let other = c_escape c ∷ unquote_from plain cs in if is_octal c then digit else other
unquote_from (octal zero v) (c ∷ cs) =
    let escape = v % 256 ∷ unquote_from opened cs in
    let next = v % 256 ∷ c ∷ unquote_from plain cs in if c == b'\\' then escape else next
unquote_from (octal (suc left) v) (c ∷ cs) =
    let digit = unquote_from (octal left (v * 8 + (c - b'0'))) cs in
    let escape = v % 256 ∷ unquote_from opened cs in
    let next = v % 256 ∷ c ∷ unquote_from plain cs in
    if is_octal c then digit else if c == b'\\' then escape else next

unfoldable pub unquote_c : Bytes → Bytes
unfolding unquote_from
unquote_c raw = unquote_from plain raw

-- `((?:[^"\\]|\\.)*)"`: the body up to the first bare quote, and what is behind the quote.
quoted_body : Bytes → Bool → Bytes → Option (Bytes × Bytes)
quoted_body body escaped [] = none
quoted_body body true (c ∷ cs) =
    let rest = quoted_body (body ++ c ∷ []) false cs in if c == 10 then none else rest
quoted_body body false (c ∷ cs) =
    let rest = quoted_body (body ++ c ∷ []) (c == b'\\') cs in
    if c == b'"' then some (body, cs) else rest

strip_prefix : Bytes → Bytes → Option Bytes
strip_prefix [] line = some line
strip_prefix (p ∷ prefix) [] = none
strip_prefix (p ∷ prefix) (b ∷ line) = if p == b then strip_prefix prefix line else none

infixl 5 ◌>>=◌
abbrev ◌>>=◌ {ℓ κ} : {A : Type ℓ} {B : Type κ} → Option A → (A → Option B) → Option B
none >>= f = none
some a >>= f = f a

abbrev at_end : Bytes → Bytes → Option Bytes
at_end body [] = some body
at_end body (c ∷ cs) = none

-- Group 2 of `_QUOTED_PATHS`.
quoted_path : Bytes → Option Bytes
unfolding quoted_body strip_prefix
quoted_path rest = do
  r ← strip_prefix (codes "\"a/") rest
  (_, r) ← quoted_body [] false r
  r ← strip_prefix (codes " \"b/") r
  (body, r) ← quoted_body [] false r
  at_end body r

-- What is behind the last ` b/`, if there is one.
after_last : Bytes → Option Bytes
after_last [] = none
after_last (c ∷ cs) =
    let later = after_last cs in
    let here_ = strip_prefix (codes " b/") (c ∷ cs) in
    elim later [ none ↦ here_ | some path ↦ some path ]

-- Group 2 of `_PLAIN_PATHS`.
plain_path : Bytes → Option Bytes
unfolding strip_prefix after_last
plain_path rest = do r ← strip_prefix (codes "a/") rest; after_last r

unfoldable pub drop_while : (ℕ → Bool) → Bytes → Bytes
drop_while p [] = []
drop_while p (c ∷ cs) = if p c then drop_while p cs else c ∷ cs

-- `strip` and `rstrip` of the bytes that `p` holds of.
unfoldable pub rstrip : (ℕ → Bool) → Bytes → Bytes
unfolding drop_while
rstrip p bs = reverse (drop_while p (reverse bs))

strip : (ℕ → Bool) → Bytes → Bytes
unfolding rstrip drop_while
strip p bs = drop_while p (rstrip p bs)

abbrev pub is_newline : ℕ → Bool
is_newline c = c == 13 || c == 10

abbrev is_white : ℕ → Bool
is_white c = c == 32 || (leb 9 c && leb c 13)

drop : ℕ → Bytes → Bytes
drop zero bs = bs
drop (suc n) [] = []
drop (suc n) (b ∷ bs) = drop n bs

module _ (decode : Bytes → Text) where
  label : Bytes → Text
  unfolding quoted_path plain_path strip rstrip unquote_c
  label rest = elim (quoted_path rest) [
    | some path ↦ decode (unquote_c path)
    | none ↦ elim (plain_path rest) [
      | some path ↦ decode (strip (λ c. c == b'"') (strip is_white path))
      | none ↦ decode (strip is_white rest)
    ]
  ]

  unfoldable pub file_of : List Bytes → Text
  unfolding label rstrip drop
  file_of [] = []
  file_of (ln ∷ lines) =
      if is_diff_git ln then label (rstrip is_newline (drop 11 ln)) else file_of lines
