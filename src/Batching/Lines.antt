-- ===== src/Batching/Lines.antt =====
-- Bytes and lines: `bytes.splitlines(keepends=True)`, `startswith` and `_blen` of batching.py.
use skodun.Prelude.{
  ℕ, ◌+◌, ◌≡◌, refl, Bool, true, false, ◌&&◌, List, [], ◌∷◌, ◌++◌, arith, Bool-cases, inl, inr,
  ◌==◌, if◌then◌else◌, length, is_empty, concat, length-append,
}
use mathlib.Core.List.{append_assoc}
use skodun.Prelude.Text.{codes}

abbrev pub Bytes : Type 0
Bytes = List ℕ

-- Lines end after `\n`, `\r` or `\r\n`; `cur` is the line being read, `cr` says that it ends in a `\r`
-- that a `\n` may still join.
unfoldable pub split_from : Bytes → Bool → Bytes → List Bytes
split_from cur cr [] = if is_empty cur then [] else cur ∷ []
split_from cur true (b ∷ bs) =
    let joined = (cur ++ b ∷ []) ∷ split_from [] false bs in
    let ended_cr = cur ∷ split_from (b ∷ []) true bs in
    let plain = cur ∷ split_from (b ∷ []) false bs in
    if b == 10 then joined else if b == 13 then ended_cr else plain
split_from cur false (b ∷ bs) =
    let ended = (cur ++ b ∷ []) ∷ split_from [] false bs in
    let ended_cr = split_from (cur ++ b ∷ []) true bs in
    let plain = split_from (cur ++ b ∷ []) false bs in
    if b == 10 then ended else if b == 13 then ended_cr else plain

unfoldable pub split_lines : Bytes → List Bytes
unfolding split_from
split_lines diff = split_from [] false diff

concat-split_from :
    (cur : Bytes) (cr : Bool) (bs : Bytes) → concat (split_from cur cr bs) ≡ cur ++ bs
unfolding split_from concat
concat-split_from [] cr [] = refl
concat-split_from (c ∷ cur) cr [] = refl
concat-split_from cur true (b ∷ bs) = elim (Bool-cases (b == 10)) [
  | inl e ↦ rw (e, concat-split_from [] false bs) (append_assoc cur (b ∷ []) bs)
  | inr e ↦ elim (Bool-cases (b == 13)) [
    | inl f ↦ rw (e, f, concat-split_from (b ∷ []) true bs)
    | inr f ↦ rw (e, f, concat-split_from (b ∷ []) false bs)
  ]
]
concat-split_from cur false (b ∷ bs) = elim (Bool-cases (b == 10)) [
  | inl e ↦ rw (e, concat-split_from [] false bs) (append_assoc cur (b ∷ []) bs)
  | inr e ↦ elim (Bool-cases (b == 13)) [
    | inl f ↦ rw (e, f, concat-split_from (cur ++ b ∷ []) true bs) (append_assoc cur (b ∷ []) bs)
    | inr f ↦ rw (e, f, concat-split_from (cur ++ b ∷ []) false bs) (append_assoc cur (b ∷ []) bs)
  ]
]

-- Joining the lines gives the bytes back.
pub concat-split_lines : (diff : Bytes) → concat (split_lines diff) ≡ diff
unfolding split_lines
concat-split_lines diff = concat-split_from [] false diff

unfoldable pub starts_with : Bytes → Bytes → Bool
starts_with [] line = true
starts_with (p ∷ prefix) [] = false
starts_with (p ∷ prefix) (b ∷ line) = p == b && starts_with prefix line

-- `ln.startswith(_DIFF_GIT)`
unfoldable pub is_diff_git : Bytes → Bool
unfolding starts_with
is_diff_git line = starts_with (codes "diff --git ") line

-- `ln.startswith(_HUNK)`
unfoldable pub is_hunk : Bytes → Bool
unfolding starts_with
is_hunk line = starts_with (codes "@@") line

-- `sum(len(ln) for ln in lines)`
unfoldable pub blen : List Bytes → ℕ
blen [] = 0
blen (ln ∷ lines) = length ln + blen lines

pub blen-concat : (lines : List Bytes) → length (concat lines) ≡ blen lines
unfolding blen concat
blen-concat [] = refl
blen-concat (ln ∷ lines) = omega (arith, length-append ln (concat lines), blen-concat lines)

pub blen-append : (xs ys : List Bytes) → blen (xs ++ ys) ≡ blen xs + blen ys
unfolding blen
blen-append [] ys = omega arith
blen-append (x ∷ xs) ys = omega (arith, blen-append xs ys)
