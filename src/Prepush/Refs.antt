-- ===== src/Prepush/Refs.antt =====
-- `parse_ref_lines` of dispatch.py: the lines of git's pre-push input, classified.
use skodun.Prelude.{
  ℕ, Bool, true, false, not, ◌&&◌, ◌==◌, List, [], ◌∷◌, ◌++◌, is_empty, if◌then◌else◌, all, length,
  leb,
}
use skodun.Prelude.Text.{Text, codes, starts_with}
use skodun.Textnorm.{is_space, strip}
use skodun.Trust.{split_lines}

abbrev pub heads : Text
heads = codes "refs/heads/"

abbrev is_zero_digit : ℕ → Bool
is_zero_digit c = c == 48

-- `_is_zero`
unfoldable pub is_zero : Text → Bool
is_zero oid = not (is_empty oid) && all is_zero_digit oid

pub record Ref : Type 0 where
  pub local_ref : Text
  pub local_oid : Text
  pub remote_ref : Text
  pub remote_oid : Text
  pub branch : Text
  pub actionable : Bool
  pub skip_reason : Text

abbrev pub with_field : Text → List Text → List Text
with_field [] fields = fields
with_field (c ∷ s) fields = (c ∷ s) ∷ fields

-- `raw.split()`; `cur` is the field that has begun.
unfoldable pub split : Text → Text → List Text
unfolding is_space
split cur [] = with_field cur []
split cur (c ∷ s) =
    let ended = with_field cur (split [] s) in
    let grown = split (cur ++ c ∷ []) s in if is_space c then ended else grown

-- `local_ref[len(_HEADS):]` of a reference that starts so.
unfoldable pub after : Text → Text → Text
after [] s = s
after (a ∷ prefix) [] = []
after (a ∷ prefix) (c ∷ s) = after prefix s

-- `remote_ref or local_ref`
abbrev pub or_ref : Text → Text → Text
or_ref [] local_ref = local_ref
or_ref (c ∷ s) local_ref = c ∷ s

abbrev pub skipped : Text → Text → Text → Text → Text → Ref
skipped local_ref local_oid remote_ref remote_oid why = record {
  local_ref = local_ref;
  local_oid = local_oid;
  remote_ref = remote_ref;
  remote_oid = remote_oid;
  branch = [];
  actionable = false;
  skip_reason = why;
}

abbrev pub is_branch : Text → Bool
is_branch local_ref = starts_with heads local_ref && not (leb (length local_ref) (length heads))

unfoldable pub classified : Text → Text → Text → Text → Ref
unfolding is_zero starts_with after
classified local_ref local_oid remote_ref remote_oid =
    if is_zero local_oid
    then skipped local_ref local_oid remote_ref remote_oid
        (or_ref remote_ref local_ref ++ codes " is a deletion; nothing to review")
    else if not (is_branch local_ref)
    then skipped local_ref local_oid remote_ref remote_oid
        (local_ref ++ codes " is not a branch (refs/heads/*); not reviewed")
    else record {
      local_ref = local_ref;
      local_oid = local_oid;
      remote_ref = remote_ref;
      remote_oid = remote_oid;
      branch = after heads local_ref;
      actionable = true;
      skip_reason = [];
    }

-- `repr` of a text is a parameter.
module _ (repr : Text → Text) where
  abbrev pub malformed : Text → Text → Text
  malformed raw count =
      codes "malformed pre-push line "
      ++ repr raw
      ++ codes " ("
      ++ count
      ++ codes " field(s), expected 4)"

  unfoldable pub ref_of : Text → List Text → Ref
  unfolding classified
  ref_of raw [] = skipped [] [] [] [] (malformed raw (codes "0"))
  ref_of raw (a ∷ []) = skipped a [] [] [] (malformed raw (codes "1"))
  ref_of raw (a ∷ b ∷ []) = skipped a b [] [] (malformed raw (codes "2"))
  ref_of raw (a ∷ b ∷ c ∷ []) = skipped a b c [] (malformed raw (codes "3"))
  ref_of raw (a ∷ b ∷ c ∷ d ∷ rest) = classified a b c d

  abbrev pub is_blank : Text → Bool
  is_blank raw = is_empty (strip raw)

  unfoldable pub refs_of : List Text → List Ref
  unfolding split ref_of strip
  refs_of [] = []
  refs_of (raw ∷ lines) =
      let rest = refs_of lines in if is_blank raw then rest else ref_of raw (split [] raw) ∷ rest

  unfoldable pub parse_ref_lines : Text → List Ref
  unfolding refs_of
  parse_ref_lines text = refs_of (split_lines [] false text)
