-- ===== src/Examples/Refs.antt =====
-- dispatch.py on a push of a branch, a deleted branch, a tag and a line that is cut off.
use skodun.Prelude.{◌≡◌, refl, false, ◌++◌, List, [], ◌∷◌, keep, map}
use skodun.Prelude.Text.{Text, codes}
use skodun.Trust.{split_lines}
use skodun.Prepush.Refs.{parse_ref_lines}
use skodun.Prepush.Classes.{Answers, has_text, parse_ref_lines-Answers}

abbrev quoted : Text → Text
quoted raw = codes "'" ++ raw ++ codes "'"

abbrev line : Text → Text
line raw = raw ++ 10 ∷ []

abbrev pushed : Text
pushed =
    line (codes "refs/heads/feat a1 refs/heads/feat 0000")
    ++ line (codes "refs/heads/old 0000 refs/heads/old b2")
    ++ line (codes " ")
    ++ line (codes "refs/tags/v1 c3 refs/tags/v1 0000")
    ++ line (codes "refs/heads/cut d4")

branches : map (λ r. r.branch) (parse_ref_lines quoted pushed) ≡ codes "feat" ∷ [] ∷ [] ∷ [] ∷ []
unfolding parse_ref_lines split_lines skodun.Trust.is_line_break skodun.Prelude.all
branches = refl

parse_ref_lines-Answers_example :
    Answers (keep (has_text quoted) (split_lines [] false pushed)) (parse_ref_lines quoted pushed)
parse_ref_lines-Answers_example = parse_ref_lines-Answers quoted pushed
