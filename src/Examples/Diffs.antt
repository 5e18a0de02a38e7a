-- ===== src/Examples/Diffs.antt =====
-- batching.py on a diff of two files.
use skodun.Prelude.{take, leb, length, ◌≡◌, refl, true, false, List, [], ◌∷◌, ◌++◌, arith, All}
use skodun.Prelude.Text.{Text, codes}
use skodun.Prelude.Int.{pos}
use skodun.Batching.Lines.{Bytes, is_diff_git, split_lines}
use skodun.Batching.Labels.{file_of}
use skodun.Batching.Split.{split, clamp}
use skodun.Batching.Packing.{Covers, split-Covers}
use skodun.Batching.Budget.{IsMarked, split-IsMarked}
use skodun.Batching.Small.{split_small}
use skodun.Batching.Regions.{changed_regions, headers, changed_regions-IsCapped}

abbrev decode_ascii : Bytes → Text
decode_ascii bs = bs

file_of_plain :
    file_of decode_ascii (codes "diff --git a/src b/x.py b/src b/y.py\n" ∷ []) ≡ codes "y.py"
unfolding file_of is_diff_git
file_of_plain = refl

file_of_quoted :
    file_of decode_ascii (codes "diff --git \"a/we\\\"ird\" \"b/we\\\"ird\\101\"\n" ∷ [])
    ≡ codes "we\"irdA"
unfolding file_of is_diff_git
file_of_quoted = refl

abbrev one_file : Bytes
one_file = codes "diff --git a/x b/x\n@@ -1 +1 @@\n-a\n+b\n"

abbrev two_hunks : Bytes
two_hunks = one_file ++ codes "@@ -9 +9 @@\n-c\n+d\n"

split-Covers_example : Covers (clamp (pos 40)) two_hunks (split decode_ascii two_hunks (pos 40))
split-Covers_example = split-Covers decode_ascii two_hunks (pos 40)

split-IsMarked_example : All (IsMarked (clamp (pos 40))) (split decode_ascii two_hunks (pos 40))
split-IsMarked_example = split-IsMarked decode_ascii two_hunks (pos 40)

split_small_example :
    (files : List Text) × (split decode_ascii one_file (pos 64)
      ≡ record { data_ = one_file; files = files; truncated = false } ∷ [])
split_small_example = split_small decode_ascii one_file 64 (omega arith) (omega arith)

changed_regions-IsCapped_example :
    ((changed_regions decode_ascii two_hunks (pos 2)).0
      ≡ take (clamp (pos 2)) (headers decode_ascii (split_lines two_hunks)))
    × ((changed_regions decode_ascii two_hunks (pos 2)).1
        ≡ leb (clamp (pos 2)) (length (headers decode_ascii (split_lines two_hunks))))
changed_regions-IsCapped_example = changed_regions-IsCapped decode_ascii two_hunks (pos 2)

two_regions :
    changed_regions decode_ascii two_hunks (pos 2)
    ≡ (codes "diff --git a/x b/x" ∷ codes "@@ -1 +1 @@" ∷ [], true)
unfolding changed_regions split_lines skodun.Batching.Regions.is_header is_diff_git clamp
    skodun.Batching.Lines.is_hunk skodun.Batching.Labels.rstrip
two_regions = refl
