-- ===== src/Batching/Split.antt =====
-- `_sections`, `_units`, `split` and `changed_regions` of batching.py. A loop over lines is a recursion
-- with the loop's variables as arguments.
use skodun.Prelude.{
  ℕ, zero, suc, ◌+◌, Bool, true, false, ◌&&◌, not, Option, none, some, List, [], ◌∷◌, ◌++◌, map,
  ltb, leb, if◌then◌else◌, is_empty, concat,
}
use skodun.Prelude.Text.{Text, is_in}
use skodun.Prelude.Int.{ℤ, pos, negsuc}
use skodun.Batching.Lines.{Bytes, split_lines, is_diff_git, is_hunk, blen}
use skodun.Batching.Labels.{file_of}

unfoldable pub sections_from : List Bytes → List Bytes → List (List Bytes)
sections_from cur [] = if is_empty cur then [] else cur ∷ []
sections_from cur (ln ∷ lines) =
    let cut = cur ∷ sections_from (ln ∷ []) lines in
    let grown = sections_from (cur ++ ln ∷ []) lines in
    if is_diff_git ln && not (is_empty cur) then cut else grown

unfoldable pub sections : List Bytes → List (List Bytes)
unfolding sections_from
sections lines = sections_from [] lines

pub record Unit_ : Type 0 where
  pub lines : List Bytes
  pub files : List Text

-- The loop of `_units`: the header, the closed hunks, and `cur`.
unfoldable pub cut_from :
    List Bytes
    → List (List Bytes)
    → Option (List Bytes)
    → List Bytes
    → List Bytes × List (List Bytes)
cut_from header hunks none [] = (header, hunks)
cut_from header hunks (some cur) [] = (header, hunks ++ cur ∷ [])
cut_from header hunks none (ln ∷ lines) =
    let begin = cut_from header hunks (some (ln ∷ [])) lines in
    let head = cut_from (header ++ ln ∷ []) hunks none lines in if is_hunk ln then begin else head
cut_from header hunks (some cur) (ln ∷ lines) =
    let begin = cut_from header (hunks ++ cur ∷ []) (some (ln ∷ [])) lines in
    let body = cut_from header hunks (some (cur ++ ln ∷ [])) lines in
    if is_hunk ln then begin else body

abbrev pub label_files : Text → List Text
label_files [] = []
label_files (c ∷ name) = (c ∷ name) ∷ []

abbrev pub with_header : List Bytes → List Text → List Bytes → Unit_
with_header header files hunk = record { lines = header ++ hunk; files = files }

abbrev pub pieces : List Bytes → List Text → List Bytes × List (List Bytes) → List Unit_
pieces section files (header, []) = record { lines = section; files = files } ∷ []
pieces section files (header, hunk ∷ hunks) = map (with_header header files) (hunk ∷ hunks)

pub record Batch : Type 0 where
  pub data_ : Bytes
  pub files : List Text
  pub truncated : Bool

-- The variables of `split`'s packing loop.
pub record Packer : Type 0 where
  pub batches : List Batch
  pub cur_lines : List Bytes
  pub cur_files : List Text
  pub cur_bytes : ℕ
  pub cur_truncated : Bool

abbrev pub reset : List Batch → Packer
reset batches = record {
  batches = batches;
  cur_lines = [];
  cur_files = [];
  cur_bytes = 0;
  cur_truncated = false;
}

unfoldable pub flush : Packer → Packer
flush p =
    let batch : Batch = record {
      data_ = concat p.cur_lines;
      files = p.cur_files;
      truncated = p.cur_truncated;
    } in
    if is_empty p.cur_lines then reset p.batches else reset (p.batches ++ batch ∷ [])

unfoldable pub add_files : List Text → List Text → List Text
add_files cur [] = cur
add_files cur (name ∷ names) = add_files (if is_in name cur then cur else cur ++ name ∷ []) names

abbrev pub append_unit : Unit_ → Packer → Packer
append_unit u p = record p {
  cur_lines = p.cur_lines ++ u.lines;
  cur_files = add_files p.cur_files u.files;
  cur_bytes = p.cur_bytes + blen u.lines;
}

abbrev pub settle : ℕ → ℕ → Packer → Packer
settle budget ub p = if ltb budget ub then flush (record p { cur_truncated = true }) else p

unfoldable pub pack : ℕ → Packer → Unit_ → Packer
unfolding flush
pack budget p u =
    let ub = blen u.lines in
    let p' = if not (is_empty p.cur_lines) && ltb budget (p.cur_bytes + ub) then flush p else p in
    settle budget ub (append_unit u p')

unfoldable pub pack_all : ℕ → Packer → List Unit_ → Packer
pack_all budget p [] = p
pack_all budget p (u ∷ us) = pack_all budget (pack budget p u) us

-- `if budget < 1: budget = 1`
unfoldable pub clamp : ℤ → ℕ
clamp (negsuc n) = 1
clamp (pos zero) = 1
clamp (pos (suc n)) = suc n

module _ (decode : Bytes → Text) where
  unfoldable pub units : List Bytes → ℕ → List Unit_
  unfolding cut_from
  units section budget =
      let files = label_files (file_of decode section) in
      if leb (blen section) budget
      then record { lines = section; files = files } ∷ []
      else pieces section files (cut_from [] [] none section)

  unfoldable pub all_units : List (List Bytes) → ℕ → List Unit_
  unfolding units
  all_units [] budget = []
  all_units (section ∷ rest) budget = units section budget ++ all_units rest budget

  unfoldable pub split : Bytes → ℤ → List Batch
  unfolding all_units sections pack_all flush
  split diff budget =
      let budget = clamp budget in
      let packed = pack_all budget (reset []) (all_units (sections (split_lines diff)) budget) in
      (flush packed).batches
