-- ===== src/Batching/Packing.antt =====
-- The packing loop of `split` loses nothing: together with the cut of the sections it carries the diff.
use skodun.Prelude.{
  ℕ, ◌+◌, ◌≡◌, refl, ap, sym, ◌∙◌, Bool, true, false, ◌&&◌, not, List, [], ◌∷◌, ◌++◌, map, arith,
  Bool-cases, inl, inr, if◌then◌else◌, ltb, concat, concat-append, is_empty,
}
use mathlib.Core.List.{append_assoc, append-nil, map-append}
use skodun.Prelude.Text.{Text}
use skodun.Prelude.Int.{ℤ}
use skodun.Batching.Lines.{Bytes, split_lines, concat-split_lines, blen}
use skodun.Batching.Split.{
  Unit_, Batch, Packer, reset, flush, append_unit, settle, pack, pack_all, clamp, sections,
  all_units, split,
}
use skodun.Batching.Coverage.{
  Cuts, AreSections, unit_lines, concat-sections, sections-AreSections, all_units-Cuts,
}

-- What a packer holds: the data of its batches, and the lines that it is still collecting.
unfoldable pub batch_data : List Batch → Bytes
batch_data bs = concat (map (λ b. b.data_) bs)

unfoldable pub held : Packer → Bytes
held p = batch_data p.batches ++ concat p.cur_lines

pub batch_data-snoc :
    (bs : List Batch) (b : Batch) → batch_data (bs ++ b ∷ []) ≡ batch_data bs ++ b.data_
unfolding batch_data
batch_data-snoc bs b = simp (map-append, concat-append) (unfold concat in simp append-nil)

pub held-flush : (p : Packer) → batch_data (flush p).batches ≡ held p
unfolding flush held
held-flush p = go p.cur_lines
  where
    go :
        (ls : List Bytes)
        → batch_data
            (if is_empty ls
              then reset p.batches
              else reset (
                  p.batches
                  ++ record { data_ = concat ls; files = p.cur_files; truncated = p.cur_truncated }
                    ∷ [])).batches
          ≡ batch_data p.batches ++ concat ls
    go [] = unfold concat in rw append-nil
    go (l ∷ ls) =
        batch_data-snoc p.batches
          (record { data_ = concat (l ∷ ls); files = p.cur_files; truncated = p.cur_truncated })

cur_lines-flush : (p : Packer) → (flush p).cur_lines ≡ []
unfolding flush
cur_lines-flush p = ground arith

held-flush_self : (p : Packer) → held (flush p) ≡ held p
held-flush_self p =
    unfold held in rw cur_lines-flush (unfold concat in rw append-nil (held-flush p))

held-append_unit : (u : Unit_) (p : Packer) → held (append_unit u p) ≡ held p ++ concat u.lines
unfolding held
held-append_unit u p = simp (concat-append, append_assoc)

held-settle : (budget ub : ℕ) (p : Packer) → held (settle budget ub p) ≡ held p
held-settle budget ub p = elim (Bool-cases (ltb budget ub)) [
  | inl e ↦ rw e (held-flush_self (record p { cur_truncated = true }) ∙ (unfold held in refl))
  | inr e ↦ rw e
]

held-pack :
    (budget : ℕ) (p : Packer) (u : Unit_) → held (pack budget p u) ≡ held p ++ concat u.lines
unfolding pack
held-pack budget p u =
    held-settle budget (blen u.lines) _
    ∙ held-append_unit u _
    ∙ ap (λ x. x ++ concat u.lines)
        (go (not (is_empty p.cur_lines) && ltb budget (p.cur_bytes + blen u.lines)))
  where
    go : (b : Bool) → held (if b then flush p else p) ≡ held p
    go true = held-flush_self p
    go false = refl

pub held-pack_all :
    (budget : ℕ) (p : Packer) (us : List Unit_)
    → held (pack_all budget p us) ≡ held p ++ concat (concat (unit_lines us))
unfolding pack_all concat
held-pack_all budget p [] = rw append-nil
held-pack_all budget p (u ∷ us) =
    held-pack_all budget (pack budget p u) us
    ∙ rw held-pack (
        append_assoc (held p) (concat u.lines) (concat (concat (unit_lines us)))
        ∙ ap (λ x. held p ++ x) (sym (concat-append u.lines (concat (unit_lines us)))))

-- The sections that the diff's lines make up, the pieces that each was cut into, and the batches that
-- carry the pieces.
pub record Covers (budget : ℕ) (diff : Bytes) (batches : List Batch) : Type 0 where
  pub sections_of : List (List Bytes)
  pub pieces_of : List (List Bytes)
  pub complete : concat sections_of ≡ split_lines diff
  pub bytes : concat (concat sections_of) ≡ diff
  pub are_sections : AreSections sections_of
  pub cuts : Cuts budget sections_of pieces_of
  pub carried : concat (map (λ b. b.data_) batches) ≡ concat (concat pieces_of)

-- Joined in order, the batches carry exactly the pieces of the diff's sections. The sections are the
-- diff's lines, which make up its bytes, cut before every `diff --git` line but the first line; a section that fits the budget, or
-- has no hunk, is one piece, and any other is cut into all its hunks, each behind a copy of its header.
pub split-Covers :
    (decode : Bytes → Text) (diff : Bytes) (budget : ℤ)
    → Covers (clamp budget) diff (split decode diff budget)
unfolding split batch_data held concat
split-Covers decode diff budget = record {
  sections_of = sections (split_lines diff);
  pieces_of = unit_lines us;
  complete = concat-sections (split_lines diff);
  bytes = rw concat-sections (concat-split_lines diff);
  are_sections = sections-AreSections (split_lines diff);
  cuts = all_units-Cuts decode (clamp budget) (sections (split_lines diff));
  carried =
      held-flush (pack_all (clamp budget) (reset []) us)
      ∙ held-pack_all (clamp budget) (reset []) us;
}
  where
    us : List Unit_
    us = all_units decode (sections (split_lines diff)) (clamp budget)
