-- ===== src/Batching/Small.antt =====
-- A diff within the budget is one batch, byte for byte.
use skodun.Prelude.{
  ℕ, zero, suc, ◌+◌, ◌≤◌, ◌<◌, ◌≡◌, refl, ap, sym, ◌∙◌, Bool, false, List, [], ◌∷◌, ◌++◌, arith,
  if◌then◌else◌, le→leb, length, concat, concat-append, is_empty,
}
use mathlib.Core.Path.{subst, ap₂}
use mathlib.Core.List.{append-nil}
use skodun.Prelude.Text.{Text}
use skodun.Prelude.Int.{pos}
use skodun.Batching.Lines.{Bytes, split_lines, concat-split_lines, blen, blen-concat, blen-append}
use skodun.Batching.Split.{
  Unit_, Batch, Packer, reset, flush, pack, pack_all, clamp, sections, units, all_units, split,
}
use skodun.Batching.Coverage.{concat-sections, unit_lines, map-append-lines}
use skodun.Batching.Packing.{batch_data, held, held-pack_all}

units-small :
    (decode : Bytes → Text) (section : List Bytes) (budget : ℕ)
    → blen section ≤ budget
    → unit_lines (units decode section budget) ≡ section ∷ []
unfolding units
units-small decode section budget h = rw (le→leb _ _ h)

all_units-small :
    (decode : Bytes → Text) (secs : List (List Bytes)) (budget : ℕ)
    → blen (concat secs) ≤ budget
    → concat (unit_lines (all_units decode secs budget)) ≡ concat secs
unfolding all_units concat
all_units-small decode [] budget h = refl
all_units-small decode (section ∷ rest) budget h =
    ap concat (map-append-lines (units decode section budget) (all_units decode rest budget))
    ∙ concat-append (unit_lines (units decode section budget))
        (unit_lines (all_units decode rest budget))
    ∙ ap₂ (λ a b. concat a ++ b)
        (units-small decode section budget (omega (arith, blen-append section (concat rest))))
        (all_units-small decode rest budget (omega (arith, blen-append section (concat rest))))
    ∙ ap (λ x. x ++ concat rest) (append-nil section)

-- Nothing is flushed and nothing is flagged while all that is left still fits.
record IsFirst (p : Packer) : Type 0 where
  none_yet : p.batches ≡ []
  clear : p.cur_truncated ≡ false

pack-IsFirst :
    (budget : ℕ) (p : Packer) (u : Unit_)
    → p.cur_bytes + blen u.lines ≤ budget
    → IsFirst p
    → IsFirst (pack budget p u) × ((pack budget p u).cur_bytes ≡ p.cur_bytes + blen u.lines)
unfolding pack
pack-IsFirst budget p u fits f = ground (arith, f.none_yet, f.clear)

pack_all-IsFirst :
    (budget : ℕ) (p : Packer) (us : List Unit_)
    → p.cur_bytes + blen (concat (unit_lines us)) ≤ budget
    → IsFirst p
    → IsFirst (pack_all budget p us)
unfolding pack_all concat
pack_all-IsFirst budget p [] fits f = f
pack_all-IsFirst budget p (u ∷ us) fits f =
    let total = blen-append u.lines (concat (unit_lines us)) in
    let step = pack-IsFirst budget p u (omega arith) f in
    pack_all-IsFirst budget (pack budget p u) us (omega (arith, step.1)) step.0

one_batch :
    (bs : List Batch) (ls : List Bytes) (files : List Text) (t : Bool) (diff : Bytes)
    → bs ≡ []
    → t ≡ false
    → batch_data bs ++ concat ls ≡ diff
    → 0 < length diff
    → (if is_empty ls
        then reset bs
        else reset (bs ++ record { data_ = concat ls; files = files; truncated = t } ∷ [])).batches
      ≡ record { data_ = diff; files = files; truncated = false } ∷ []
unfolding batch_data concat
one_batch (b ∷ bs) ls files t diff e f h n = cc
one_batch [] [] files t diff e f h n = absurd (omega (arith, ap length h))
one_batch [] (l ∷ ls) files t diff e f h n =
    λ i. record { data_ = h i; files = files; truncated = f i } ∷ []

flush-one :
    (p : Packer) (diff : Bytes)
    → IsFirst p
    → held p ≡ diff
    → 0 < length diff
    → (flush p).batches ≡ record { data_ = diff; files = p.cur_files; truncated = false } ∷ []
unfolding flush held
flush-one p diff f h n =
    one_batch p.batches p.cur_lines p.cur_files p.cur_truncated diff f.none_yet f.clear h n

-- A diff that is not empty and not longer than the budget is split into one batch, whose data are the
-- diff's bytes and which is not flagged.
pub split_small :
    (decode : Bytes → Text) (diff : Bytes) (budget : ℕ)
    → 0 < length diff
    → length diff ≤ budget
    → (files : List Text) × (split decode diff (pos budget)
        ≡ record { data_ = diff; files = files; truncated = false } ∷ [])
unfolding split clamp
split_small decode diff zero some_ fits = absurd (omega arith)
split_small decode diff (suc b) some_ fits =
    (packed.cur_files, flush-one packed diff first whole some_)
  where
    us : List Unit_
    us = all_units decode (sections (split_lines diff)) (suc b)

    packed : Packer
    packed = pack_all (suc b) (reset []) us

    secs_size : blen (concat (sections (split_lines diff))) ≡ length diff
    secs_size =
        rw concat-sections
          (sym (blen-concat (split_lines diff)) ∙ ap length (concat-split_lines diff))

    same : concat (unit_lines us) ≡ split_lines diff
    same =
        all_units-small decode (sections (split_lines diff)) (suc b) (omega (arith, secs_size))
        ∙ concat-sections (split_lines diff)

    first : IsFirst packed
    first =
        pack_all-IsFirst (suc b) (reset []) us
          (subst (λ x. 0 + blen x ≤ suc b) (sym same)
            (omega (arith, blen-concat (split_lines diff), ap length (concat-split_lines diff))))
          (record { none_yet = refl; clear = refl })

    whole : held packed ≡ diff
    whole =
        held-pack_all (suc b) (reset []) us
        ∙ (unfold held batch_data concat in ap concat same ∙ concat-split_lines diff)
