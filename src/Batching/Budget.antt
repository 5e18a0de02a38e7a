-- ===== src/Batching/Budget.antt =====
-- The sizes of the batches, and their `truncated` flags.
use skodun.Prelude.{
  ℕ, ◌+◌, ◌≤◌, ◌<◌, ◌≡◌, refl, ap, sym, ◌∙◌, true, false, ◌&&◌, not, List, [], ◌∷◌, ◌++◌, arith,
  Bool-cases, inl, inr, if◌then◌else◌, ltb, length, concat, is_empty, All, All-append,
}
use mathlib.Core.Path.{subst}
use skodun.Prelude.Text.{Text}
use skodun.Prelude.Int.{ℤ}
use skodun.Batching.Lines.{Bytes, split_lines, blen, blen-concat, blen-append}
use skodun.Batching.Split.{
  Unit_, Batch, Packer, reset, flush, append_unit, settle, pack, pack_all, clamp, sections,
  all_units, split,
}

-- The flag tells exactly whether the batch is above the budget.
abbrev pub IsMarked : ℕ → Batch → Type 0
IsMarked budget b = b.truncated ≡ ltb budget (length b.data_)

-- Between two units: the batches so far are marked right, and what is collected fits.
record IsTight (budget : ℕ) (p : Packer) : Type 0 where
  marked : All (IsMarked budget) p.batches
  counted : p.cur_bytes ≡ blen p.cur_lines
  fits : p.cur_bytes ≤ budget
  clear : p.cur_truncated ≡ false

reset-IsTight :
    (budget : ℕ) (bs : List Batch) → All (IsMarked budget) bs → IsTight budget (reset bs)
unfolding blen
reset-IsTight budget bs h = record { marked = h; counted = refl; fits = omega arith; clear = refl }

flush-IsMarked :
    (budget : ℕ) (p : Packer)
    → All (IsMarked budget) p.batches
    → p.cur_truncated ≡ ltb budget (blen p.cur_lines)
    → All (IsMarked budget) (flush p).batches
unfolding flush
flush-IsMarked budget p h e = go p.cur_lines e
  where
    go :
        (ls : List Bytes)
        → p.cur_truncated ≡ ltb budget (blen ls)
        → All
            (IsMarked budget)
            (if is_empty ls
              then reset p.batches
              else reset (
                  p.batches
                  ++ record { data_ = concat ls; files = p.cur_files; truncated = p.cur_truncated }
                    ∷ [])).batches
    go [] e = h
    go (l ∷ ls) e =
        All-append (IsMarked budget) p.batches _ h
          (e ∙ ap (ltb budget) (sym (blen-concat (l ∷ ls))), tt)

flush-reset : (p : Packer) → flush p ≡ reset (flush p).batches
unfolding flush
flush-reset p = ground arith

flush-IsTight :
    (budget : ℕ) (p : Packer)
    → All (IsMarked budget) p.batches
    → p.cur_truncated ≡ ltb budget (blen p.cur_lines)
    → IsTight budget (flush p)
flush-IsTight budget p h e =
    subst (IsTight budget) (sym (flush-reset p))
      (reset-IsTight budget (flush p).batches (flush-IsMarked budget p h e))

cur_lines-flush : (p : Packer) → (flush p).cur_lines ≡ []
unfolding flush
cur_lines-flush p = ground arith

-- The unit is added to a packer that it fits into, or that collects nothing.
append-IsTight :
    (budget : ℕ) (u : Unit_) (p : Packer)
    → IsTight budget p
    → (blen u.lines ≤ budget → p.cur_bytes + blen u.lines ≤ budget)
    → (budget < blen u.lines → p.cur_lines ≡ [])
    → IsTight budget (settle budget (blen u.lines) (append_unit u p))
append-IsTight budget u p t fits alone = elim (Bool-cases (ltb budget (blen u.lines))) [
  | inl big ↦ rw big (
      flush-IsTight budget _ t.marked (
        unfold blen in
        ground
          (arith, big, alone, ap blen (alone (ground arith)), blen-append p.cur_lines u.lines)))
  | inr small ↦ rw small (record {
    marked = t.marked;
    counted = omega (arith, t.counted, blen-append p.cur_lines u.lines);
    fits = fits (ground arith);
    clear = t.clear;
  })
]

pack-IsTight :
    (budget : ℕ) (p : Packer) (u : Unit_) → IsTight budget p → IsTight budget (pack budget p u)
unfolding pack
pack-IsTight budget p u t =
    elim (Bool-cases (not (is_empty p.cur_lines) && ltb budget (p.cur_bytes + blen u.lines))) [
      | inl full ↦ rw full (
          append-IsTight budget u (flush p)
            (flush-IsTight budget p t.marked (ground (arith, t.clear, t.counted, t.fits)))
            (λ le. unfold flush in ground arith) (λ _. cur_lines-flush p))
      | inr room ↦ rw room (
          append-IsTight budget u p t
            (λ le. ground (arith, t.counted, room, empty_bytes p.cur_lines, t.fits))
            (λ big. empty_lines p.cur_lines (ground arith)))
    ]
  where
    empty_lines : (ls : List Bytes) → is_empty ls ≡ true → ls ≡ []
    empty_lines [] e = refl
    empty_lines (l ∷ ls) e = cc

    empty_bytes : (ls : List Bytes) → is_empty ls ≡ true → blen ls ≡ 0
    empty_bytes [] e = unfold blen in refl
    empty_bytes (l ∷ ls) e = cc

pack_all-IsTight :
    (budget : ℕ) (p : Packer) (us : List Unit_)
    → IsTight budget p
    → IsTight budget (pack_all budget p us)
unfolding pack_all
pack_all-IsTight budget p [] t = t
pack_all-IsTight budget p (u ∷ us) t =
    pack_all-IsTight budget (pack budget p u) us (pack-IsTight budget p u t)

-- Every batch of `split` is flagged `truncated` exactly if it is longer than the budget: no oversized
-- batch goes unflagged, and no batch that fits is flagged.
pub split-IsMarked :
    (decode : Bytes → Text) (diff : Bytes) (budget : ℤ)
    → All (IsMarked (clamp budget)) (split decode diff budget)
unfolding split
split-IsMarked decode diff budget =
    flush-IsMarked (clamp budget) packed t.marked (ground (arith, t.clear, t.counted, t.fits))
  where
    packed : Packer
    packed =
        pack_all (clamp budget) (reset [])
          (all_units decode (sections (split_lines diff)) (clamp budget))

    t : IsTight (clamp budget) packed
    t =
        pack_all-IsTight (clamp budget) (reset [])
          (all_units decode (sections (split_lines diff)) (clamp budget))
          (reset-IsTight (clamp budget) [] tt)
