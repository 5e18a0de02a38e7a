-- ===== src/Batching/Regions.antt =====
-- `changed_regions` of batching.py: the header lines of a diff, up to a cap. Cutting at line ends and
-- stripping them is `splitlines` and `rstrip(b"\r\n")`.
use skodun.Prelude.{
  ℕ, zero, suc, ◌≤◌, ◌<◌, ◌≡◌, refl, ap, sym, ◌∙◌, Bool, true, false, ◌||◌, List, [], ◌∷◌, ◌++◌,
  map, arith, Bool-cases, inl, inr, if◌then◌else◌, leb, length, length-append, take, keep,
}
use mathlib.Core.List.{append-nil, append_assoc}
use mathlib.Core.Path.{subst}
use skodun.Prelude.Text.{Text}
use skodun.Prelude.Int.{ℤ}
use skodun.Batching.Lines.{Bytes, split_lines, is_diff_git, is_hunk}
use skodun.Batching.Labels.{rstrip, is_newline}
use skodun.Batching.Split.{clamp}

unfoldable pub is_header : Bytes → Bool
is_header ln = is_diff_git ln || is_hunk ln

module _ (decode : Bytes → Text) where
  abbrev pub region : Bytes → Text
  region ln = decode (rstrip is_newline ln)

  unfoldable pub regions_from : ℕ → List Text → List Bytes → List Text × Bool
  regions_from max_lines out [] = (out, false)
  regions_from max_lines out (ln ∷ lines) =
      let out' = out ++ region ln ∷ [] in
      let skip = regions_from max_lines out lines in
      let more = regions_from max_lines out' lines in
      if is_header ln then if leb max_lines (length out') then (out', true) else more else skip

  unfoldable pub changed_regions : Bytes → ℤ → List Text × Bool
  unfolding regions_from
  changed_regions diff max_lines = regions_from (clamp max_lines) [] (split_lines diff)

  -- The headers of the diff, all of them.
  pub headers : List Bytes → List Text
  headers lines = map region (keep is_header lines)

  take-append : (n : ℕ) (xs ys : List Text) → length xs ≡ n → take n (xs ++ ys) ≡ xs
  take-append zero [] ys h = refl
  take-append zero (x ∷ xs) ys h = absurd (omega arith)
  take-append (suc n) [] ys h = absurd (omega arith)
  take-append (suc n) (x ∷ xs) ys h = ap (λ t. x ∷ t) (take-append n xs ys (omega arith))

  take_all : (n : ℕ) (xs : List Text) → length xs ≤ n → take n xs ≡ xs
  take_all zero [] h = refl
  take_all zero (x ∷ xs) h = absurd (omega arith)
  take_all (suc n) [] h = refl
  take_all (suc n) (x ∷ xs) h = ap (λ t. x ∷ t) (take_all n xs (omega arith))

  -- What the loop returns, given the headers that it has collected.
  abbrev IsCapped : ℕ → List Text → List Text × Bool → Type 0
  IsCapped n all_headers (out, capped) =
      (out ≡ take n all_headers) × (capped ≡ leb n (length all_headers))

  regions_from-IsCapped :
      (n : ℕ) (out : List Text) (lines : List Bytes)
      → length out < n
      → IsCapped n (out ++ headers lines) (regions_from n out lines)
  unfolding regions_from headers keep
  regions_from-IsCapped n out [] h =
      rw append-nil (sym (take_all n out (omega arith)), ground arith)
  regions_from-IsCapped n out (ln ∷ lines) h = elim (Bool-cases (is_header ln)) [
    | inr other ↦ rw other (regions_from-IsCapped n out lines h)
    | inl header ↦
        let one = length-append out (region ln ∷ []) in
        let all_ = length-append out (region ln ∷ map region (keep is_header lines)) in
        rw header (elim (Bool-cases (leb n (length (out ++ region ln ∷ [])))) [
          | inl full ↦ rw full (
            sym (
                ap (take n)
                  (sym (append_assoc out (region ln ∷ []) (map region (keep is_header lines))))
                ∙ take-append n (out ++ region ln ∷ []) _ (ground (arith, one))),
            ground (arith, one, all_),
          )
          | inr room ↦ rw room (
              subst (λ hs. IsCapped n hs (regions_from n (out ++ region ln ∷ []) lines))
                (append_assoc out (region ln ∷ []) (map region (keep is_header lines)))
                (regions_from-IsCapped n (out ++ region ln ∷ []) lines (ground (arith, one))))
        ])
  ]

  -- The regions are the first `max_lines` header lines of the diff, in order, and the flag is raised
  -- exactly if there are at least that many; a cap below 1 counts as 1.
  pub changed_regions-IsCapped :
      (diff : Bytes) (max_lines : ℤ)
      → ((changed_regions diff max_lines).0 ≡ take (clamp max_lines) (headers (split_lines diff)))
        × ((changed_regions diff max_lines).1
            ≡ leb (clamp max_lines) (length (headers (split_lines diff))))
  unfolding changed_regions
  changed_regions-IsCapped diff max_lines =
      regions_from-IsCapped (clamp max_lines) [] (split_lines diff) (unfold clamp in ground arith)
