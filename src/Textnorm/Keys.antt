-- ===== src/Textnorm/Keys.antt =====
-- The ledger key determines what it was made of.
use skodun.Prelude.{◌≡◌, ◌≢◌, refl, [], ◌∷◌, ◌++◌, All}
use skodun.Prelude.Text.{Text}
use skodun.Json.{str}
use skodun.Textnorm.{Python, norm, ledger_key}

-- No NUL, the separator.
abbrev pub HasNoNul : Text → Type 0
HasNoNul s = All (λ c. c ≢ 0) s

split_at_nul :
    (a b x y : Text) → HasNoNul a → HasNoNul b → a ++ 0 ∷ x ≡ b ++ 0 ∷ y → (a ≡ b) × (x ≡ y)
split_at_nul [] [] x y ha hb e = (refl, cc)
split_at_nul [] (c ∷ b) x y ha hb e = absurd (hb.0 (cc))
split_at_nul (c ∷ a) [] x y ha hb e = absurd (ha.0 (cc))
split_at_nul (c ∷ a) (d ∷ b) x y ha hb e =
    let r = split_at_nul a b x y ha.1 hb.1 (cc) in (cc (r.0), r.1)

-- Two findings share a ledger key only within one branch and one base, up to normalisation, and with
-- one finding key: a decision never leaks to another scope. The normalised names hold no NUL.
pub ledger_key-injective :
    (py : Python) (branch base_sha fkey branch' base_sha' fkey' : Text)
    → HasNoNul (norm py (str branch))
    → HasNoNul (norm py (str branch'))
    → HasNoNul (norm py (str base_sha))
    → HasNoNul (norm py (str base_sha'))
    → ledger_key py branch base_sha fkey ≡ ledger_key py branch' base_sha' fkey'
    → (norm py (str branch) ≡ norm py (str branch'))
      × (norm py (str base_sha) ≡ norm py (str base_sha'))
      × (fkey ≡ fkey')
unfolding ledger_key
ledger_key-injective py branch base_sha fkey branch' base_sha' fkey' b b' s s' e =
    let outer = split_at_nul (norm py (str branch)) (norm py (str branch')) _ _ b b' e in
    let inner =
      split_at_nul (norm py (str base_sha)) (norm py (str base_sha')) fkey fkey' s s' outer.1 in
    (outer.0, inner.0, inner.1)
