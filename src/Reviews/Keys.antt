-- ===== src/Reviews/Keys.antt =====
-- Reading a key of a dictionary after another was set.
use skodun.Prelude.{◌≡◌, refl, ap, ◌∙◌, sym, inl, inr, false, some, Bool-cases, if◌then◌else◌}
use skodun.Prelude.Text.{Text, text_eq, text_eq_iff, text_eq_refl}
use skodun.Json.{Json, Fields, end, field, get, get_or_null, get_default}
use skodun.Reviews.Record.{set}

pub get-set : (key : Text) (v : Json) (fs : Fields) → get key (set key v fs) ≡ some v
unfolding get set
get-set key v end = rw (text_eq_refl key) refl
get-set key v (field k w fs) = elim (Bool-cases (text_eq k key)) [
  | inl hit ↦ rw (hit, hit) refl
  | inr missed ↦ rw (missed, missed) (get-set key v fs)
]

pub get-set_other :
    (key other : Text) (v : Json) (fs : Fields)
    → text_eq key other ≡ false
    → get other (set key v fs) ≡ get other fs
unfolding get set
get-set_other key other v end differ = rw differ refl
get-set_other key other v (field k w fs) differ = elim (Bool-cases (text_eq k key)) [
  | inl hit ↦
      let e : text_eq k other ≡ false =
        ap (λ x. text_eq x other) ((text_eq_iff k key).0 hit) ∙ differ in
      rw (hit, e) refl
  | inr missed ↦ rw (missed, get-set_other key other v fs differ) refl
]

pub get_or_null-set : (key : Text) (v : Json) (fs : Fields) → get_or_null key (set key v fs) ≡ v
unfolding get_or_null
get_or_null-set key v fs = rw (get-set key v fs) refl

-- The other readings follow what `get` finds.
pub get_or_null-get :
    (key : Text) (fs gs : Fields)
    → get key fs ≡ get key gs
    → get_or_null key fs ≡ get_or_null key gs
unfolding get_or_null
get_or_null-get key fs gs e = rw e refl

pub get_default-get :
    (key : Text) (d : Json) (fs gs : Fields)
    → get key fs ≡ get key gs
    → get_default key d fs ≡ get_default key d gs
unfolding get_default
get_default-get key d fs gs e = rw e refl

pub get_or_null-set_other :
    (key other : Text) (v : Json) (fs : Fields)
    → text_eq key other ≡ false
    → get_or_null other (set key v fs) ≡ get_or_null other fs
get_or_null-set_other key other v fs differ =
    get_or_null-get other (set key v fs) fs (get-set_other key other v fs differ)

-- What is found at a key after another was set, by the comparison of the two keys.
pub get-set_if :
    (key other : Text) (v : Json) (fs : Fields)
    → get other (set key v fs) ≡ (if text_eq key other then some v else get other fs)
get-set_if key other v fs = elim (Bool-cases (text_eq key other)) [
  | inl same ↦
      rw same
        (ap (λ k. get k (set key v fs)) (sym ((text_eq_iff key other).0 same)) ∙ get-set key v fs)
  | inr differ ↦ rw differ (get-set_other key other v fs differ)
]

-- The value at a key after another was set, by the comparison of the two keys.
pub get_or_null-set_if :
    (key other : Text) (v : Json) (fs : Fields)
    → get_or_null other (set key v fs) ≡ (if text_eq key other then v else get_or_null other fs)
get_or_null-set_if key other v fs = elim (Bool-cases (text_eq key other)) [
  | inl same ↦ rw same (
      ap (λ k. get_or_null k (set key v fs)) (sym ((text_eq_iff key other).0 same))
      ∙ get_or_null-set key v fs)
  | inr differ ↦ rw differ (get_or_null-set_other key other v fs differ)
]
