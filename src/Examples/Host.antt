-- ===== src/Examples/Host.antt =====
-- A Python for the tests: ASCII letters are lowered one by one, and a hash is the text itself.
use skodun.Prelude.{
  ℕ, ◌+◌, ◌≡◌, refl, Bool, true, false, ◌&&◌, ◌||◌, map, leb, if◌then◌else◌, List, [], ◌∷◌,
}
use skodun.Prelude.Text.{codes}
use skodun.Textnorm.{Python}
use skodun.Trust.Rendering.{PrintsInts}

abbrev lower_char : ℕ → ℕ
lower_char c = if leb 65 c && leb c 90 then c + 32 else c

abbrev is_alnum_char : ℕ → Bool
is_alnum_char c = (leb 48 c && leb c 57) || (leb 65 c && leb c 90) || (leb 97 c && leb c 122)

abbrev pub ascii : Python
ascii = record {
  lower = map lower_char;
  to_str = λ v. codes "7";
  is_alnum = is_alnum_char;
  sha256_16 = λ s. s;
  is_time = λ s. true;
}

pub ascii-PrintsInts : PrintsInts ascii
unfolding skodun.Prelude.all skodun.Trust.is_line_break
ascii-PrintsInts n = record { fits = refl }
