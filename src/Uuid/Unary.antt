-- ===== src/Uuid/Unary.antt =====
-- A codec for examples: an id is written as one character more than its value, and the empty text is
-- no id. As in the real codec, several texts parse to one id.

use cyandie_backend.Common.{ℕ, zero, suc, String, Option, none, some, ◌≡◌, refl, ap}
use cyandie_backend.Uuid.{UuidCodec}

abbrev pub tally : ℕ → String
tally zero = String.[]
tally (suc n) = String.◌∷◌ "i" (tally n)

abbrev pub count_chars : String → ℕ
count_chars String.[] = 0
count_chars (String.◌∷◌ c s) = suc (count_chars s)

abbrev pub parse_tally : String → Option ℕ
parse_tally String.[] = none
parse_tally (String.◌∷◌ c s) = some (count_chars s)

pub count_chars-tally : (n : ℕ) → count_chars (tally n) ≡ n
count_chars-tally zero = refl
count_chars-tally (suc n) = ap suc (count_chars-tally n)

pub parse-tally : (n : ℕ) → parse_tally (tally (suc n)) ≡ some n
parse-tally n = ap some (count_chars-tally n)

abbrev pub unary_codec : UuidCodec
unary_codec = record {
  parse = parse_tally;
  format = λ n. tally (suc n);
  parse-format = parse-tally;
}
