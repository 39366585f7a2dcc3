-- ===== src/Server/Decimal/Bounds.antt =====
-- A number that FormatInt writes is read back up to 2⁶³, and refused from there on.
use Prim.Native.Nat.{◌*◌, ◌/◌, ◌%◌}
use mattermost_plugin_todo.Prelude.{
  ℕ, zero, suc, ◌+◌, ◌-◌, ◌<◌, ◌≡◌, ◌≢◌, refl, sym, ◌∙◌, ap, Bool, true, false, List, [], ◌∷◌, ◌++◌,
  ltb, leb, length, length-append, if◌then◌else◌, arith, Bool-cases, inl, inr,
}
use mathlib.Core.List.{append_assoc, append-nil}
use mattermost_plugin_todo.Server.Action.{ok}
use mattermost_plugin_todo.Server.Decimal.{
  int64_mod, uint64_mod, digits, format_int, parse_digits, below_cutoff, parse_int, range_error,
  parse_bool, format_bool,
}

-- One digit.
parse_digits-digit :
    (n d m : ℕ) (rest : List ℕ)
    → d < 10
    → n * 10 + d ≡ m
    → m < uint64_mod
    → parse_digits n ((b'0' + d) ∷ rest) ≡ parse_digits m rest
unfolding parse_digits
parse_digits-digit n d m rest h sum k =
    let e : b'0' + d - b'0' ≡ d = omega arith in
    let low : leb b'0' (b'0' + d) ≡ true = ground arith in
    let high : leb (b'0' + d) b'9' ≡ true = ground arith in
    let fits : ltb m uint64_mod ≡ true = ground arith in rw (e, sum, low, high, fits)

-- The digits of a number in front of other text.
parse_digits-digits :
    (fuel n : ℕ) (rest : List ℕ)
    → n < fuel
    → n < uint64_mod
    → parse_digits 0 (digits fuel n ++ rest) ≡ parse_digits n rest
unfolding digits
parse_digits-digits zero n rest h k = absurd (omega arith)
parse_digits-digits (suc fuel) n rest h k = elim (Bool-cases (ltb n 10)) [
  | inl one ↦ rw one (parse_digits-digit 0 n n rest (ground arith) (omega arith) k)
  | inr more ↦
      rw (more, append_assoc)
        (parse_digits-digits fuel (n / 10) ((b'0' + n % 10) ∷ rest) (ground arith) (omega arith)
          ∙ parse_digits-digit (n / 10) (n % 10) n rest (omega arith) (omega arith) k)
]

parse_digits-format_int : (n : ℕ) → n < uint64_mod → parse_digits 0 (format_int n) ≡ ok n
unfolding format_int
parse_digits-format_int n k =
    ap (parse_digits 0) (sym (append-nil (digits (suc n) n)))
    ∙ parse_digits-digits (suc n) n [] (omega arith) k
    ∙ unfold parse_digits in refl

parse_int-digits :
    (l : List ℕ) (n : ℕ) → parse_digits 0 l ≡ ok n → l ≢ [] → parse_int l ≡ below_cutoff (ok n)
unfolding parse_int
parse_int-digits [] n h full = absurd (full refl)
parse_int-digits (c ∷ l) n h full = ap below_cutoff h

digits-length : (fuel n : ℕ) → 0 < length (digits (suc fuel) n)
unfolding digits
digits-length fuel n = elim (Bool-cases (ltb n 10)) [
  | inl one ↦ rw one (omega arith)
  | inr more ↦
      rw more (omega (arith, length-append {0} (digits fuel (n / 10)) ((b'0' + n % 10) ∷ [])))
]

format_int-ne-nil : (n : ℕ) → format_int n ≢ []
unfolding format_int
format_int-ne-nil n h = absurd (omega (arith, digits-length n n, ap length h))

-- ParseInt in 64 bits reads every number below 2⁶³ back from the text that FormatInt writes, and
-- refuses the digits of a number from 2⁶³ up to 2⁶⁴ as out of range.
pub parse_int-format_int :
    (n : ℕ)
    → n < uint64_mod
    → parse_int (format_int n) ≡ (if ltb n int64_mod then ok n else range_error)
parse_int-format_int n k =
    parse_int-digits (format_int n) n (parse_digits-format_int n k) (format_int-ne-nil n)

-- ParseBool reads back what FormatBool writes.
pub parse_bool-format_bool : (b : Bool) → parse_bool (format_bool b) ≡ ok b
unfolding parse_bool format_bool
parse_bool-format_bool true = refl
parse_bool-format_bool false = refl
