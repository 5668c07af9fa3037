-- ===== src/Decimal.antt =====
-- `std::to_string` of a number and `std::stoi`, in decimal.
use oai_cn5g_sepp.Base.{
  ℕ, zero, suc, ◌+◌, ◌-◌, ◌*◌, ◌/◌, ◌%◌, ◌<◌, ◌≡◌, refl, Bool, true, false, ◌&&◌, Option, none,
  some, [], ◌∷◌, Bytes, ltb, leb, ◌=?◌, if◌then◌else◌, arith,
}

-- The digits in front of those already written. A `long` has at most nineteen.
unfoldable pub to_string_from : ℕ → ℕ → Bytes → Bytes
to_string_from zero n out = out
to_string_from (suc fuel) n out =
    let more = to_string_from fuel (n / 10) ((b'0' + n % 10) ∷ out) in
    if ltb n 10 then (b'0' + n) ∷ out else more

unfoldable pub to_string : ℕ → Bytes
unfolding to_string_from
to_string n = to_string_from 20 n []

-- The digits at the head, added to those read before; how many there are is not counted.
unfoldable digits_value : ℕ → Bytes → ℕ
digits_value acc [] = acc
digits_value acc (c ∷ s) =
    let more = digits_value (acc * 10 + (c - b'0')) s in
    if leb b'0' c && leb c b'9' then more else acc

abbrev starts_with_digit : Bytes → Bool
starts_with_digit [] = false
starts_with_digit (c ∷ s) = leb b'0' c && leb c b'9'

-- An `int`: whether it is negative, and its magnitude. `none` for `invalid_argument`, where no
-- digit comes, and for `out_of_range`.
unfoldable unsigned_value : Bool → ℕ → Bytes → Option (Bool × ℕ)
unfolding digits_value
unsigned_value negative limit s =
    if starts_with_digit s && leb (digits_value 0 s) limit
    then some (negative, digits_value 0 s)
    else none

-- `std::stoi` of a text that does not begin with white space.
unfoldable pub stoi : Bytes → Option (Bool × ℕ)
unfolding unsigned_value
stoi [] = none
stoi (c ∷ s) =
    if c =? b'-'
    then unsigned_value true 2147483648 s
    else if c =? b'+'
    then unsigned_value false 2147483647 s
    else unsigned_value false 2147483647 (c ∷ s)

module _ (test : ℕ → Bool) where
  -- The test holds of every number below a bound, by evaluation.
  unfoldable pub holds_below : ℕ → Bool
  holds_below zero = true
  holds_below (suc bound) = holds_below bound && test bound

  pub holds_below-true : (bound i : ℕ) → i < bound → holds_below bound ≡ true → test i ≡ true
  unfolding holds_below
  holds_below-true zero i below h = absurd (omega (arith, below))
  holds_below-true (suc bound) i below h = ground (arith, holds_below-true bound i)

abbrev reads_back : ℕ → Option (Bool × ℕ) → Bool
reads_back n none = false
reads_back n (some (true, m)) = false
reads_back n (some (false, m)) = m =? n

reads_back-eq : (n : ℕ) (o : Option (Bool × ℕ)) → reads_back n o ≡ true → o ≡ some (false, n)
reads_back-eq n none h = cc
reads_back-eq n (some (true, m)) h = cc
reads_back-eq n (some (false, m)) h = ground arith

statuses_read_back : holds_below (λ n. reads_back n (stoi (to_string n))) 1000 ≡ true
unfolding holds_below stoi to_string
statuses_read_back = refl

-- A number of up to three digits, such as an HTTP status, is read back from its decimal text.
pub stoi-to_string : (n : ℕ) → n < 1000 → stoi (to_string n) ≡ some (false, n)
stoi-to_string n h = reads_back-eq n _ (holds_below-true _ 1000 n h statuses_read_back)
