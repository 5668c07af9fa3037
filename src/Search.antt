-- ===== src/Search.antt =====
-- Where `find`, `starts_with` and `substr` of `std::string` find what a program put there.
use mathlib.Core.List.{append_assoc}
use native.Mathlib.Nat.{zero-add, suc-add}
use oai_cn5g_sepp.Base.{
  ℕ, zero, suc, ◌+◌, ◌≡◌, refl, sym, ap, ◌≤◌, ◌∙◌, ◌≢◌, true, some, [], take, drop, Bool-cases, inl,
  inr, ◌∷◌, ◌++◌, arith, Bytes, starts_with, find, length, length-append, take-append, drop-append,
  substr, substr_from, All,
}

pub starts_with-append : (p s : Bytes) → starts_with (p ++ s) p ≡ true
unfolding starts_with
starts_with-append [] s = refl
starts_with-append (c ∷ p) s = ground (arith, starts_with-append p s)

-- No byte of the text is `b`.
abbrev pub Lacks : ℕ → Bytes → Type 0
Lacks b s = All (λ c. c ≢ b) s

pub Lacks-append : (b : ℕ) (s t : Bytes) → Lacks b s → Lacks b t → Lacks b (s ++ t)
Lacks-append b [] t h k = k
Lacks-append b (c ∷ s) t (n, h) k = (n, Lacks-append b s t h k)

-- A pattern is found right behind a text that lacks the pattern's first byte.
pub find-append :
    (b : ℕ) (p before after : Bytes)
    → Lacks b before
    → find (before ++ ((b ∷ p) ++ after)) (b ∷ p) ≡ some (length before)
unfolding find
find-append b p [] after h = rw (starts_with-append (b ∷ p) after)
find-append b p (c ∷ before) after (ne, h) = rw (find-append b p before after h) (ground arith)

take_of_le : (n : ℕ) (s : Bytes) → length s ≤ n → take n s ≡ s
take_of_le zero [] h = refl
take_of_le zero (c ∷ s) h = elim h [ ]
take_of_le (suc n) [] h = refl
take_of_le (suc n) (c ∷ s) h = ap (◌∷◌ c) (take_of_le n s (omega arith))

pub substr-append : (xs ys : Bytes) → substr (xs ++ ys) 0 (length xs) ≡ some xs
substr-append xs ys = ground (arith, take-append xs ys)

pub substr_from-append : (xs ys : Bytes) → substr_from (xs ++ ys) (length xs) ≡ some ys
substr_from-append xs ys = ground (arith, drop-append xs ys, length-append xs ys)

starts_with-split : (s p : Bytes) → starts_with s p ≡ true → s ≡ p ++ drop (length p) s
unfolding starts_with
starts_with-split s [] h = refl
starts_with-split [] (b ∷ p) h = cc
starts_with-split (c ∷ s) (b ∷ p) h = ground (arith, starts_with-split s p)

-- What `find` returns is a place where the pattern stands.
pub find-split :
    (s p : Bytes) (n : ℕ) → find s p ≡ some n → s ≡ take n s ++ (p ++ drop (length p) (drop n s))
unfolding find
find-split [] [] n h = ground arith
find-split [] (b ∷ p) n h = cc
find-split (c ∷ s) p zero h = elim (Bool-cases (starts_with (c ∷ s) p)) [
  | inl e ↦ starts_with-split (c ∷ s) p e
  | inr e ↦ absurd (ground (arith, e))
]
find-split (c ∷ s) p (suc n) h = ground (arith, find-split s p n)

drop_nil : (n : ℕ) → drop {A = ℕ} n [] ≡ []
drop_nil zero = refl
drop_nil (suc n) = refl

pub drop-drop : (n m : ℕ) (s : Bytes) → drop m (drop n s) ≡ drop (n + m) s
drop-drop zero m s = rw zero-add
drop-drop (suc n) m [] = drop_nil m ∙ sym (drop_nil (suc n + m))
drop-drop (suc n) m (c ∷ s) = rw suc-add (drop-drop n m s)

-- Behind a text and a pattern stands the rest.
pub substr_from_pattern :
    (before p rest : Bytes)
    → substr_from (before ++ (p ++ rest)) (length before + length p) ≡ some rest
substr_from_pattern before p rest =
    rw (sym (length-append before p), sym (append_assoc before p rest))
      (substr_from-append (before ++ p) rest)
