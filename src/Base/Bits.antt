-- ===== src/Base/Bits.antt =====
-- The binary digits of a number, as the operator `|` of C combines them.
use Prim.Native.Nat.{digits, max, bit_or, bit_or-bitwise}
use semindex.Base.{
  ℕ, zero, suc, ◌+◌, ◌*◌, ◌/◌, ◌%◌, ◌≤◌, ◌≡◌, refl, sym, ap, ◌∙◌, arith, ◌==◌, Bool-cases, inl, inr,
}

abbrev or_digits : ℕ → ℕ → ℕ → ℕ
or_digits n a b = digits (λ c. c) max n a b

or_digits-fuel : (n m a b : ℕ) → a ≤ n → a ≤ m → or_digits n a b ≡ or_digits m a b
or_digits-fuel zero zero a b h k = refl
or_digits-fuel zero (suc m) zero b h k = refl
or_digits-fuel zero (suc m) (suc a) b h k = absurd (omega (arith, h))
or_digits-fuel (suc n) zero zero b h k = refl
or_digits-fuel (suc n) zero (suc a) b h k = absurd (omega (arith, k))
or_digits-fuel (suc n) (suc m) zero b h k = refl
or_digits-fuel (suc n) (suc m) (suc a) b h k =
    ap (λ d. d * 2 + max (suc a % 2) (b % 2))
      (or_digits-fuel n m (suc a / 2) (b / 2) (omega (arith, h)) (omega (arith, k)))

bit_or-digits : (a b : ℕ) → bit_or a b ≡ bit_or (a / 2) (b / 2) * 2 + max (a % 2) (b % 2)
bit_or-digits zero b =
    let none_left : bit_or 0 b ≡ b = bit_or-bitwise 0 b in
    let half : bit_or (0 / 2) (b / 2) ≡ b / 2 = bit_or-bitwise 0 (b / 2) in
    omega (arith, none_left, half)
bit_or-digits (suc a) b =
    bit_or-bitwise (suc a) b
    ∙ ap (λ d. d * 2 + max (suc a % 2) (b % 2))
        (or_digits-fuel a (suc a / 2) (suc a / 2) (b / 2) (omega arith) (omega arith)
          ∙ sym (bit_or-bitwise (suc a / 2) (b / 2)))

bit_or-half : (a b : ℕ) → bit_or a b / 2 ≡ bit_or (a / 2) (b / 2)
bit_or-half a b = omega (arith, bit_or-digits a b)

bit_or-last : (a b : ℕ) → bit_or a b % 2 ≡ max (a % 2) (b % 2)
bit_or-last a b = omega (arith, bit_or-digits a b)

bit_or-both :
    (a b c d : ℕ)
    → bit_or (a / 2) (b / 2) ≡ bit_or (c / 2) (d / 2)
    → max (a % 2) (b % 2) ≡ max (c % 2) (d % 2)
    → bit_or a b ≡ bit_or c d
bit_or-both a b c d h k = omega (arith, bit_or-digits a b, bit_or-digits c d, h, k)

-- Bits may be added in another order, and twice.
swap : (n a b c : ℕ) → a + b + c ≤ n → bit_or (bit_or a b) c ≡ bit_or (bit_or a c) b
swap zero a b c h =
    let p : a ≡ 0 = omega (arith, h) in
    let q : b ≡ 0 = omega (arith, h) in let r : c ≡ 0 = omega (arith, h) in rw (p, q, r) refl
swap (suc n) a b c h = elim (Bool-cases (a + b + c == 0)) [
  | inl e ↦ swap_none a b c (ground (arith, e))
  | inr e ↦
      let less : a / 2 + b / 2 + c / 2 ≤ n = ground (arith, h, e) in
      let rest = swap n (a / 2) (b / 2) (c / 2) less in
      bit_or-both (bit_or a b) c (bit_or a c) b
        (ap (λ d. bit_or d (c / 2)) (bit_or-half a b)
          ∙ rest
          ∙ ap (λ d. bit_or d (b / 2)) (sym (bit_or-half a c)))
        (omega (arith, bit_or-last a b, bit_or-last a c))
]
  where
    swap_none : (a b c : ℕ) → a + b + c ≡ 0 → bit_or (bit_or a b) c ≡ bit_or (bit_or a c) b
    swap_none a b c h =
        let p : a ≡ 0 = omega (arith, h) in
        let q : b ≡ 0 = omega (arith, h) in let r : c ≡ 0 = omega (arith, h) in rw (p, q, r) refl

pub bit_or-swap : (a b c : ℕ) → bit_or (bit_or a b) c ≡ bit_or (bit_or a c) b
bit_or-swap a b c = swap (a + b + c) a b c (omega arith)

self : (n a : ℕ) → a ≤ n → bit_or a a ≡ a
self zero a h = let p : a ≡ 0 = omega (arith, h) in rw p refl
self (suc n) zero h = refl
self (suc n) (suc a) h =
    let rest = self n (suc a / 2) (omega (arith, h)) in
    omega (arith, bit_or-digits (suc a) (suc a), rest)

pub bit_or_self : (a : ℕ) → bit_or a a ≡ a
bit_or_self a = self a a (omega arith)

again : (n a b : ℕ) → a + b ≤ n → bit_or (bit_or a b) b ≡ bit_or a b
again zero a b h =
    let p : a ≡ 0 = omega (arith, h) in let q : b ≡ 0 = omega (arith, h) in rw (p, q) refl
again (suc n) a b h = elim (Bool-cases (a + b == 0)) [
  | inl e ↦ let p : a ≡ 0 = ground (arith, e) in let q : b ≡ 0 = ground (arith, e) in rw (p, q) refl
  | inr e ↦
      let rest = again n (a / 2) (b / 2) (ground (arith, h, e)) in
      bit_or-both (bit_or a b) b a b (ap (λ d. bit_or d (b / 2)) (bit_or-half a b) ∙ rest)
        (omega (arith, bit_or-last a b))
]

pub bit_or-again : (a b : ℕ) → bit_or (bit_or a b) b ≡ bit_or a b
bit_or-again a b = again (a + b) a b (omega arith)
