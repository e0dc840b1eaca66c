-- ===== src/Score.antt =====
-- Floats of the program, as integers in millionths: importance, confidence, similarity, threshold.
use umcp.Prelude.{
  ℕ, suc, ◌+◌, ◌-◌, ◌*◌, ◌/◌, ◌%◌, ◌≤◌, Eq, nat_eq, ◌==◌, ◌≡◌, ◌↔◌, Bool, true, ◌&&◌, arith, ltb,
  leb, if◌then◌else◌,
}

-- `negsuc n` is -(n + 1).
pub data ℤ : Type 0 where
  pos : ℕ → ℤ
  negsuc : ℕ → ℤ

abbrev pub pos_part : ℤ → ℕ
pos_part (pos n) = n
pos_part (negsuc n) = 0

abbrev pub neg_part : ℤ → ℕ
neg_part (pos n) = 0
neg_part (negsuc n) = suc n

-- a - b, as an integer.
abbrev pub sub_ℕ : ℕ → ℕ → ℤ
sub_ℕ a b = if leb b a then pos (a - b) else negsuc (b - a - 1)

infix 50 ◌≤ℤ◌
abbrev pub ◌≤ℤ◌ : ℤ → ℤ → Type 0
a ≤ℤ b = pos_part a + neg_part b ≤ pos_part b + neg_part a

abbrev pub leb_ℤ : ℤ → ℤ → Bool
leb_ℤ a b = leb (pos_part a + neg_part b) (pos_part b + neg_part a)

abbrev pub ltb_ℤ : ℤ → ℤ → Bool
ltb_ℤ a b = ltb (pos_part a + neg_part b) (pos_part b + neg_part a)

abbrev pub int_beq : ℤ → ℤ → Bool
int_beq a b = pos_part a == pos_part b && neg_part a == neg_part b

pub int_beq_iff : (a b : ℤ) → (int_beq a b ≡ true) ↔ (a ≡ b)
int_beq_iff a b = ground arith

instance abbrev pub int_eq : Eq ℤ
int_eq = record { beq = int_beq; beq_iff = int_beq_iff }

-- 1.0
abbrev pub one : ℤ
one = pos 1000000

-- `max(0.0, min(1.0, x))`
unfoldable pub clamp : ℤ → ℤ
clamp x = if leb_ℤ one x then one else if ltb_ℤ x (pos 0) then pos 0 else x

-- half to even, from units of 10^-8 to units of 10^-6
unfoldable pub round_hundredths : ℕ → ℕ
round_hundredths n =
    let q = n / 100 in
    let r = n % 100 in
    if ltb r 50 then q else if ltb 50 r then q + 1 else if q % 2 == 0 then q else q + 1

-- `round(x, 6)` of a number of units of 10^-8
unfoldable pub round6 : ℤ → ℤ
unfolding round_hundredths
round6 (pos n) = pos (round_hundredths n)
round6 (negsuc n) = sub_ℕ 0 (round_hundredths (suc n))

-- `0.75 * similarity + 0.15 * importance + 0.10 * confidence`, in units of 10^-8
unfoldable pub weigh : ℤ → ℤ → ℤ → ℤ
weigh s i c =
    sub_ℕ (75 * pos_part s + 15 * pos_part i + 10 * pos_part c)
      (75 * neg_part s + 15 * neg_part i + 10 * neg_part c)
